-- ===== src/Afterburner/Slots.antt =====
-- internal/hardware/afterburner/afterburner.go: the slot loops against the list of the slots that fit.
use rig_exporter.Base.{
  ℕ, zero, suc, ◌+◌, ◌-◌, ◌*◌, ◌%◌, ◌^◌, ◌≤◌, ◌<◌, ◌≡◌, inl, inr, refl, ap, ◌∙◌, List, [], ◌∷◌,
  ◌++◌, append-nil, append_assoc, arith, ltb, leb, if◌then◌else◌, ltb→lt, ltb_false→le, le→leb,
  Bool-cases, length, take, drop, length-take, length-drop, Outcome, ok, ◌>>=◌,
}
use rig_exporter.Base.Bytes.{slice, slice_ok}
use rig_exporter.Afterburner.{Error, max_entries, read_slots}

-- The values of the slots whose first `need` bytes lie in the buffer, of the `n` slots from `i` on; a slot
-- may be longer, and cut off behind them.
unfoldable pub fitting : {A : Type 0} → (List ℕ → A) → ℕ → ℕ → ℕ → List ℕ → ℕ → ℕ → List A
fitting value need zero i buf base size = []
fitting value need (suc n) i buf base size =
    let rest = fitting value need n (i + 1) buf base size in
    if leb (base + i * size + need) (length buf)
    then value (take need (drop (base + i * size) buf)) ∷ rest
    else rest

module _ {A : Type 0} (decode : List ℕ → Outcome Error A) (value : List ℕ → A) (need : ℕ)
    (small : need < 65536)
    (decodes : (b : List ℕ) → length b ≡ need → decode b ≡ ok (value b)) where
  fitting_past :
      (n i : ℕ) (buf : List ℕ) (base size : ℕ)
      → length buf < base + i * size + need
      → fitting value need n i buf base size ≡ []
  unfolding fitting
  fitting_past zero i buf base size h = refl
  fitting_past (suc n) i buf base size h =
      ground (arith, fitting_past n (i + 1) buf base size (omega arith))

  length-slot :
      (buf : List ℕ) (start : ℕ)
      → start + need ≤ length buf
      → length (take need (drop start buf)) ≡ need
  length-slot buf start h = omega (arith, length-take need (drop start buf), length-drop start buf)

  round_ok :
      {B : Type 0} (buf : List ℕ) (start : ℕ) (f : A → Outcome Error B)
      → start + need ≤ length buf
      → (slice buf start (start + need) >>= λ b. decode b >>= f)
        ≡ f (value (take need (drop start buf)))
  round_ok buf start f h =
      let e : (start + need) - start ≡ need = omega arith in
      rw (slice_ok buf start (start + need) (omega arith) h, e)
        (rw (decodes (take need (drop start buf)) (length-slot buf start h)))

  product_bound : (i size : ℕ) → size < 4294967296 → i ≤ max_entries → i * size ≤ 17592186044416
  product_bound i size hs hi = grind arith

  exact :
      (base i size : ℕ)
      → base < 2 ^ 62
      → size < 4294967296
      → i ≤ max_entries
      → ((base + i * size) % 2 ^ 64 ≡ base + i * size)
        × ((base + i * size + need) % 2 ^ 64 ≡ base + i * size + need)
  exact base i size ho hs hi = omega (arith, product_bound i size hs hi)

  pub read_slots_lem :
      (n i : ℕ) (buf : List ℕ) (base size : ℕ) (out : List A)
      → base < 2 ^ 62
      → size < 4294967296
      → n + i ≤ max_entries
      → read_slots decode need n i buf base size out
        ≡ ok (out ++ fitting value need n i buf base size)
  unfolding read_slots fitting
  read_slots_lem zero i buf base size out ho hs hi = rw append-nil
  read_slots_lem (suc n) i buf base size out ho hs hi =
      let (e, e') = exact base i size ho hs (omega arith) in
      rw (e, e')
        (elim (Bool-cases (ltb (length buf) (base + i * size + need))) [
          | inl past ↦
              rw past (rw (fitting_past (suc n) i buf base size (ltb→lt _ _ past)) (rw append-nil))
          | inr fits ↦
              let room : base + i * size + need ≤ length buf = ltb_false→le _ _ fits in
              rw (fits, le→leb _ _ room)
                (round_ok buf (base + i * size) _ room
                  ∙ read_slots_lem n (i + 1) buf base size _ ho hs (omega arith)
                  ∙ ap {B = Outcome Error (List A)} ok (append_assoc out _ _))
        ])
