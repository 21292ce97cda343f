-- ===== src/Rtss/Active.antt =====
-- internal/rtss/rtss.go: which entry `SelectActive` picks, and when it picks none.
use rig_exporter.Base.{
  ℕ, ◌≡◌, ◌≢◌, ◌↔◌, ◌⊎◌, inl, inr, refl, sym, true, false, not, ◌&&◌, Option, none, some, List, [],
  ◌∷◌, arith, ◌==◌, if◌then◌else◌, Bool-cases, All,
}
use rig_exporter.Rtss.{Entry, is_skipped, newer, select_from, select_active}
use mathlib.Core.List.{Memᴰ}

-- An entry that may be reported: a hooked process with a timestamp that is not too old.
abbrev pub IsEligible : ℕ → ℕ → Entry → Type 0
IsEligible now max_age e = is_skipped e now max_age ≡ false

abbrev IsForeground : ℕ → Entry → Type 0
IsForeground foreground e = (not (foreground == 0) && e.process_id == foreground) ≡ true

newer_sound :
    (x : Entry) (best : Option Entry) (e : Entry)
    → newer x best ≡ some e
    → (best ≡ some e) ⊎ (x ≡ e)
unfolding newer
newer_sound x none e h = inr (cc)
newer_sound x (some b) e h = ground arith

module _ (now max_age : ℕ) {best : Option Entry} {x e : Entry} {es : List Entry} where
  later :
      (best ≡ some e) ⊎ (Memᴰ e es × IsEligible now max_age e)
      → (best ≡ some e) ⊎ (Memᴰ e (x ∷ es) × IsEligible now max_age e)
  later (inl h) = inl h
  later (inr (m, l)) = inr (Memᴰ.tail m, l)

  fresh :
      (newer x best ≡ some e → (best ≡ some e) ⊎ (x ≡ e))
      → IsEligible now max_age x
      → (newer x best ≡ some e) ⊎ (Memᴰ e es × IsEligible now max_age e)
      → (best ≡ some e) ⊎ (Memᴰ e (x ∷ es) × IsEligible now max_age e)
  fresh f l (inr (m, l')) = inr (Memᴰ.tail m, l')
  fresh f l (inl h) = elim (f h) [ inl old ↦ inl old | inr p ↦ inr (Memᴰ.head (sym p), rw p at l) ]

module _ (foreground now max_age : ℕ) where
  from_sound :
      (best : Option Entry) (es : List Entry) (e : Entry)
      → select_from best es foreground now max_age ≡ some e
      → (best ≡ some e) ⊎ (Memᴰ e es × IsEligible now max_age e)
  unfolding select_from newer
  from_sound best [] e h = inl h
  from_sound best (x ∷ es) e h = elim (Bool-cases (is_skipped x now max_age)) [
    | inl skip ↦ later now max_age (from_sound best es e (rw skip at h))
    | inr live ↦ elim (Bool-cases (not (foreground == 0) && x.process_id == foreground)) [
      | inl front ↦ inr (Memᴰ.head (cc (front, live, h)), cc (front, live, h))
      | inr back ↦
          fresh now max_age (newer_sound x best e) live
            (from_sound (newer x best) es e (rw (live, back) at h))
    ]
  ]

  from-none :
      (es : List Entry) (best : Option Entry)
      → (select_from best es foreground now max_age ≡ none)
        ↔ ((best ≡ none) × All (λ e. is_skipped e now max_age ≡ true) es)
  unfolding select_from newer
  from-none [] best = (λ h. (h, tt), λ h. h.0)
  from-none (x ∷ es) best = grind (arith, from-none es)

  from-foreground :
      (best : Option Entry) (es : List Entry) (e : Entry)
      → Memᴰ e es
      → IsEligible now max_age e
      → IsForeground foreground e
      → (f : Entry) × (select_from best es foreground now max_age ≡ some f)
        × (f.process_id ≡ foreground)
  unfolding select_from
  from-foreground best [] e m live front = elim m [ ]
  from-foreground best (x ∷ es) e (Memᴰ.head p) live front = (x, ground arith, ground arith)
  from-foreground best (x ∷ es) e (Memᴰ.tail m) live front =
      elim (Bool-cases
        (not (is_skipped x now max_age) && (not (foreground == 0) && x.process_id == foreground))) [
          | inl hit ↦ (x, rw hit, ground arith)
          | inr pass ↦ rw pass (
              from-foreground (if is_skipped x now max_age then best else newer x best) es e m live
                front)
        ]

module _ (entries : List Entry) (foreground now max_age : ℕ) where
  -- The entry that `select_active` returns is one of the entries, and is eligible.
  pub select_active_sound :
      (e : Entry)
      → select_active entries foreground now max_age ≡ some e
      → Memᴰ e entries × IsEligible now max_age e
  unfolding select_active
  select_active_sound e h = elim (from_sound foreground now max_age none entries e h) [
    | inl never ↦ absurd (cc)
    | inr found ↦ found
  ]

  -- `select_active` returns no entry exactly when no entry is eligible.
  pub select_active-eq-none :
      (select_active entries foreground now max_age ≡ none)
      ↔ All (λ e. is_skipped e now max_age ≡ true) entries
  unfolding select_active
  select_active-eq-none =
      let f = from-none foreground now max_age entries none in (λ h. (f.0 h).1, λ h. f.1 (refl, h))

  -- If the foreground process has an eligible entry, the entry returned is one of that process.
  pub select_active-foreground :
      (e : Entry)
      → Memᴰ e entries
      → IsEligible now max_age e
      → foreground ≢ 0
      → e.process_id ≡ foreground
      → (f : Entry) × (select_active entries foreground now max_age ≡ some f)
        × (f.process_id ≡ foreground)
  unfolding select_active
  select_active-foreground e m live set front =
      from-foreground foreground now max_age none entries e m live (ground arith)
