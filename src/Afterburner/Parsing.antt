-- ===== src/Afterburner/Parsing.antt =====
-- internal/hardware/afterburner/afterburner.go: `Parse` against the slots that the header describes.
use rig_exporter.Base.{
  ℕ, ◌+◌, ◌*◌, ◌/◌, ◌%◌, ◌^◌, ◌≤◌, ◌<◌, ◌≡◌, ◌≢◌, ◌↔◌, inl, inr, refl, ◌∙◌, Bool, true, false, ◌||◌,
  Option, none, some, List, [], arith, ltb, ◌==◌, if◌then◌else◌, ltb→lt, lt→ltb, le→ltb_false,
  ltb_false→le, ==→eq, Bool-cases, length, take, drop, Outcome, ok, err, IsSafe,
}
use rig_exporter.Base.Bytes.{IsBytes, uint32_ok, slice_ok, word32, word32-lt}
use rig_exporter.Base.Unicode.{Unicode}
use rig_exporter.Afterburner.{
  Error, Entry, Gpu, Snapshot, signature, truncated, bad_signature, min_header_size, entry_min_size,
  entry_name_len, gpu_entry_min_size, max_entries, max_gpu_entries, max_gpu_entry_size, c_string,
  parse_entry, parse_gpu, parse_gpus, parse,
}
use rig_exporter.Afterburner.Size.{IsHeader}
use rig_exporter.Afterburner.Descriptor.{cards, gpu_descriptor_lem, cards_plausible}
use rig_exporter.Afterburner.Slots.{fitting, read_slots_lem}

array_bound : (n size : ℕ) → size < 4294967296 → n ≤ max_entries → n * size ≤ 17592186044416
array_bound n size hs hn = grind arith

module _ (u : Unicode) where
  abbrev pub entry_value : List ℕ → Entry
  entry_value b = record { source = c_string u (take entry_name_len b); value = word32 b 1300 }

  abbrev pub gpu_value : List ℕ → Gpu
  gpu_value b = record {
    device = c_string u (take entry_name_len (drop 520 b));
    family = c_string u (take entry_name_len (drop 260 b));
    memory_mb = word32 b 1300 / 1024;
  }

  parse_entry_lem : (b : List ℕ) → length b ≡ entry_min_size → parse_entry u b ≡ ok (entry_value b)
  unfolding parse_entry
  parse_entry_lem b h =
      simp (slice_ok b 0 260 (omega arith) (omega arith), uint32_ok b 1300 (omega arith))

  parse_gpu_lem : (b : List ℕ) → length b ≡ gpu_entry_min_size → parse_gpu u b ≡ ok (gpu_value b)
  unfolding parse_gpu
  parse_gpu_lem b h = simp (
    slice_ok b 520 780 (omega arith) (omega arith),
    slice_ok b 260 520 (omega arith) (omega arith),
    uint32_ok b 1300 (omega arith),
  )

  -- The card entries that a descriptor gives: those whose first 1304 bytes lie in the buffer.
  abbrev pub fitting_gpus : List ℕ → ℕ → Option (ℕ × ℕ) → List Gpu
  fitting_gpus buf base none = []
  fitting_gpus buf base (some (count, size)) =
      fitting gpu_value gpu_entry_min_size count 0 buf base size

  parse_gpus_lem :
      (buf : List ℕ) (base : ℕ) (descriptor : Option (ℕ × ℕ))
      → base < 2 ^ 62
      → ((count size : ℕ)
          → descriptor ≡ some (count, size)
          → (count ≤ max_gpu_entries) × (size ≤ max_gpu_entry_size))
      → parse_gpus u buf base descriptor ≡ ok (fitting_gpus buf base descriptor)
  unfolding parse_gpus
  parse_gpus_lem buf base none small sane = refl
  parse_gpus_lem buf base (some (count, size)) small sane =
      let s = sane count size refl in
      read_slots_lem (parse_gpu u) gpu_value gpu_entry_min_size (omega arith) parse_gpu_lem count 0
        buf base size [] small (omega arith) (omega arith)

  -- On bytes with a signed header, `parse` returns the header's version and, if the header describes
  -- at most 4096 sensors of at least 1324 bytes behind at least 20 bytes, the sensors whose first
  -- 1324 bytes lie in the buffer and, of the cards that a descriptor in the header gives, those whose
  -- first 1304 bytes lie in it, in their order, also a last one whose further bytes are cut off;
  -- otherwise it returns none of either.
  pub parse-fitting :
      (buf : List ℕ)
      → IsBytes buf
      → IsHeader buf
      → parse u buf ≡ (
          if ltb (word32 buf 8) min_header_size
            || ltb (word32 buf 16) entry_min_size
            || ltb max_entries (word32 buf 12)
          then ok (record { version = word32 buf 4; entries = []; gpus = [] })
          else ok (record {
            version = word32 buf 4;
            entries =
                fitting entry_value entry_min_size
                  (word32 buf 12)
                  0
                  buf
                  (word32 buf 8)
                  (word32 buf 16);
            gpus =
                fitting_gpus buf
                  (word32 buf 8 + word32 buf 12 * word32 buf 16)
                  (cards buf (word32 buf 8));
          }))
  unfolding parse
  parse-fitting buf bytes good = rw (le→ltb_false _ _ good.long) (
      rw (uint32_ok buf 0 (omega (arith, good.long)), good.signed)
        (rw
          (
            uint32_ok buf 4 (omega (arith, good.long)),
            uint32_ok buf 8 (omega (arith, good.long)),
            uint32_ok buf 12 (omega (arith, good.long)),
            uint32_ok buf 16 (omega (arith, good.long)),
          )
          (elim (Bool-cases (
            ltb (word32 buf 8) min_header_size
            || ltb (word32 buf 16) entry_min_size
            || ltb max_entries (word32 buf 12))) [
              | inl none' ↦ rw none'
              | inr array ↦
                  let count : word32 buf 12 ≤ max_entries = ground arith in
                  let small : word32 buf 8 + word32 buf 12 * word32 buf 16 < 2 ^ 62 = omega (
                    arith,
                    array_bound (word32 buf 12) (word32 buf 16) (word32-lt buf 16 bytes) count,
                    word32-lt buf 8 bytes,
                  ) in
                  let exact' : (word32 buf 8 + word32 buf 12 * word32 buf 16) % 2 ^ 64
                      ≡ word32 buf 8 + word32 buf 12 * word32 buf 16 =
                    omega arith in
                  rw (array, gpu_descriptor_lem, exact')
                    (rw
                      (read_slots_lem (parse_entry u) entry_value entry_min_size (omega arith)
                        parse_entry_lem (word32 buf 12) 0 buf (word32 buf 8) (word32 buf 16) []
                        (omega (arith, word32-lt buf 8 bytes)) (word32-lt buf 16 bytes)
                        (omega arith))
                      (rw (
                        parse_gpus_lem buf _ (cards buf (word32 buf 8)) small
                          (cards_plausible buf (word32 buf 8)))))
            ])))

  parse_short : (buf : List ℕ) → length buf < min_header_size → parse u buf ≡ err truncated
  unfolding parse
  parse_short buf h = rw (lt→ltb _ _ h)

  parse_foreign :
      (buf : List ℕ)
      → min_header_size ≤ length buf
      → (word32 buf 0 == signature) ≡ false
      → parse u buf ≡ err bad_signature
  unfolding parse
  parse_foreign buf h k = rw (le→ltb_false _ _ h) (rw (uint32_ok buf 0 (omega (arith, h))) (rw k))

  either_ok :
      (b : Bool) (s t : Snapshot)
      → (r : Snapshot) × ((if◌then◌else◌ {A = Outcome Error Snapshot} b (ok s) (ok t)) ≡ ok r)
  either_ok true s t = (s, refl)
  either_ok false s t = (t, refl)

  parse_good : (buf : List ℕ) → IsBytes buf → IsHeader buf → (s : Snapshot) × (parse u buf ≡ ok s)
  parse_good buf bytes good = let (s, q) = either_ok _ _ _ in (s, parse-fitting buf bytes good ∙ q)

  -- `parse` never panics on bytes; it fails exactly where the block is shorter than 20 bytes
  -- (truncated) or does not begin with the signature (bad signature).
  pub parse_errors :
      (buf : List ℕ)
      → IsBytes buf
      → IsSafe (parse u buf)
        × ((parse u buf ≡ err truncated) ↔ (length buf < min_header_size))
        × ((parse u buf ≡ err bad_signature)
            ↔ ((min_header_size ≤ length buf) × (word32 buf 0 ≢ signature)))
  parse_errors buf bytes = elim (Bool-cases (ltb (length buf) min_header_size)) [
    | inl short ↦
        let lt = ltb→lt _ _ short in
        rw (parse_short buf lt)
          (tt, (λ _. lt, λ _. refl), (λ h. absurd (cc), λ h. absurd (omega arith)))
    | inr long ↦
        let le = ltb_false→le _ _ long in
        elim (Bool-cases (word32 buf 0 == signature)) [
          | inl same ↦
              let (s, p) = parse_good buf bytes (record { long = le; signed = ==→eq _ _ same }) in
              rw p (
                tt,
                (λ h. absurd (cc), λ h. absurd (omega arith)),
                (λ h. absurd (cc), λ h. absurd (h.1 (==→eq _ _ same))),
              )
          | inr other ↦ rw (parse_foreign buf le other) (
            tt,
            (λ h. absurd (cc), λ h. absurd (omega arith)),
            (λ _. (le, λ e. absurd (ground arith)), λ _. refl),
          )
        ]
  ]
