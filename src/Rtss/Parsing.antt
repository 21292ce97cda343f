-- ===== src/Rtss/Parsing.antt =====
-- internal/rtss/rtss.go: `Parse` against the list of the slots that the header describes.
use rig_exporter.Base.{
  ℕ, zero, suc, ◌+◌, ◌-◌, ◌*◌, ◌%◌, ◌^◌, ◌≤◌, ◌<◌, ◌≡◌, refl, Bool, true, not, ◌&&◌, ◌||◌, List, [],
  ◌∷◌, ◌++◌, length, take, drop, arith, ok, err, IsSafe, Outcome, ◌>>=◌, ltb, leb, ◌==◌,
  if◌then◌else◌, Bool-cases, Outcome-cases, ◌↔◌, inl, inr, ap, ◌∙◌, le→leb, length-take,
  length-drop, ltb_false→le, ltb→lt, append-nil, append_assoc,
}
use rig_exporter.Base.Bytes.{IsBytes, uint32_ok, slice, slice_ok, word32, word32-lt}
use rig_exporter.Rtss.{
  Error, Entry, name_len, entry_min_size, max_entries, check_header, c_string, parse_entry,
  parse_entries, parse,
}
use rig_exporter.Rtss.Header.{
  check_header-IsHeader, IsHeader-check_header, check_header-IsSafe, IsHeader,
}

module _ (decode_ansi : List ℕ → List ℕ) where
  -- The entry that 312 bytes describe.
  abbrev pub entry_of : List ℕ → Entry
  entry_of b = record {
    process_id = word32 b 0;
    path = c_string decode_ansi (take name_len (drop 4 b));
    flags = word32 b 264;
    time0 = word32 b 268;
    time1 = word32 b 272;
    frames = word32 b 276;
    frame_time_us = word32 b 280;
    stat_framerate_avg = word32 b 308;
  }

  -- The entry at slot `i` of an array at `offset`.
  abbrev pub slot : List ℕ → ℕ → ℕ → ℕ → Entry
  slot buf offset size i = entry_of (take entry_min_size (drop (offset + i * size) buf))

  -- The occupied slots whose first 312 bytes lie in the buffer, of the `n` slots from `i` on.
  unfoldable pub occupied : ℕ → ℕ → List ℕ → ℕ → ℕ → List Entry
  occupied zero i buf offset size = []
  occupied (suc n) i buf offset size =
      let rest = occupied n (i + 1) buf offset size in
      if leb (offset + i * size + entry_min_size) (length buf)
        && not ((slot buf offset size i).process_id == 0)
      then slot buf offset size i ∷ rest
      else rest

  parse_entry_lem : (b : List ℕ) → length b ≡ 312 → parse_entry decode_ansi b ≡ ok (entry_of b)
  unfolding parse_entry
  parse_entry_lem b h = simp (
    uint32_ok b 0 (omega arith),
    uint32_ok b 264 (omega arith),
    uint32_ok b 268 (omega arith),
    uint32_ok b 272 (omega arith),
    uint32_ok b 276 (omega arith),
    uint32_ok b 280 (omega arith),
    uint32_ok b 308 (omega arith),
    slice_ok b 4 264 (omega arith) (omega arith),
  )

  -- Behind a slot that does not fit, no slot fits.
  occupied_past :
      (n i : ℕ) (buf : List ℕ) (offset size : ℕ)
      → length buf < offset + i * size + entry_min_size
      → occupied n i buf offset size ≡ []
  unfolding occupied
  occupied_past zero i buf offset size h = refl
  occupied_past (suc n) i buf offset size h =
      ground (arith, occupied_past n (i + 1) buf offset size (omega arith))

  length-slot :
      (buf : List ℕ) (start : ℕ)
      → start + entry_min_size ≤ length buf
      → length (take 312 (drop start buf)) ≡ 312
  length-slot buf start h = omega (arith, length-take 312 (drop start buf), length-drop start buf)

  -- One round where the slot fits: its bytes are read, and its entry is kept if it is occupied.
  round_ok :
      {A : Type 0} (buf : List ℕ) (start : ℕ) (f : Entry → Outcome Error A)
      → start + entry_min_size ≤ length buf
      → (slice buf start (start + entry_min_size) >>= λ b. parse_entry decode_ansi b >>= f)
        ≡ f (entry_of (take entry_min_size (drop start buf)))
  round_ok buf start f h =
      let e : (start + entry_min_size) - start ≡ 312 = omega arith in
      rw (slice_ok buf start (start + entry_min_size) (omega arith) h, e)
        (rw (parse_entry_lem (take 312 (drop start buf)) (length-slot buf start h)))

  kept : ℕ → Entry → List Entry → List Entry → List Entry
  kept pid e acc rest = (if pid == 0 then acc else acc ++ e ∷ []) ++ rest

  kept_lem :
      (fits : Bool) (pid : ℕ) (e : Entry) (acc rest : List Entry)
      → fits ≡ true
      → kept pid e acc rest ≡ acc ++ (if fits && not (pid == 0) then e ∷ rest else rest)
  unfolding kept
  kept_lem fits pid e acc rest h = elim (Bool-cases (pid == 0)) [
    | inl free ↦ rw (h, free)
    | inr used ↦ rw (h, used, append_assoc)
  ]

  -- Neither the product nor the sum of a slot's offset wraps.
  product_bound : (i size : ℕ) → size < 4294967296 → i ≤ max_entries → i * size ≤ 35184372088832
  product_bound i size hs hi = grind arith

  start_exact :
      (offset i size : ℕ)
      → offset < 4294967296
      → size < 4294967296
      → i ≤ max_entries
      → (offset + i * size % 2 ^ 64) % 2 ^ 64 ≡ offset + i * size
  start_exact offset i size ho hs hi = omega (arith, product_bound i size hs hi)

  stop_exact :
      (offset i size : ℕ)
      → offset < 4294967296
      → size < 4294967296
      → i ≤ max_entries
      → (offset + i * size + entry_min_size) % 2 ^ 64 ≡ offset + i * size + entry_min_size
  stop_exact offset i size ho hs hi = omega (arith, product_bound i size hs hi)

  parse_entries_lem :
      (n i : ℕ) (buf : List ℕ) (offset size : ℕ) (acc : List Entry)
      → offset < 4294967296
      → size < 4294967296
      → n + i ≤ max_entries
      → parse_entries decode_ansi n i buf offset size acc ≡ ok (acc ++ occupied n i buf offset size)
  unfolding parse_entries occupied kept
  parse_entries_lem zero i buf offset size acc ho hs hi = rw append-nil
  parse_entries_lem (suc n) i buf offset size acc ho hs hi =
      rw
        (
          start_exact offset i size ho hs (omega arith),
          stop_exact offset i size ho hs (omega arith),
        )
        (elim (Bool-cases (ltb (length buf) (offset + i * size + entry_min_size))) [
          | inl past ↦
              rw past
                (rw (occupied_past (suc n) i buf offset size (ltb→lt _ _ past)) (rw append-nil))
          | inr fits ↦
              let room : offset + i * size + entry_min_size ≤ length buf = ltb_false→le _ _ fits in
              rw fits (
                round_ok buf (offset + i * size) _ room
                ∙ parse_entries_lem n (i + 1) buf offset size _ ho hs (omega arith)
                ∙ ap {B = Outcome Error (List Entry)} ok (
                    kept_lem _ (slot buf offset size i).process_id (slot buf offset size i) acc
                      (occupied n (i + 1) buf offset size) (le→leb _ _ room)))
        ])

  -- On bytes with a good header, `parse` returns the header's version and, if the header describes
  -- between 1 and 8192 entries of at least 312 bytes, the occupied slots whose first 312 bytes lie
  -- in the buffer, in their order, also a last one whose further bytes are cut off; otherwise it
  -- returns no entries.
  pub parse-occupied :
      (buf : List ℕ)
      → IsBytes buf
      → IsHeader buf
      → parse decode_ansi buf
        ≡ ok (record {
          version = word32 buf 4;
          entries =
              if ltb (word32 buf 8) entry_min_size
                || word32 buf 16 == 0
                || ltb max_entries (word32 buf 16)
              then []
              else occupied (word32 buf 16) 0 buf (word32 buf 12) (word32 buf 8);
        })
  unfolding parse
  parse-occupied buf bytes good = rw (IsHeader-check_header buf good) (
      rw
        (
          uint32_ok buf 4 (omega (arith, good.long)),
          uint32_ok buf 8 (omega (arith, good.long)),
          uint32_ok buf 12 (omega (arith, good.long)),
          uint32_ok buf 16 (omega (arith, good.long)),
        )
        (elim (Bool-cases (
          ltb (word32 buf 8) entry_min_size
          || word32 buf 16 == 0
          || ltb max_entries (word32 buf 16))) [
            | inl no_array ↦ rw no_array
            | inr array ↦ rw array (
                rw (
                  parse_entries_lem (word32 buf 16) 0 buf (word32 buf 12) (word32 buf 8) []
                    (word32-lt buf 12 bytes) (word32-lt buf 8 bytes) (ground arith)))
          ]))

  parse-bad : (buf : List ℕ) (e : Error) → check_header buf ≡ err e → parse decode_ansi buf ≡ err e
  unfolding parse
  parse-bad buf e h = rw h

  -- `parse` never panics on bytes, and it fails exactly with the error of the header check.
  pub parse-check_header :
      (buf : List ℕ)
      → IsBytes buf
      → IsSafe (parse decode_ansi buf)
        × ((e : Error) → (parse decode_ansi buf ≡ err e) ↔ (check_header buf ≡ err e))
  parse-check_header buf bytes = elim (Outcome-cases (check_header buf)) [
    | inl (u, good) ↦
        let p = parse-occupied buf bytes (check_header-IsHeader buf good) in
        rw (p, good) (tt, λ e. (λ h. cc, λ h. cc))
    | inr (inl (e, bad)) ↦ rw (parse-bad buf e bad, bad) (tt, λ e'. (λ h. cc, λ h. cc))
    | inr (inr bad) ↦ absurd (rw bad at (check_header-IsSafe buf))
  ]
