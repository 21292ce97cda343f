-- ===== src/Smbios/Walk.antt =====
-- internal/hardware/ram/smbios.go: the walk over the table.
use rig_exporter.Base.{
  ℕ, zero, suc, ◌+◌, ◌-◌, ◌≤◌, ◌<◌, inl, inr, ◌&&◌, ◌||◌, List, [], ◌∷◌, arith, ltb, leb, ◌==◌,
  if◌then◌else◌, ltb→lt, lt→ltb, leb→le, Bool-cases, length, take, drop, Outcome, ok, err, panic,
  ◌>>=◌, Ensures, Ensures-bind,
}
use rig_exporter.Base.Bytes.{byte, slice_ok}
use rig_exporter.Smbios.{
  Text, Error, Structure, read_from, read_strings, structures_from, structures,
}

-- Where a string table ends: not before it starts, and inside the table.
abbrev pub EndsWithin : List ℕ → ℕ → List Text × ℕ → Type 0
EndsWithin table i r = (i ≤ r.1) × (r.1 ≤ length table)

-- One more string in front of the rest of the table.
more-Ensures :
    (m : Outcome Error (List Text × ℕ)) (found : Text) (table : List ℕ) (i j : ℕ)
    → i ≤ j
    → Ensures (EndsWithin table j) m
    → Ensures (EndsWithin table i) (m >>= λ (rest, next). ok (found ∷ rest, next))
more-Ensures m found table i j le h =
    Ensures-bind (EndsWithin table j) (EndsWithin table i) m
      (λ (rest, next). ok (found ∷ rest, next)) h (λ r w. (omega (arith, w.0), w.1))

later-Ensures :
    (m : Outcome Error (List Text × ℕ)) (table : List ℕ) (i j : ℕ)
    → i ≤ j
    → Ensures (EndsWithin table j) m
    → Ensures (EndsWithin table i) m
later-Ensures (ok r) table i j le w = (omega (arith, w.0), w.1)
later-Ensures (err e) table i j le w = tt
later-Ensures panic table i j le w = w

read_from-Ensures :
    (fuel : ℕ) (table : List ℕ) (start i : ℕ)
    → start ≤ i
    → i ≤ length table
    → length table < i + fuel
    → Ensures (EndsWithin table i) (read_from fuel table start i)
unfolding read_from
read_from-Ensures zero table start i h k f = ground arith
read_from-Ensures (suc fuel) table start i h k f = elim (Bool-cases (ltb i (length table))) [
  | inr e ↦ rw e (omega arith, omega arith)
  | inl e ↦
      let lt = ltb→lt i (length table) e in
      rw e (elim (Bool-cases (byte table i == 0)) [
        | inr e' ↦ rw e' (
            later-Ensures (read_from fuel table start (i + 1)) table i (i + 1) (omega arith) (
              read_from-Ensures fuel table start (i + 1) (omega arith) (omega arith) (omega arith)))
        | inl e' ↦
            let rest =
              more-Ensures (read_from fuel table (i + 1) (i + 1))
                (take (i - start) (drop start table)) table i (i + 1) (omega arith)
                (read_from-Ensures fuel table (i + 1) (i + 1) (omega arith) (omega arith)
                  (omega arith)) in
            rw (e', slice_ok {E = Error} table start i h k)
              (elim (Bool-cases (ltb (i + 1) (length table))) [
                | inr e'' ↦ rw e'' rest
                | inl e'' ↦ rw e'' (elim (Bool-cases (byte table (i + 1) == 0)) [
                  | inl z ↦ rw z (omega arith, omega (arith, ltb→lt (i + 1) (length table) e''))
                  | inr z ↦ rw z rest
                ])
              ])
      ])
]

read_strings-Ensures :
    (table : List ℕ) (offset : ℕ)
    → offset ≤ length table
    → Ensures (EndsWithin table offset) (read_strings table offset)
unfolding read_strings
read_strings-Ensures table offset h =
    let rest =
      read_from-Ensures (length table + 1) table offset offset (omega arith) h (omega arith) in
    elim (Bool-cases (ltb (offset + 1) (length table))) [
      | inr e ↦ rw e rest
      | inl e ↦
          let lt = ltb→lt (offset + 1) (length table) e in
          rw (e, lt→ltb offset (length table) (omega arith))
            (elim (Bool-cases (byte table offset == 0 && byte table (offset + 1) == 0)) [
              | inl z ↦ rw z (omega arith, omega arith)
              | inr z ↦ rw z rest
            ])
    ]

-- The rest of the walk behind one record.
record-Ensures :
    (s : Structure) (m : Outcome Error (List Structure))
    → Ensures (λ ss. Unit) m
    → Ensures (λ ss. Unit) (m >>= λ rest. ok (s ∷ rest))
record-Ensures s m h =
    Ensures-bind (λ ss. Unit) (λ ss. Unit) m (λ rest. ok (s ∷ rest)) h (λ ss w. tt)

structures_from-Ensures :
    (fuel : ℕ) (table : List ℕ) (offset : ℕ)
    → offset ≤ length table
    → length table < offset + fuel
    → Ensures (λ ss. Unit) (structures_from fuel table offset)
unfolding structures_from
structures_from-Ensures zero table offset k f = ground arith
structures_from-Ensures (suc fuel) table offset k f =
    elim (Bool-cases (leb (offset + 4) (length table))) [
      | inr e ↦ rw e tt
      | inl e ↦
          let le = leb→le (offset + 4) (length table) e in
          let len = byte table (offset + 1) in
          rw
            (
              e,
              lt→ltb offset (length table) (omega arith),
              lt→ltb (offset + 1) (length table) (omega arith),
            )
            (elim (Bool-cases (ltb len 4 || ltb (length table) (offset + len))) [
              | inl e' ↦ rw e' tt
              | inr e' ↦ rw e' (elim (Bool-cases (byte table offset == 127)) [
                | inl z ↦ rw z tt
                | inr z ↦
                    let fits : offset + len ≤ length table = ground arith in
                    let s : List Text → Structure = λ strings. record {
                      kind = byte table offset;
                      formatted = take (offset + len - offset) (drop offset table);
                      strings = strings;
                    } in
                    rw (z, slice_ok {E = Error} table offset (offset + len) (omega arith) fits)
                      (Ensures-bind (EndsWithin table (offset + len)) (λ ss. Unit)
                        (read_strings table (offset + len))
                        (λ (strings, next).
                          if leb next offset
                          then ok (s strings ∷ [])
                          else (structures_from fuel table next >>= λ rest. ok (s strings ∷ rest)))
                        (read_strings-Ensures table (offset + len) fits)
                        (λ r w. elim (Bool-cases (leb r.1 offset)) [
                          | inl q ↦ rw q tt
                          | inr q ↦ rw q (
                              record-Ensures (s r.0) (structures_from fuel table r.1)
                                (structures_from-Ensures fuel table r.1 w.1 (ground arith)))
                        ]))
              ])
            ])
    ]

-- The walk over any table ends, and reads nothing out of bounds.
pub structures-Ensures : (table : List ℕ) → Ensures (λ ss. Unit) (structures table)
unfolding structures
structures-Ensures table =
    structures_from-Ensures (length table + 1) table 0 (omega arith) (omega arith)
