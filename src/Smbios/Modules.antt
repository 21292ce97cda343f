-- ===== src/Smbios/Modules.antt =====
-- internal/hardware/ram/smbios.go: which modules are reported.
use rig_exporter.Base.{
  ℕ, ◌/◌, ◌%◌, ◌≤◌, ◌<◌, ◌≡◌, ◌⊎◌, inl, inr, refl, sym, ◌∙◌, Option, none, some, List, [], arith,
  ltb, leb, ◌==◌, if◌then◌else◌, ltb→lt, ltb_false→le, ==→eq, Bool-cases, length, ok, Ensures,
  Ensures-bind,
}
use rig_exporter.Base.Bytes.{byte, at, word16, word32, at_ok, uint16_ok, uint16, uint32}
use rig_exporter.Base.Unicode.{Unicode}
use rig_exporter.Smbios.{
  Text, Error, Structure, Module, module_size, text, configured_field, field_text, meaningful,
  describe, parse_module,
}

-- A size of 0 also stands for a slot that is left out.
abbrev pub size_meant : List ℕ → ℕ
size_meant formatted =
    let size = word16 formatted 12 in
    if size == 65535
    then 0
    else if size == 32767
    then (if ltb (length formatted) 32 then 0 else word32 formatted 28)
    else if ltb 0 (size / 32768 % 2)
    then size % 32768 / 1024
    else size

abbrev size_or_zero : Option ℕ → ℕ
size_or_zero none = 0
size_or_zero (some n) = n

module_size-Ensures :
    (formatted : List ℕ)
    → 23 ≤ length formatted
    → Ensures (λ o. size_or_zero o ≡ size_meant formatted) (module_size formatted)
unfolding module_size
module_size-Ensures formatted h =
    rw (uint16_ok {E = Error} formatted 12 (omega arith)) (unfold uint32 in ground arith)

field_text_ok :
    (clean : Text → Text) (s : Structure) (index : ℕ)
    → (t : Text) × (field_text clean s index ≡ ok t)
unfolding field_text at
field_text_ok clean s index = elim (Bool-cases (ltb index (length s.formatted))) [
  | inl e ↦ (clean (text s (byte s.formatted index)), rw e refl)
  | inr e ↦ ([], rw e refl)
]

configured_field_ok :
    (formatted : List ℕ)
    → configured_field formatted ≡ ok (if leb 34 (length formatted) then word16 formatted 32 else 0)
unfolding configured_field uint16
configured_field_ok formatted = ground arith

abbrev pub configured_meant : List ℕ → ℕ
configured_meant formatted =
    if ltb 0 (if leb 34 (length formatted) then word16 formatted 32 else 0)
    then word16 formatted 32
    else word16 formatted 21

-- What a memory device record says of its slot.
pub data Reports (s : Structure) : Option Module → Type 0 where
  nothing : (length s.formatted < 23) ⊎ (size_meant s.formatted ≡ 0) → Reports s none
  populated :
      {m : Module}
      → 23 ≤ length s.formatted
      → 0 < m.size_mb
      → m.size_mb ≡ size_meant s.formatted
      → m.rated_speed ≡ word16 s.formatted 21
      → m.configured_speed ≡ configured_meant s.formatted
      → Reports s (some m)

module _ (unicode : Unicode) where
  describe-Ensures :
      (s : Structure) (size : ℕ)
      → 23 ≤ length s.formatted
      → 0 < size
      → size ≡ size_meant s.formatted
      → Ensures (Reports s) (describe unicode s size)
  unfolding describe
  describe-Ensures s size h pos e =
      rw
        (
          at_ok {E = Error} s.formatted 16 (omega arith),
          at_ok {E = Error} s.formatted 17 (omega arith),
          at_ok {E = Error} s.formatted 18 (omega arith),
          uint16_ok {E = Error} s.formatted 21 (omega arith),
        )
        (let (maker, p) = field_text_ok (meaningful unicode) s 23 in
          let (part, q) = field_text_ok (meaningful unicode) s 26 in
          rw (p, q, configured_field_ok s.formatted) (populated h pos e refl (ground arith)))

  chosen-Ensures :
      (s : Structure)
      → 23 ≤ length s.formatted
      → (o : Option ℕ) → size_or_zero o ≡ size_meant s.formatted
      → Ensures
          (Reports s)
          (elim o [ none ↦ ok none | some n ↦ if n == 0 then ok none else describe unicode s n ])
  chosen-Ensures s h none e = nothing (inr (sym e))
  chosen-Ensures s h (some n) e = elim (Bool-cases (n == 0)) [
    | inl z ↦ rw z (nothing (inr (sym e ∙ ==→eq n 0 z)))
    | inr z ↦ rw z (describe-Ensures s n h (ground arith) e)
  ]

  -- Of a memory device record the parser reports a module exactly where the record is long enough and its size
  -- field, by its four meanings, stands for more than nothing; the module then has that size, its rated
  -- speed and the configured speed, or the rated one where the record is too short for it or says 0.
  pub parse_module-Reports : (s : Structure) → Ensures (Reports s) (parse_module unicode s)
  unfolding parse_module
  parse_module-Reports s = elim (Bool-cases (ltb (length s.formatted) 23)) [
    | inl e ↦ rw e (nothing (inl (ltb→lt (length s.formatted) 23 e)))
    | inr e ↦
        let le = ltb_false→le (length s.formatted) 23 e in
        rw e (
          Ensures-bind (λ o. size_or_zero o ≡ size_meant s.formatted) (Reports s)
            (module_size s.formatted)
            (λ size. elim size [
              | none ↦ ok none
              | some n ↦ if n == 0 then ok none else describe unicode s n
            ])
            (module_size-Ensures s.formatted le) (chosen-Ensures s le))
  ]
