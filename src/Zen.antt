-- ===== src/Zen.antt =====
-- internal/hardware/pawnio/amd.go: the decoding of AMD's thermal and energy registers. A temperature is
-- counted in thousandths of a degree: every float64 of the decoding is an eighth of a degree, which is exact.
pub mod Decoding
mod Tests
use rig_exporter.Base.{
  [], ℕ, zero, suc, ◌+◌, ◌-◌, ◌*◌, ◌/◌, ◌%◌, ◌^◌, Bool, ◌||◌, Option, none, some, List, ◌∷◌, ltb,
  leb, ◌==◌, if◌then◌else◌, length, take,
}
use rig_exporter.Base.Text.{codes}
use rig_exporter.Base.Unicode.{list_eq}

-- The library's integers, over the native numbers: `negsuc n` is -(n + 1).
pub data ℤ : Type 0 where
  pos : ℕ → ℤ
  negsuc : ℕ → ℤ

-- a - b
infixl 6 ◌⊖◌
unfoldable pub ◌⊖◌ : ℕ → ℕ → ℤ
a ⊖ b = if leb b a then pos (a - b) else negsuc (b - a - 1)

-- Not below -10 degrees and not above 125.
unfoldable pub is_plausible : ℤ → Bool
is_plausible (pos n) = leb n 125000
is_plausible (negsuc n) = leb (n + 1) 10000

abbrev pub range_offset : ℕ
range_offset = 49000

abbrev pub milli_per_step : ℕ
milli_per_step = 125

abbrev pub ccd_offset_milli : ℕ
ccd_offset_milli = 305000

-- strings.Contains
unfoldable pub contains : List ℕ → List ℕ → Bool
contains [] part = list_eq [] part
contains (c ∷ cs) part = list_eq (take (length part) (c ∷ cs)) part || contains cs part

abbrev pub tctl_offsets : List (List ℕ × ℕ)
tctl_offsets =
    (codes "1600X", 20)
    ∷ (codes "1700X", 20)
    ∷ (codes "1800X", 20)
    ∷ (codes "Threadripper 19", 27)
    ∷ (codes "Threadripper 29", 27)
    ∷ (codes "2700X", 10)
    ∷ []

unfoldable pub first_offset : List (List ℕ × ℕ) → List ℕ → ℕ
unfolding contains
first_offset [] model = 0
first_offset ((part, offset) ∷ rest) model =
    if contains model part then offset else first_offset rest model

-- In whole degrees.
unfoldable pub tctl_offset : List ℕ → ℕ
unfolding first_offset
tctl_offset = first_offset tctl_offsets

-- Bit 19, or bits 16 and 17 together.
unfoldable pub is_shifted : ℕ → Bool
is_shifted raw = raw / 524288 % 2 == 1 || raw / 65536 % 4 == 3

unfoldable pub plausible : ℤ → Option ℤ
unfolding is_plausible
plausible celsius = if is_plausible celsius then some celsius else none

unfoldable pub decode_zen_temperature : ℕ → List ℕ → Option ℤ
unfolding is_shifted plausible tctl_offset ◌⊖◌
decode_zen_temperature raw model =
    if raw == 0
    then none
    else plausible (
        raw / 2097152 * milli_per_step
        ⊖ ((if is_shifted raw then range_offset else 0) + 1000 * tctl_offset model))

-- uint32 arithmetic wraps
unfoldable pub ccd_temperature_register : ℕ → ℕ → ℕ
ccd_temperature_register model ccd =
    let base = if model == 97 || model == 68 then 367368 else 366932 in (base + ccd * 4) % 2 ^ 32

unfoldable pub decode_ccd_temperature : ℕ → Option ℤ
unfolding plausible ◌⊖◌
decode_ccd_temperature raw =
    let value = raw % 4096 in
    if value == 0 then none else plausible (value * milli_per_step ⊖ ccd_offset_milli)

-- The counts of the energy counter that make a joule: the unit is one over this.
unfoldable pub halvings : ℕ → ℕ
halvings zero = 1
halvings (suc n) = halvings n * 2

unfoldable pub decode_energy_unit : ℕ → Option ℕ
unfolding halvings
decode_energy_unit raw =
    let exponent = raw / 256 % 32 in if exponent == 0 then none else some (halvings exponent)

-- The counts between two readings; the subtractions are of uint64 and wrap.
unfoldable pub energy_delta : ℕ → ℕ → ℕ
energy_delta previous current =
    if ltb current previous
    then ((current + 2 ^ 32) % 2 ^ 64 + 2 ^ 64 - previous) % 2 ^ 64
    else (current + 2 ^ 64 - previous) % 2 ^ 64
