-- ===== src/Zen/Decoding.antt =====
-- internal/hardware/pawnio/amd.go: what the registers' encodings decode to.
use rig_exporter.Base.{
  ℕ, ◌+◌, ◌*◌, ◌/◌, ◌%◌, ◌^◌, ◌≤◌, ◌<◌, ◌≡◌, inl, inr, Bool, true, false, Option, none, some, List,
  arith, leb, ◌==◌, if◌then◌else◌, leb→le, Bool-cases,
}
use rig_exporter.Zen.{
  ℤ, pos, negsuc, ◌⊖◌, is_plausible, plausible, is_shifted, tctl_offset, decode_zen_temperature,
  decode_ccd_temperature, energy_delta,
}

-- The register of a part that reports `eighths` of a degree, raised by its model's offset, on one of
-- the two scales; `rest` is what the bits below the scale's flags hold.
abbrev pub zen_register : ℕ → Bool → ℕ → ℕ → ℕ
zen_register eighths shifted offset rest =
    (eighths + 8 * offset + (if shifted then 392 else 0)) * 2097152
    + (if shifted then 524288 else 0)
    + rest

-- Of a register that holds a temperature of 1/8 to 125 degrees, on either scale and with the
-- offset of any model added, the decoding gives that temperature back.
pub decode-zen_register :
    (eighths : ℕ) (shifted : Bool) (rest : ℕ) (model : List ℕ)
    → 0 < eighths
    → eighths ≤ 1000
    → rest < 65536
    → decode_zen_temperature (zen_register eighths shifted (tctl_offset model) rest) model
      ≡ some (pos (125 * eighths))
unfolding decode_zen_temperature is_shifted plausible is_plausible ◌⊖◌
decode-zen_register eighths true rest model h k l = ground arith
decode-zen_register eighths false rest model h k l = ground arith

-- Of a chiplet's register, whatever its other bits hold, that is populated with a temperature of 0 to
-- 125 degrees, the decoding gives that temperature.
pub decode-ccd_register :
    (eighths other : ℕ)
    → eighths ≤ 1000
    → decode_ccd_temperature (other * 4096 + eighths + 2440) ≡ some (pos (125 * eighths))
unfolding decode_ccd_temperature plausible is_plausible ◌⊖◌
decode-ccd_register eighths other h = ground arith

abbrev pub IsBetween : ℤ → Type 0
IsBetween (pos n) = n ≤ 125000
IsBetween (negsuc n) = n < 10000

abbrev pub IsWithin : Option ℤ → Type 0
IsWithin none = Unit
IsWithin (some t) = IsBetween t

plausible-IsWithin : (c : ℤ) → IsWithin (plausible c)
unfolding plausible is_plausible
plausible-IsWithin (pos n) = elim (Bool-cases (leb n 125000)) [
  | inl e ↦ rw e (leb→le n 125000 e)
  | inr e ↦ rw e tt
]
plausible-IsWithin (negsuc n) = elim (Bool-cases (leb (n + 1) 10000)) [
  | inl e ↦ rw e (omega (arith, leb→le (n + 1) 10000 e))
  | inr e ↦ rw e tt
]

-- Whatever a register holds, a temperature that is reported is between -10 and 125 degrees, of the
-- package and of a chiplet.
pub decoded-IsWithin :
    (raw : ℕ) (model : List ℕ)
    → IsWithin (decode_zen_temperature raw model) × IsWithin (decode_ccd_temperature raw)
unfolding decode_zen_temperature decode_ccd_temperature
decoded-IsWithin raw model = (
  elim (Bool-cases (raw == 0)) [
    | inl e ↦ rw e tt
    | inr e ↦ rw e (
        plausible-IsWithin (
          raw / 2097152 * 125 ⊖ ((if is_shifted raw then 49000 else 0) + 1000 * tctl_offset model)))
  ],
  elim (Bool-cases (raw % 4096 == 0)) [
    | inl e ↦ rw e tt
    | inr e ↦ rw e (plausible-IsWithin (raw % 4096 * 125 ⊖ 305000))
  ],
)

-- Between two readings of a counter that has counted `passed` in between, less than once around, the
-- delta is `passed`, also where the counter has wrapped.
pub energy_delta_exact :
    (counter passed : ℕ)
    → passed < 2 ^ 32
    → energy_delta (counter % 2 ^ 32) ((counter + passed) % 2 ^ 32) ≡ passed
unfolding energy_delta
energy_delta_exact counter passed h = ground arith
