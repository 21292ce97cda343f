-- ===== src/Kraken.antt =====
-- internal/hardware/cooling/kraken.go: the decoding of a Kraken's status report. The liquid's
-- temperature is counted in tenths of a degree.
pub mod Decoding
mod Tests
use rig_exporter.Base.{
  [], ℕ, ◌+◌, ◌*◌, Bool, true, false, not, ◌||◌, Option, none, some, List, ◌∷◌, ltb, ◌==◌,
  if◌then◌else◌, length, Outcome, ok, ◌>>=◌, ◌>>◌,
}
use rig_exporter.Base.Bytes.{at}
use rig_exporter.Base.Text.{codes}

abbrev pub Text : Type 0
Text = List ℕ

-- A figure that the report does not supply is none.
pub record Reading : Type 0 where
  pub device : Text
  pub instance_name : Text
  pub liquid_tenths : ℕ
  pub has_liquid : Bool
  pub pump_rpm : ℕ
  pub has_pump_rpm : Bool
  pub pump_duty : ℕ
  pub has_pump_duty : Bool
  pub fan_rpm : ℕ
  pub has_fan_rpm : Bool
  pub fan_duty : ℕ
  pub has_fan_duty : Bool

abbrev pub kraken_v3_products : List (ℕ × Text)
kraken_v3_products =
    (8199, codes "NZXT Kraken X3")
    ∷ (8212, codes "NZXT Kraken X3")
    ∷ (12296, codes "NZXT Kraken Z3")
    ∷ (12300, codes "NZXT Kraken 2023 Elite")
    ∷ (12302, codes "NZXT Kraken 2023")
    ∷ (12306, codes "NZXT Kraken Elite V2")
    ∷ []

abbrev pub kraken_v3_status_length : ℕ
kraken_v3_status_length = 26

unfoldable pub product_name : List (ℕ × Text) → ℕ → Option Text
product_name [] product = none
product_name ((key, name) ∷ rest) product =
    if key == product then some name else product_name rest product

-- The corrections behind the literal: what has not been measured, and duties that are no percentage.
unfoldable pub drop_implausible : Reading → Reading
drop_implausible r = record r {
  has_liquid = if r.liquid_tenths == 0 then false else r.has_liquid;
  has_pump_duty = if ltb 100 r.pump_duty then false else r.has_pump_duty;
  has_fan_duty = if ltb 100 r.fan_duty then false else r.has_fan_duty;
}

unfoldable pub read_status : Text → List ℕ → Outcome ⊥ Reading
unfolding at drop_implausible
read_status name report = do
  whole ← at report 15
  tenths ← at report 16
  pump_high ← at report 18
  pump_low ← at report 17
  pump_duty ← at report 19
  fan_high ← at report 24
  fan_low ← at report 23
  fan_duty ← at report 25
  ok (
      drop_implausible (record {
        device = name;
        instance_name = name;
        liquid_tenths = 10 * whole + tenths;
        has_liquid = true;
        pump_rpm = 256 * pump_high + pump_low;
        has_pump_rpm = true;
        pump_duty = pump_duty;
        has_pump_duty = true;
        fan_rpm = 256 * fan_high + fan_low;
        has_fan_rpm = true;
        fan_duty = fan_duty;
        has_fan_duty = true;
      }))

unfoldable pub decode_status : Text → List ℕ → Outcome ⊥ (Option Reading)
unfolding at read_status
decode_status name report =
    if ltb (length report) kraken_v3_status_length
    then ok none
    else (at report 0 >>= λ first. at report 1 >>= λ second.
        if not (first == 117) || not (second == 1)
        then ok none
        else (read_status name report >>= λ r. ok (some r)))

-- A product that is not known has no name.
unfoldable pub decode_known : Option Text → List ℕ → Outcome ⊥ (Option Reading)
unfolding decode_status
decode_known none report = ok none
decode_known (some name) report = decode_status name report

unfoldable pub decode_kraken_v3 : ℕ → List ℕ → Outcome ⊥ (Option Reading)
unfolding product_name decode_known
decode_kraken_v3 product report = decode_known (product_name kraken_v3_products product) report
