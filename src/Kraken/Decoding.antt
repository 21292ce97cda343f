-- ===== src/Kraken/Decoding.antt =====
-- internal/hardware/cooling/kraken.go: which reports are refused, and what the others give.
use rig_exporter.Base.{
  ℕ, ◌+◌, ◌*◌, ◌≤◌, ◌<◌, ◌≡◌, ◌↔◌, ◌⊎◌, inl, inr, refl, true, false, not, ◌||◌, Option, none, some,
  List, arith, ltb, ◌==◌, if◌then◌else◌, ltb_false→le, Bool-cases, length, ok, Ensures,
}
use rig_exporter.Base.Bytes.{byte, at_ok}
use rig_exporter.Kraken.{
  Text, Reading, kraken_v3_products, product_name, drop_implausible, read_status, decode_status,
  decode_known, decode_kraken_v3,
}

abbrev pub IsStatus : List ℕ → Type 0
IsStatus report = (26 ≤ length report) × (byte report 0 ≡ 117) × (byte report 1 ≡ 1)

-- The figures at the places of the layout, each marked as supplied exactly where it can be meant.
pub record IsRead (name : Text) (report : List ℕ) (r : Reading) : Type 0 where
  pub named : (r.device ≡ name) × (r.instance_name ≡ name)
  pub liquid :
      (r.liquid_tenths ≡ 10 * byte report 15 + byte report 16)
      × ((r.has_liquid ≡ true) ↔ (0 < r.liquid_tenths))
  pub pump : (r.pump_rpm ≡ byte report 17 + 256 * byte report 18) × (r.has_pump_rpm ≡ true)
  pub pump_duty : (r.pump_duty ≡ byte report 19) × ((r.has_pump_duty ≡ true) ↔ (r.pump_duty ≤ 100))
  pub fan : (r.fan_rpm ≡ byte report 23 + 256 * byte report 24) × (r.has_fan_rpm ≡ true)
  pub fan_duty : (r.fan_duty ≡ byte report 25) × ((r.has_fan_duty ≡ true) ↔ (r.fan_duty ≤ 100))

pub data Decodes (product : ℕ) (report : List ℕ) : Option Reading → Type 0 where
  refused :
      (product_name kraken_v3_products product ≡ none) ⊎ (¬ IsStatus report)
      → Decodes product report none
  decoded :
      {name : Text} {r : Reading}
      → product_name kraken_v3_products product ≡ some name
      → IsStatus report
      → IsRead name report r
      → Decodes product report (some r)

abbrev figures : Text → List ℕ → Reading
figures name report = record {
  device = name;
  instance_name = name;
  liquid_tenths = 10 * byte report 15 + byte report 16;
  has_liquid = true;
  pump_rpm = 256 * byte report 18 + byte report 17;
  has_pump_rpm = true;
  pump_duty = byte report 19;
  has_pump_duty = true;
  fan_rpm = 256 * byte report 24 + byte report 23;
  has_fan_rpm = true;
  fan_duty = byte report 25;
  has_fan_duty = true;
}

read_status_ok :
    (name : Text) (report : List ℕ)
    → 26 ≤ length report
    → read_status name report ≡ ok (drop_implausible (figures name report))
unfolding read_status
read_status_ok name report h =
    rw
      (
        at_ok {E = ⊥} report 15 (omega arith),
        at_ok {E = ⊥} report 16 (omega arith),
        at_ok {E = ⊥} report 18 (omega arith),
        at_ok {E = ⊥} report 17 (omega arith),
        at_ok {E = ⊥} report 19 (omega arith),
        at_ok {E = ⊥} report 24 (omega arith),
        at_ok {E = ⊥} report 23 (omega arith),
        at_ok {E = ⊥} report 25 (omega arith),
      )
      refl

supplied : (n : ℕ) → ((if n == 0 then false else true) ≡ true) ↔ (0 < n)
supplied n = ground arith

percentage : (n : ℕ) → ((if ltb 100 n then false else true) ≡ true) ↔ (n ≤ 100)
percentage n = ground arith

figures-IsRead :
    (name : Text) (report : List ℕ) → IsRead name report (drop_implausible (figures name report))
unfolding drop_implausible
figures-IsRead name report = record {
  named = (refl, refl);
  liquid = (refl, supplied (10 * byte report 15 + byte report 16));
  pump = (omega arith, refl);
  pump_duty = (refl, percentage (byte report 19));
  fan = (omega arith, refl);
  fan_duty = (refl, percentage (byte report 25));
}

decode_status-Decodes :
    (product : ℕ) (name : Text) (report : List ℕ)
    → product_name kraken_v3_products product ≡ some name
    → Ensures (Decodes product report) (decode_status name report)
unfolding decode_status
decode_status-Decodes product name report known = elim (Bool-cases (ltb (length report) 26)) [
  | inl e ↦ rw e (refused (inr (λ s. ground arith)))
  | inr e ↦
      let long = ltb_false→le (length report) 26 e in
      rw (e, at_ok {E = ⊥} report 0 (omega arith), at_ok {E = ⊥} report 1 (omega arith))
        (elim (Bool-cases (not (byte report 0 == 117) || not (byte report 1 == 1))) [
          | inl e' ↦ rw e' (refused (inr (λ s. ground arith)))
          | inr e' ↦
              rw (e', read_status_ok name report long)
                (decoded known (long, ground arith, ground arith) (figures-IsRead name report))
        ])
]

decode_known-Decodes :
    (product : ℕ) (name : Option Text) (report : List ℕ)
    → product_name kraken_v3_products product ≡ name
    → Ensures (Decodes product report) (decode_known name report)
unfolding decode_known
decode_known-Decodes product none report e = refused (inl e)
decode_known-Decodes product (some name) report e = decode_status-Decodes product name report e

-- Whatever a controller sends, the decoding reads nothing out of bounds; it refuses exactly what is of
-- no known product, too short or not marked as a status report, and gives otherwise the figures at the
-- places of the layout, the temperature marked as supplied exactly where it is not 0 and a duty exactly
-- where it is a percentage.
pub decode_kraken_v3-Decodes :
    (product : ℕ) (report : List ℕ)
    → Ensures (Decodes product report) (decode_kraken_v3 product report)
unfolding decode_kraken_v3
decode_kraken_v3-Decodes product report =
    decode_known-Decodes product (product_name kraken_v3_products product) report refl
