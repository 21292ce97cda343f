-- ===== src/Kraken/Tests.antt =====
-- Runs of the Kraken decoding on the report of the test.
use rig_exporter.Base.{ℕ, ◌≡◌, refl, none, some, List, [], ◌∷◌, ok, Ensures, true, false}
use rig_exporter.Base.Text.{codes}
use rig_exporter.Kraken.{decode_kraken_v3}
use rig_exporter.Kraken.Decoding.{Decodes, decode_kraken_v3-Decodes}

abbrev report : List ℕ
report =
    117 ∷ 1 ∷ 0 ∷ 0 ∷ 0 ∷ 0 ∷ 0 ∷ 0 ∷ 0 ∷ 0 ∷ 0 ∷ 0 ∷ 0 ∷ 0 ∷ 0 ∷ 45 ∷ 9 ∷ 96 ∷ 9 ∷ 76 ∷ 0 ∷ 0 ∷ 0
    ∷ 46 ∷ 3 ∷ 139 ∷ []

report_decoded :
    decode_kraken_v3 12296 report
    ≡ ok (
        some (record {
          device = codes "NZXT Kraken Z3";
          instance_name = codes "NZXT Kraken Z3";
          liquid_tenths = 459;
          has_liquid = true;
          pump_rpm = 2400;
          has_pump_rpm = true;
          pump_duty = 76;
          has_pump_duty = true;
          fan_rpm = 814;
          has_fan_rpm = true;
          fan_duty = 139;
          has_fan_duty = false;
        }))
unfolding decode_kraken_v3
report_decoded = refl

unknown_product : decode_kraken_v3 1 report ≡ ok none
unfolding decode_kraken_v3
unknown_product = refl

decode_kraken_v3-Decodes_example : Ensures (Decodes 12296 report) (decode_kraken_v3 12296 report)
decode_kraken_v3-Decodes_example = decode_kraken_v3-Decodes 12296 report
