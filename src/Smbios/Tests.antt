-- ===== src/Smbios/Tests.antt =====
-- Runs of the SMBIOS parser on a small table.
use rig_exporter.Base.{ℕ, ◌≡◌, refl, List, [], ◌∷◌, ◌++◌, ok, err, Ensures}
use rig_exporter.Base.Text.{codes}
use rig_exporter.Base.Unicode.{ascii}
use rig_exporter.Smbios.{Structure, Module, no_memory_info, slot, structures, parse_module, parse}
use rig_exporter.Smbios.Modules.{Reports, parse_module-Reports}
use rig_exporter.Smbios.Totals.{IsSummary, parse-IsSummary}

-- An 8 GiB DDR4 module in "A", 3200 MT/s, of a table from before the configured speed.
abbrev device : List ℕ
device =
    17 ∷ 23 ∷ 0 ∷ 0 ∷ 0 ∷ 0 ∷ 0 ∷ 0 ∷ 0 ∷ 0 ∷ 0 ∷ 0 ∷ 0 ∷ 32 ∷ 0 ∷ 0 ∷ 1 ∷ 0 ∷ 26 ∷ 0 ∷ 0 ∷ 128 ∷ 12
    ∷ []

abbrev stick : List ℕ
stick = device ++ 65 ∷ 0 ∷ 0 ∷ 127 ∷ 4 ∷ 0 ∷ 0 ∷ 0 ∷ 0 ∷ []

abbrev stick_record : Structure
stick_record = record { kind = 17; formatted = device; strings = codes "A" ∷ [] }

abbrev eight_gib : Module
eight_gib = record {
  locator = codes "A";
  bank = [];
  size_mb = 8192;
  kind = codes "DDR4";
  configured_speed = 3200;
  rated_speed = 3200;
  manufacturer = [];
  part_number = [];
}

stick_walked : structures stick ≡ ok (stick_record ∷ [])
unfolding structures
stick_walked = refl

stick_parsed :
    parse ascii stick
    ≡ ok (record {
      modules = eight_gib ∷ [];
      slots = 1;
      total_mb = 8192;
      configured_speed = 3200;
      rated_speed = 3200;
      kind = codes "DDR4";
    })
unfolding parse
stick_parsed = refl

nothing_parsed : parse ascii (17 ∷ 200 ∷ 0 ∷ 0 ∷ []) ≡ err no_memory_info
unfolding parse
nothing_parsed = refl

slot_of_stick : slot eight_gib ≡ codes "A"
unfolding slot
slot_of_stick = refl

parse-IsSummary_example : Ensures IsSummary (parse ascii stick)
parse-IsSummary_example = parse-IsSummary ascii stick

parse_module-Reports_example : Ensures (Reports stick_record) (parse_module ascii stick_record)
parse_module-Reports_example = parse_module-Reports ascii stick_record
