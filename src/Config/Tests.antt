-- ===== src/Config/Tests.antt =====
-- Runs of internal/config/config.go at concrete settings: a file edited by hand, a save whose permissions
-- cannot be set, and the settings of the previous program.
use rig_exporter.Base.{
  ◌≡◌, refl, Bool, true, false, none, some, List, [], ◌∷◌, ◌++◌, ◌==◌, if◌then◌else◌,
}
use rig_exporter.Base.Integers.{pos, negsuc}
use rig_exporter.Base.Text.{codes}
use rig_exporter.Base.Unicode.{ascii}
use rig_exporter.Config.{Text, Machine, Config, defaults, normalize}
use rig_exporter.Config.Slug.{slug}
use rig_exporter.Config.Intervals.{snap_to_poll, clamp_int}
use rig_exporter.Config.Trimming.{trim}
use rig_exporter.Config.Cleaning.{clean_ids, clean_ping_targets}
use rig_exporter.Config.Targets.{IsTidy, clean_ping_targets-IsTidy}
use rig_exporter.Config.Normalized.{IsBounded, normalize-IsBounded, Agree, normalize-Agree}
use rig_exporter.Config.Storage.{Migration, Json, Files, save, load, migrate_legacy, strip_bom}
use rig_exporter.Config.Saving.{IsSaved, save-IsSaved, load-save, newline}
use rig_exporter.Config.Migrating.{IsMigrated, migrate_legacy-IsMigrated}

slug_name :
    slug ascii (codes "-- My  Gaming-PC (2nd), the big one!!")
    ≡ codes "my_gaming_pc_2nd_the_big_one"
unfolding slug trim
slug_name = refl

abbrev rig : Machine
rig = record { os_hostname = some (codes "RIG-01"); os_language = codes "en" }

-- A port below 0, polls every ten minutes, and a publish interval that is no whole number of polls.
abbrev edited : Config
edited = record (defaults ascii rig) {
  web_port = negsuc 4;
  poll_interval_ms = pos 200000;
  publish_interval_ms = pos 300000;
  ping_count = pos 99;
  influx_push_enabled = true;
  influx_url = codes "http://db/";
  influx_bucket = codes "rigs";
  measurements = record {
    preset = codes "basic";
    added = codes "fps" ∷ codes "cpu" ∷ codes "fps" ∷ [];
    removed = codes "net" ∷ [] ∷ [];
  };
}

-- The publish interval goes beyond the bound of 300,000 ms.
beyond_the_bound : (normalize ascii rig edited).publish_interval_ms ≡ pos 400000
unfolding normalize defaults snap_to_poll clamp_int
beyond_the_bound = refl

normalize-IsBounded_example : IsBounded (normalize ascii rig edited)
normalize-IsBounded_example = normalize-IsBounded ascii rig edited

normalize-Agree_example :
    Agree (normalize ascii rig (normalize ascii rig edited)) (normalize ascii rig edited)
normalize-Agree_example = normalize-Agree ascii rig edited (λ t. refl)

abbrev typed : List Text
typed = codes "router" ∷ [] ∷ codes "Router" ∷ codes "1.1.1.1" ∷ []

targets : clean_ping_targets ascii typed ≡ codes "router" ∷ codes "1.1.1.1" ∷ []
unfolding clean_ping_targets
targets = refl

clean_ping_targets-IsTidy_example : IsTidy ascii typed (clean_ping_targets ascii typed)
clean_ping_targets-IsTidy_example = clean_ping_targets-IsTidy ascii typed

sorted_ids :
    clean_ids ascii (codes "fps" ∷ codes "cpu" ∷ [] ∷ codes "fps" ∷ [])
    ≡ codes "cpu" ∷ codes "fps" ∷ []
unfolding clean_ids
sorted_ids = refl

-- A coding of one switch: the settings are otherwise the normalised defaults.
abbrev switched_on : Text → Bool
switched_on (b ∷ c ∷ raw) = c == 49
switched_on raw = false

abbrev switched : Text → Config
switched raw = normalize ascii rig (record (defaults ascii rig) { no_gpu = switched_on raw })

abbrev one_switch : Json
one_switch = record {
  encode = λ c. some (if c.no_gpu then codes "{1}" else codes "{0}");
  decode = λ raw d. some (switched raw);
}

abbrev chosen : Config
chosen = record (defaults ascii rig) { no_gpu = true }

abbrev empty_folder : Files
empty_folder = record {
  file = none;
  temp = none;
  legacy = some (codes "{1}");
  faults = [];
  leftover = false;
}

-- The permissions of the temporary file cannot be set.
abbrev unsecured : Files
unsecured = record empty_folder {
  file = some (codes "{0}");
  faults = false ∷ false ∷ false ∷ false ∷ true ∷ [];
}

encoded : one_switch.encode (normalize ascii rig chosen) ≡ some (codes "{1}")
unfolding normalize defaults
encoded = refl

save-IsSaved_example :
    IsSaved (codes "{1}" ++ newline) unsecured (save ascii rig one_switch chosen unsecured)
save-IsSaved_example = save-IsSaved ascii rig one_switch chosen unsecured (codes "{1}") encoded refl

-- The settings of the previous program, with the names that it chose.
abbrev old_names : Json
old_names = record {
  encode = one_switch.encode;
  decode = λ raw d. some (record (switched raw) {
    topic_prefix = codes "fps2mqtt";
    influx_measurement = codes "fps2mqtt";
    client_id = codes "fps2mqtt-rig";
  });
}

migrates : (migrate_legacy ascii rig old_names empty_folder).0 ≡ Migration.done
unfolding migrate_legacy normalize defaults
migrates = refl

migrate_legacy-IsMigrated_example :
    IsMigrated ascii rig old_names empty_folder (migrate_legacy ascii rig old_names empty_folder)
migrate_legacy-IsMigrated_example = migrate_legacy-IsMigrated ascii rig old_names empty_folder refl

abbrev written_folder : Files
written_folder = record empty_folder { file = some (codes "{1}" ++ newline) }

decoded :
    one_switch.decode (strip_bom (codes "{1}" ++ newline)) (defaults ascii rig)
    ≡ some (normalize ascii rig chosen)
unfolding strip_bom
decoded = refl

saved : save ascii rig one_switch chosen empty_folder ≡ (true, written_folder)
unfolding save normalize defaults
saved = refl

load-save_example :
    ((load ascii rig one_switch written_folder).0.failed ≡ false)
    × Agree (load ascii rig one_switch written_folder).0.config (normalize ascii rig chosen)
load-save_example =
    load-save ascii rig one_switch chosen empty_folder written_folder (codes "{1}") (λ t. refl)
      encoded decoded refl saved refl
