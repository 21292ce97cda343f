-- ===== src/Config/Storage.antt =====
-- internal/config/config.go: `Save`, `Load` and `MigrateLegacy` over the files they touch: config.json, the
-- temporary file beside it, and the file of the previous program. Each call of the operating system fails
-- or not as a list says. encoding/json is a parameter, and so is the directory of the user's settings.
use rig_exporter.Base.{
  Bool, true, false, ◌&&◌, ◌||◌, Option, none, some, List, [], ◌∷◌, ◌++◌, ◌==◌, if◌then◌else◌,
}
use rig_exporter.Base.Text.{codes}
use rig_exporter.Base.Unicode.{Unicode, list_eq}
use rig_exporter.Config.{
  Text, Machine, Config, defaults, normalize, app_name, legacy_app_name, id_prefix,
}

-- json.MarshalIndent, and json.Unmarshal into a configuration that has the defaults.
pub record Json : Type 0 where
  pub encode : Config → Option Text
  pub decode : Text → Config → Option Config

-- `leftover` says that a temporary file could not be removed.
pub record Files : Type 0 where
  pub file : Option Text
  pub temp : Option Text
  pub legacy : Option Text
  pub faults : List Bool
  pub leftover : Bool

abbrev pub fails : List Bool → Bool
fails [] = false
fails (b ∷ bs) = b

abbrev pub rest_of : List Bool → List Bool
rest_of [] = []
rest_of (b ∷ bs) = bs

abbrev pub step : Files → Files
step w = record w { faults = rest_of w.faults }

abbrev drop_temp : Files → Files
drop_temp w =
    if fails w.faults then record (step w) { leftover = true } else record (step w) { temp = none }

-- the deferred end of a save that failed: os.Remove, whose own error is not looked at
unfoldable pub give_up : Files → Bool × Files
give_up w = (false, drop_temp w)

-- the rename over config.json
unfoldable pub replace : Files → Bool × Files
unfolding give_up
replace w =
    if fails w.faults
    then give_up (step w)
    else (true, record (step w) { file = w.temp; temp = none })

unfoldable pub secure : Files → Bool × Files
unfolding give_up replace
secure w = if fails w.faults then give_up (step w) else replace (step w)

-- after the write and the close of the temporary file
abbrev pub written : Bool → Text → Files → Files
written bad raw w = record (step (step w)) { temp = some (if bad then [] else raw) }

-- The file is written and closed, each of which can fail; what a failed write left of it is not looked at.
unfoldable pub write_temp : Text → Files → Bool × Files
unfolding give_up secure
write_temp raw w =
    if fails w.faults || fails (rest_of w.faults)
    then give_up (written (fails w.faults) raw w)
    else secure (written (fails w.faults) raw w)

-- os.CreateTemp
unfoldable pub create_temp : Text → Files → Bool × Files
unfolding write_temp
create_temp raw w =
    if fails w.faults then (false, step w) else write_temp raw (record (step w) { temp = some [] })

abbrev newline : Text
newline = 10 ∷ []

unfoldable pub write_encoded : Option Text → Files → Bool × Files
unfolding create_temp
write_encoded none w = (false, w)
write_encoded (some raw) w = create_temp (raw ++ newline) w

module _ (u : Unicode) (m : Machine) (json : Json) where
  -- `Save`: whether it succeeded, and the files
  unfoldable pub save : Config → Files → Bool × Files
  unfolding write_encoded
  save c w =
      if fails w.faults
      then (false, step w)
      else write_encoded (json.encode (normalize u m c)) (step w)

-- What `Load` returns: the settings, whether the file was created, and whether there was an error.
pub record Loaded : Type 0 where
  pub config : Config
  pub created : Bool
  pub failed : Bool

-- bytes.TrimPrefix with the byte order mark
unfoldable pub strip_bom : Text → Text
strip_bom (a ∷ b ∷ c ∷ raw) = if a == 239 && b == 187 && c == 191 then raw else a ∷ b ∷ c ∷ raw
strip_bom raw = raw

-- How `MigrateLegacy` ends.
pub data Migration : Type 0 where
  nothing_to_migrate unreadable not_saved done : Migration

abbrev pub created_of : Config → Bool × Files → Loaded × Files
created_of c (true, w) = (record { config = c; created = true; failed = false }, w)
created_of c (false, w) = (record { config = c; created = false; failed = true }, w)

abbrev renamed : Text → Text → Text → Text
renamed old new t = if list_eq t old then new else t

-- what MigrateLegacy changes of the settings of the previous program
unfoldable pub migrated : Config → Config
migrated c = record c {
  topic_prefix = renamed legacy_app_name app_name c.topic_prefix;
  influx_measurement = renamed legacy_app_name id_prefix c.influx_measurement;
  client_id =
      renamed (legacy_app_name ++ codes "-" ++ c.node_id) (app_name ++ codes "-" ++ c.node_id)
        c.client_id;
  legacy_cleanup_pending = true;
}

abbrev pub saved_of : Bool × Files → Migration × Files
saved_of (true, w) = (Migration.done, w)
saved_of (false, w) = (Migration.not_saved, w)

module _ (u : Unicode) (m : Machine) (json : Json) where
  -- a file that is not there
  unfoldable pub create_defaults : Files → Loaded × Files
  unfolding defaults normalize save
  create_defaults w = let c = normalize u m (defaults u m) in created_of c (save u m json c w)

  abbrev pub parsed : Option Config → Loaded
  parsed none = record { config = defaults u m; created = false; failed = true }
  parsed (some c) = record { config = normalize u m c; created = false; failed = false }

  abbrev pub load_content : Option Text → Files → Loaded × Files
  load_content none w = create_defaults w
  load_content (some raw) w = (parsed (json.decode (strip_bom raw) (defaults u m)), w)

  unfoldable pub load : Files → Loaded × Files
  unfolding create_defaults
  load w =
      if fails w.faults
      then (record { config = defaults u m; created = false; failed = true }, step w)
      else load_content w.file (step w)

  abbrev pub adopt : Option Config → Files → Migration × Files
  adopt none w = (Migration.unreadable, w)
  adopt (some c) w = saved_of (save u m json (migrated c) w)

  abbrev pub read_legacy : Option Text → Files → Migration × Files
  read_legacy none w = (Migration.nothing_to_migrate, w)
  read_legacy (some raw) w = adopt (json.decode (strip_bom raw) (defaults u m)) w

  abbrev pub seek_legacy : Files → Migration × Files
  seek_legacy w =
      if fails w.faults
      then (Migration.nothing_to_migrate, step w)
      else if fails (rest_of w.faults)
      then (Migration.nothing_to_migrate, step (step w))
      else read_legacy w.legacy (step (step w))

  abbrev pub unless_present : Option Text → Files → Migration × Files
  unless_present (some raw) w = (Migration.nothing_to_migrate, w)
  unless_present none w = seek_legacy w

  unfoldable pub migrate_legacy : Files → Migration × Files
  unfolding migrated save strip_bom
  migrate_legacy w = if fails w.faults then seek_legacy (step w) else unless_present w.file (step w)
