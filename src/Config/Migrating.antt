-- ===== src/Config/Migrating.antt =====
-- What `MigrateLegacy` of internal/config/config.go does to the settings that are there.
use rig_exporter.Base.{
  ◌≡◌, ◌≢◌, ◌⊎◌, inl, inr, refl, ◌∙◌, if◌then◌else◌, Bool, true, false, Option, none, some, ◌++◌,
  Bool-cases, Option-cases,
}
use rig_exporter.Base.Unicode.{Unicode, list_eq, list_eq_sound, list_eq_refl}
use rig_exporter.Base.Text.{codes}
use mathlib.Core.Path.{subst}
use rig_exporter.Config.{Text, Machine, Config, defaults, normalize}
use rig_exporter.Config.Saving.{IsSaved, save-IsSaved, newline}
use rig_exporter.Config.Storage.{
  Json, Files, fails, rest_of, step, write_encoded, save, strip_bom, Migration, migrated,
  migrate_legacy, seek_legacy, read_legacy, adopt, saved_of, unless_present,
}

-- A text that is one name is replaced by another; any other text stays.
abbrev pub Replaced : Text → Text → Text → Text → Type 0
Replaced old new s t = ((s ≡ old) × (t ≡ new)) ⊎ ((s ≢ old) × (t ≡ s))

differs : (s t : Text) → list_eq s t ≡ false → s ≢ t
differs s t h e = absurd (cc (h, subst (λ x. list_eq s x ≡ true) e (list_eq_refl s)))

if-Replaced :
    (old new s : Text) (b : Bool) → list_eq s old ≡ b → Replaced old new s (if b then new else s)
if-Replaced old new s true h = inl (list_eq_sound s old h, refl)
if-Replaced old new s false h = inr (differs s old h, refl)

migrated_topic :
    (c : Config)
    → Replaced (codes "fps2mqtt") (codes "rig-exporter") c.topic_prefix (migrated c).topic_prefix
unfolding migrated
migrated_topic c = if-Replaced _ _ c.topic_prefix _ refl

migrated_measurement :
    (c : Config)
    → Replaced (codes "fps2mqtt") (codes "rig") c.influx_measurement (migrated c).influx_measurement
unfolding migrated
migrated_measurement c = if-Replaced _ _ c.influx_measurement _ refl

migrated_client :
    (c : Config)
    → Replaced
        (codes "fps2mqtt-" ++ c.node_id)
        (codes "rig-exporter-" ++ c.node_id)
        c.client_id
        (migrated c).client_id
unfolding migrated
migrated_client c = if-Replaced _ _ c.client_id _ refl

migrated_pending : (c : Config) → (migrated c).legacy_cleanup_pending ≡ true
unfolding migrated
migrated_pending c = refl

migrated_rest :
    (c : Config)
    → migrated c ≡ record c {
      topic_prefix = (migrated c).topic_prefix;
      influx_measurement = (migrated c).influx_measurement;
      client_id = (migrated c).client_id;
      legacy_cleanup_pending = true;
    }
unfolding migrated
migrated_rest c = refl

module _ (u : Unicode) (m : Machine) (json : Json) where
  -- What the file of the previous program becomes: a configuration with its settings, but for the names that
  -- the program chose itself, normalised.
  pub record Carried (raw : Text) (file : Option Text) : Type 0 where
    pub settings : Config
    pub carried : Config
    pub text : Text
    pub read : json.decode (strip_bom raw) (defaults u m) ≡ some settings
    pub topic :
        Replaced
          (codes "fps2mqtt")
          (codes "rig-exporter")
          settings.topic_prefix
          carried.topic_prefix
    pub measurement :
        Replaced
          (codes "fps2mqtt")
          (codes "rig")
          settings.influx_measurement
          carried.influx_measurement
    pub client :
        Replaced
          (codes "fps2mqtt-" ++ settings.node_id)
          (codes "rig-exporter-" ++ settings.node_id)
          settings.client_id
          carried.client_id
    pub pending : carried.legacy_cleanup_pending ≡ true
    pub rest : carried ≡ record settings {
      topic_prefix = carried.topic_prefix;
      influx_measurement = carried.influx_measurement;
      client_id = carried.client_id;
      legacy_cleanup_pending = true;
    }
    pub encoded : json.encode (normalize u m carried) ≡ some text
    pub stored : file ≡ some (text ++ newline)

  -- A migration that reports success has put the settings of the previous program in config.json, and any
  -- other leaves it as it was.
  abbrev pub IsMigrated : Files → Migration × Files → Type 0
  IsMigrated w (Migration.done, v) = (raw : Text) × (w.legacy ≡ some raw) × Carried raw v.file
  IsMigrated w (Migration.nothing_to_migrate, v) = v.file ≡ w.file
  IsMigrated w (Migration.unreadable, v) = v.file ≡ w.file
  IsMigrated w (Migration.not_saved, v) = v.file ≡ w.file

  unsaved :
      (c : Config) (w : Files)
      → json.encode (normalize u m c) ≡ none
      → (r : Files) × (save u m json c w ≡ (false, r)) × (r.file ≡ w.file)
  unfolding save write_encoded
  unsaved c w e = elim (Bool-cases (fails w.faults)) [
    | inl f ↦ rw f (step w, refl, refl)
    | inr f ↦ rw (f, e) (step w, refl, refl)
  ]

  saved-IsMigrated :
      (w v : Files) (raw text : Text) (c : Config)
      → v.legacy ≡ some raw
      → v.file ≡ w.file
      → w.legacy ≡ v.legacy
      → json.decode (strip_bom raw) (defaults u m) ≡ some c
      → json.encode (normalize u m (migrated c)) ≡ some text
      → (r : Bool × Files) → IsSaved (text ++ newline) v r
      → IsMigrated w (saved_of r)
  saved-IsMigrated w v raw text c l f k d e (true, x) h = (
    raw,
    k ∙ l,
    record {
      settings = c;
      carried = migrated c;
      text = text;
      read = d;
      topic = migrated_topic c;
      measurement = migrated_measurement c;
      client = migrated_client c;
      pending = migrated_pending c;
      rest = migrated_rest c;
      encoded = e;
      stored = h.0;
    },
  )
  saved-IsMigrated w v raw text c l f k d e (false, x) h = h.0 ∙ f

  adopt-IsMigrated :
      (w v : Files) (raw : Text) (o : Option Config)
      → v.legacy ≡ some raw
      → v.file ≡ w.file
      → w.legacy ≡ v.legacy
      → v.temp ≡ none
      → json.decode (strip_bom raw) (defaults u m) ≡ o
      → IsMigrated w (adopt u m json o v)
  adopt-IsMigrated w v raw none l f k t d = f
  adopt-IsMigrated w v raw (some c) l f k t d =
      elim (Option-cases (json.encode (normalize u m (migrated c)))) [
        | inl e ↦ let s = unsaved (migrated c) v e in rw s.1 (s.2 ∙ f)
        | inr e ↦
            saved-IsMigrated w v raw e.0 c l f k d e.1 (save u m json (migrated c) v)
              (save-IsSaved u m json (migrated c) v e.0 e.1 t)
      ]

  read_legacy-IsMigrated :
      (w v : Files) (o : Option Text)
      → v.legacy ≡ o
      → v.file ≡ w.file
      → w.legacy ≡ v.legacy
      → v.temp ≡ none
      → IsMigrated w (read_legacy u m json o v)
  read_legacy-IsMigrated w v none l f k t = f
  read_legacy-IsMigrated w v (some raw) l f k t = adopt-IsMigrated w v raw _ l f k t refl

  seek_legacy-IsMigrated :
      (w v : Files)
      → v.file ≡ w.file
      → w.legacy ≡ v.legacy
      → v.temp ≡ none
      → IsMigrated w (seek_legacy u m json v)
  seek_legacy-IsMigrated w v f k t = elim (Bool-cases (fails v.faults)) [
    | inl e ↦ rw e f
    | inr e ↦ elim (Bool-cases (fails (rest_of v.faults))) [
      | inl g ↦ rw (e, g) f
      | inr g ↦ rw (e, g) (read_legacy-IsMigrated w (step (step v)) v.legacy refl f k t)
    ]
  ]

  unless_present-IsMigrated :
      (w v : Files) (o : Option Text)
      → v.file ≡ w.file
      → w.legacy ≡ v.legacy
      → v.temp ≡ none
      → IsMigrated w (unless_present u m json o v)
  unless_present-IsMigrated w v none f k t = seek_legacy-IsMigrated w v f k t
  unless_present-IsMigrated w v (some raw) f k t = f

  -- Whichever calls fail: a migration that reports success has put into config.json the encoding of what it
  -- read from the previous program, normalised, with the names replaced that the program chose itself: the
  -- topic prefix "fps2mqtt" by "rig-exporter", the measurement "fps2mqtt" by "rig", and the client id that
  -- is "fps2mqtt-" and the node id by "rig-exporter-" and the node id; a name that is another one stays,
  -- the clean-up of the old entities is noted as pending, and nothing else changes. Every other migration
  -- leaves config.json as it was.
  pub migrate_legacy-IsMigrated :
      (w : Files) → w.temp ≡ none → IsMigrated w (migrate_legacy u m json w)
  unfolding migrate_legacy
  migrate_legacy-IsMigrated w t = elim (Bool-cases (fails w.faults)) [
    | inl e ↦ rw e (seek_legacy-IsMigrated w (step w) refl refl t)
    | inr e ↦ rw e (unless_present-IsMigrated w (step w) w.file refl refl t)
  ]
