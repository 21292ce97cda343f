-- ===== src/Config/Identity.antt =====
-- What `Normalize` of internal/config/config.go makes of the rung of the measurements and of the identifiers.
use rig_exporter.Base.{◌≡◌, refl, ◌∙◌, true, false, [], ◌∷◌, arith, if◌then◌else◌}
use rig_exporter.Base.Unicode.{Unicode, list_eq}
use rig_exporter.Config.{
  Text, Machine, Config, normalize, preset_basic, preset_extended, settle_preset,
  sensor_set_standard, sensor_set_extended, sensor_set_for_preset, preset_for_sensor_set,
}
use rig_exporter.Config.Slug.{slug, IsSlug, IsSlug-slug, Leaves, slug_fixed}
use rig_exporter.Config.Normalized.{IsRung, settle_preset-IsRung, rung_kept}

-- What Normalize leaves of a configuration that was written before the ladder existed, and of one that has
-- a rung: the rung leads, and the old switch follows it.
pub record IsMeasured (c d : Config) : Type 0 where
  pub rung : IsRung d.measurements.preset
  pub chosen : IsRung c.measurements.preset → d.measurements.preset ≡ c.measurements.preset
  pub migrated :
      c.measurements.preset ≡ []
      → d.measurements.preset
        ≡ (if list_eq c.sensor_set sensor_set_standard then preset_basic else preset_extended)
  pub in_step : d.sensor_set ≡ (
      if list_eq d.measurements.preset preset_extended
      then sensor_set_extended
      else sensor_set_standard)

blank_migrated :
    (p s : Text)
    → p ≡ []
    → settle_preset p s ≡ (if list_eq s sensor_set_standard then preset_basic else preset_extended)
unfolding settle_preset preset_for_sensor_set
blank_migrated p s e = rw e refl

normalize-IsMeasured : (u : Unicode) (m : Machine) (c : Config) → IsMeasured c (normalize u m c)
unfolding normalize sensor_set_for_preset
normalize-IsMeasured u m c = record {
  rung = settle_preset-IsRung c.measurements.preset c.sensor_set;
  chosen = rung_kept c.measurements.preset c.sensor_set;
  migrated = blank_migrated c.measurements.preset c.sensor_set;
  in_step = refl;
}

-- The identifiers: a slug made of what the user typed, or of the name of the device.
pub record IsIdentified (u : Unicode) (m : Machine) (c d : Config) : Type 0 where
  pub node : IsSlug d.node_id
  pub explicit : list_eq (u.trim_space c.node_id) [] ≡ false → d.node_id ≡ slug u c.node_id
  pub derived : list_eq (u.trim_space c.node_id) [] ≡ true → d.node_id ≡ slug u d.device_name

node_kept :
    (u : Unicode) (device node : Text)
    → list_eq (u.trim_space node) [] ≡ false
    → slug u (if list_eq (u.trim_space node) [] then device else node) ≡ slug u node
node_kept u device node e = rw e refl

node_derived :
    (u : Unicode) (device node : Text)
    → list_eq (u.trim_space node) [] ≡ true
    → slug u (if list_eq (u.trim_space node) [] then device else node) ≡ slug u device
node_derived u device node e = rw e refl

normalize-IsIdentified :
    (u : Unicode) (m : Machine) (c : Config) → IsIdentified u m c (normalize u m c)
unfolding normalize
normalize-IsIdentified u m c = record {
  node = IsSlug-slug u _;
  explicit = node_kept u _ c.node_id;
  derived = node_derived u _ c.node_id;
}

slug_not_blank : (s : Text) → IsSlug s → list_eq s [] ≡ false
slug_not_blank [] h = ground arith
slug_not_blank (c ∷ s) h = refl

-- Where the Unicode operations leave a slug alone, a second Normalize keeps the node id: the identity under
-- which Home Assistant knows the machine does not move, whichever of the two ways it came about.
node_id-stable :
    (u : Unicode) (m m' : Machine) (c : Config)
    → ((s : Text) → IsSlug s → Leaves u s)
    → (normalize u m' (normalize u m c)).node_id ≡ (normalize u m c).node_id
unfolding normalize
node_id-stable u m m' c h =
    let node = (normalize u m c).node_id in
    let shape : IsSlug node = IsSlug-slug u _ in
    let typed : list_eq (u.trim_space node) [] ≡ false =
      rw (h node shape).0 (slug_not_blank node shape) in
    node_kept u _ node typed ∙ slug_fixed u node shape (h node shape)
