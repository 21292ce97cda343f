-- ===== src/Config.antt =====
-- internal/config/config.go: `Normalize`, which brings every setting into a usable range. A Go int is an
-- integer here: no sum of them comes near its bounds.
mod Data
pub mod Intervals
pub mod Trimming
pub mod Slug
pub mod Cleaning
pub mod Ids
pub mod Again
pub mod Targets
pub mod Normalized
pub mod Identity
pub mod Storage
pub mod Saving
pub mod Migrating
pub mod Topics
mod Tests
unfoldable pub use Data.*
use rig_exporter.Base.{◌+◌, ◌-◌, ◌/◌, not, ◌&&◌, ◌||◌, List, [], ◌∷◌, ◌++◌, if◌then◌else◌}
use rig_exporter.Base.Integers.{pos}
use rig_exporter.Base.Text.{codes}
use rig_exporter.Base.Unicode.{Unicode, list_eq}
use Intervals.{clamp_int, snap_to_poll, port_or}
use Trimming.{trim, trim_right}
use Slug.{slug, or_else}
use Cleaning.{clean_ids, clean_ping_targets, clean_drives}

unfoldable pub preset_for_sensor_set : Text → Text
preset_for_sensor_set sensor_set =
    if list_eq sensor_set sensor_set_standard then preset_basic else preset_extended

unfoldable pub sensor_set_for_preset : Text → Text
sensor_set_for_preset preset =
    if list_eq preset preset_extended then sensor_set_extended else sensor_set_standard

-- the switch of normalizeMeasurements
unfoldable pub settle_preset : Text → Text → Text
unfolding preset_for_sensor_set
settle_preset preset sensor_set =
    if list_eq preset preset_minimal
      || list_eq preset preset_basic
      || list_eq preset preset_extended
    then preset
    else if list_eq preset []
    then preset_for_sensor_set sensor_set
    else preset_extended

unfoldable pub normalize_measurements : Unicode → Config → Config
unfolding sensor_set_for_preset
normalize_measurements u c =
    let preset = settle_preset c.measurements.preset c.sensor_set in
    record c {
      sensor_set = sensor_set_for_preset preset;
      measurements = record {
        preset = preset;
        added = clean_ids u c.measurements.added;
        removed = clean_ids u c.measurements.removed;
      };
    }

-- the target that an older file has
abbrev pub carried_targets : Unicode → List Text → Text → List Text
carried_targets u [] target = if list_eq (u.trim_space target) [] then [] else target ∷ []
carried_targets u (t ∷ ts) target = t ∷ ts

unfoldable pub normalize_sensors : Unicode → Config → Config
unfolding normalize_measurements
normalize_sensors u c = record (normalize_measurements u c) {
  ping_target = [];
  ping_targets = clean_ping_targets u (carried_targets u c.ping_targets c.ping_target);
  ping_count = clamp_int c.ping_count 1 10 3;
  ping_interval_ms = clamp_int c.ping_interval_ms 2000 600000 15000;
  top_processes_count = clamp_int c.top_processes_count 3 10 5;
  top_processes_interval_ms = clamp_int c.top_processes_interval_ms 2000 600000 10000;
  disk_include = clean_drives u c.disk_include;
}

-- `/`, cut off the ends of a path
abbrev pub slash : Text
slash = codes "/"

unfoldable pub normalize_exports : Unicode → Config → Config
normalize_exports u c =
    let url = trim_right slash (u.trim_space c.influx_url) in
    let bucket = u.trim_space c.influx_bucket in
    record c {
      data_bind_address = or_else (codes "0.0.0.0") (u.trim_space c.data_bind_address);
      data_port = port_or (pos 9838) c.data_port;
      data_token = u.trim_space c.data_token;
      data_server_enabled =
          c.data_server_enabled
          && (c.json_enabled || c.prometheus_enabled || c.influx_pull_enabled);
      influx_url = url;
      influx_org = u.trim_space c.influx_org;
      influx_bucket = bucket;
      influx_token = u.trim_space c.influx_token;
      influx_measurement = or_else id_prefix (u.trim_space c.influx_measurement);
      influx_push_enabled = c.influx_push_enabled && not (list_eq url [] || list_eq bucket []);
    }

-- the identifiers, the first part of Normalize
unfoldable pub normalize_identity : Unicode → Machine → Config → Config
normalize_identity u m c =
    let device = or_else (hostname u m) (u.trim_space c.device_name) in
    let node = slug u (if list_eq (u.trim_space c.node_id) [] then device else c.node_id) in
    record c {
      mqtt_host = or_else default_host (u.trim_space c.mqtt_host);
      mqtt_port = port_or (pos (if c.mqtt_tls then 8883 else 1883)) c.mqtt_port;
      device_name = device;
      node_id = node;
      topic_prefix = or_else app_name (trim slash (u.trim_space c.topic_prefix));
      discovery_prefix = or_else homeassistant (trim slash (u.trim_space c.discovery_prefix));
      client_id = or_else (app_name ++ codes "-" ++ node) (u.trim_space c.client_id);
    }

-- its intervals
unfoldable pub normalize_intervals : Unicode → Config → Config
normalize_intervals u c =
    let poll = clamp_int c.poll_interval_ms 250 300000 500 in
    record c {
      poll_interval_ms = poll;
      publish_interval_ms = snap_to_poll (clamp_int c.publish_interval_ms 250 300000 2000) poll;
      idle_publish_interval_ms =
          snap_to_poll (clamp_int c.idle_publish_interval_ms 250 300000 10000) poll;
      idle_timeout_ms = clamp_int c.idle_timeout_ms 500 60000 3000;
      language = parse_language u c.language;
      web_port = port_or (pos 8787) c.web_port;
    }

unfoldable pub normalize : Unicode → Machine → Config → Config
unfolding normalize_identity normalize_intervals normalize_exports normalize_sensors
normalize u m c =
    normalize_sensors u (normalize_exports u (normalize_intervals u (normalize_identity u m c)))
