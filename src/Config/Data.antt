-- ===== src/Config/Data.antt =====
-- internal/config/config.go: the settings and their defaults; internal/i18n/i18n.go: `Parse`. What the machine says
-- of itself, os.Hostname and the language of Windows, is a parameter.
use rig_exporter.Base.{ℕ, Bool, true, false, Option, none, some, List, [], ◌++◌, if◌then◌else◌}
use rig_exporter.Base.Integers.{ℤ, pos}
use rig_exporter.Base.Text.{codes}
use rig_exporter.Base.Unicode.{Unicode, list_eq}
use rig_exporter.Config.Slug.{slug}

abbrev pub Text : Type 0
Text = List ℕ

abbrev pub app_name : Text
app_name = codes "rig-exporter"

abbrev pub id_prefix : Text
id_prefix = codes "rig"

abbrev pub entity_prefix : Text
entity_prefix = codes "re"

abbrev pub legacy_app_name : Text
legacy_app_name = codes "fps2mqtt"

abbrev pub homeassistant : Text
homeassistant = codes "homeassistant"

abbrev pub default_host : Text
default_host = codes "homeassistant.local"

abbrev pub sensor_set_standard : Text
sensor_set_standard = codes "standard"

abbrev pub sensor_set_extended : Text
sensor_set_extended = codes "extended"

abbrev pub preset_minimal : Text
preset_minimal = codes "minimal"

abbrev pub preset_basic : Text
preset_basic = codes "basic"

abbrev pub preset_extended : Text
preset_extended = codes "extended"

-- The name of the machine, none where os.Hostname fails, and the language that Windows shows.
pub record Machine : Type 0 where
  pub os_hostname : Option Text
  pub os_language : Text

pub record Measurements : Type 0 where
  pub preset : Text
  pub added : List Text
  pub removed : List Text

pub record Config : Type 0 where
  pub mqtt_enabled : Bool
  pub mqtt_host : Text
  pub mqtt_port : ℤ
  pub mqtt_username : Text
  pub mqtt_password : Text
  pub mqtt_tls : Bool
  pub mqtt_tls_insecure : Bool
  pub client_id : Text
  pub device_name : Text
  pub node_id : Text
  pub topic_prefix : Text
  pub discovery_prefix : Text
  pub data_server_enabled : Bool
  pub data_bind_address : Text
  pub data_port : ℤ
  pub data_token : Text
  pub json_enabled : Bool
  pub prometheus_enabled : Bool
  pub influx_pull_enabled : Bool
  pub influx_push_enabled : Bool
  pub influx_url : Text
  pub influx_org : Text
  pub influx_bucket : Text
  pub influx_token : Text
  pub influx_measurement : Text
  pub sensor_set : Text
  pub measurements : Measurements
  pub gpu_enabled : Bool
  pub cpu_detail_enabled : Bool
  pub cpu_per_core : Bool
  pub ram_detail_enabled : Bool
  pub pawnio_enabled : Bool
  pub special_hardware_enabled : Bool
  pub disk_enabled : Bool
  pub disk_include : List Text
  pub net_enabled : Bool
  pub net_all_adapters : Bool
  pub update_check_enabled : Bool
  pub crash_report_offered : Bool
  pub battery_enabled : Bool
  pub ping_enabled : Bool
  pub ping_target : Text
  pub ping_targets : List Text
  pub ping_count : ℤ
  pub ping_interval_ms : ℤ
  pub self_usage_enabled : Bool
  pub top_processes_enabled : Bool
  pub top_processes_count : ℤ
  pub top_processes_interval_ms : ℤ
  pub game_id_enabled : Bool
  pub legacy_cleanup_pending : Bool
  pub previous_node_id : Text
  pub previous_topic_prefix : Text
  pub previous_discovery_prefix : Text
  pub poll_interval_ms : ℤ
  pub publish_interval_ms : ℤ
  pub idle_publish_interval_ms : ℤ
  pub decimals : Bool
  pub idle_timeout_ms : ℤ
  pub recorder_notice_read : Bool
  pub no_gpu : Bool
  pub language : Text
  pub web_port : ℤ
  pub web_bind_all : Bool
  pub autostart : Bool
  pub debug : Bool

abbrev host_of : Unicode → Option Text → Text
host_of u none = codes "pc"
host_of u (some h) = if list_eq (u.trim_space h) [] then codes "pc" else h

abbrev pub hostname : Unicode → Machine → Text
hostname u m = host_of u m.os_hostname

-- i18n.Parse, whose default is German
abbrev pub language_of : Text → Text
language_of v = if list_eq v (codes "en") then codes "en" else codes "de"

abbrev pub parse_language : Unicode → Text → Text
parse_language u value = language_of (u.to_lower (u.trim_space value))

unfoldable pub defaults : Unicode → Machine → Config
defaults u m = record {
  mqtt_enabled = true;
  mqtt_host = default_host;
  mqtt_port = pos 1883;
  mqtt_username = [];
  mqtt_password = [];
  mqtt_tls = false;
  mqtt_tls_insecure = false;
  client_id = app_name ++ codes "-" ++ slug u (hostname u m);
  device_name = hostname u m;
  node_id = slug u (hostname u m);
  topic_prefix = app_name;
  discovery_prefix = homeassistant;
  data_server_enabled = false;
  data_bind_address = codes "0.0.0.0";
  data_port = pos 9838;
  data_token = [];
  json_enabled = true;
  prometheus_enabled = true;
  influx_pull_enabled = false;
  influx_push_enabled = false;
  influx_url = [];
  influx_org = [];
  influx_bucket = [];
  influx_token = [];
  influx_measurement = id_prefix;
  sensor_set = sensor_set_extended;
  measurements = record { preset = []; added = []; removed = [] };
  gpu_enabled = true;
  cpu_detail_enabled = true;
  cpu_per_core = false;
  ram_detail_enabled = true;
  pawnio_enabled = false;
  special_hardware_enabled = false;
  disk_enabled = true;
  disk_include = [];
  net_enabled = true;
  net_all_adapters = false;
  update_check_enabled = true;
  crash_report_offered = true;
  battery_enabled = true;
  ping_enabled = true;
  ping_target = [];
  ping_targets = [];
  ping_count = pos 3;
  ping_interval_ms = pos 15000;
  self_usage_enabled = false;
  top_processes_enabled = false;
  top_processes_count = pos 5;
  top_processes_interval_ms = pos 10000;
  game_id_enabled = false;
  legacy_cleanup_pending = false;
  previous_node_id = [];
  previous_topic_prefix = [];
  previous_discovery_prefix = [];
  poll_interval_ms = pos 500;
  publish_interval_ms = pos 2000;
  idle_publish_interval_ms = pos 10000;
  decimals = true;
  idle_timeout_ms = pos 3000;
  recorder_notice_read = false;
  no_gpu = false;
  language = parse_language u m.os_language;
  web_port = pos 8787;
  web_bind_all = false;
  autostart = false;
  debug = false;
}
