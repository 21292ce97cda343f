-- ===== src/Config/Normalized.antt =====
-- What `Normalize` of internal/config/config.go promises of the settings.
use rig_exporter.Base.{
  ◌≡◌, ◌⊎◌, inl, inr, refl, ap, Bool, true, false, ◌||◌, not, ◌&&◌, List, [], ◌∷◌, arith,
  if◌then◌else◌, Bool-cases,
}
use rig_exporter.Base.Integers.{ℤ, pos}
use rig_exporter.Base.Unicode.{Unicode, list_eq, list_eq_sound}
use rig_exporter.Config.{
  Text, Machine, Config, normalize, preset_minimal, preset_basic, preset_extended, settle_preset,
  sensor_set_for_preset, preset_for_sensor_set,
}
use rig_exporter.Config.Intervals.{
  IsBetween, IsInStep, clamp_int-IsBetween, clamp_int-fixed, port_or, port_or-IsBetween,
  port_or-fixed, snap-IsInStep, snap_again,
}
use rig_exporter.Config.Again.{clean_ids_again}

pub record IsBounded (c : Config) : Type 0 where
  pub mqtt_port : IsBetween 1 65535 c.mqtt_port
  pub data_port : IsBetween 1 65535 c.data_port
  pub web_port : IsBetween 1 65535 c.web_port
  pub poll : IsBetween 250 300000 c.poll_interval_ms
  pub publish : IsInStep c.publish_interval_ms c.poll_interval_ms
  pub idle_publish : IsInStep c.idle_publish_interval_ms c.poll_interval_ms
  pub idle_timeout : IsBetween 500 60000 c.idle_timeout_ms
  pub ping_count : IsBetween 1 10 c.ping_count
  pub ping_interval : IsBetween 2000 600000 c.ping_interval_ms
  pub processes_count : IsBetween 3 10 c.top_processes_count
  pub processes_interval : IsBetween 2000 600000 c.top_processes_interval_ms

mqtt_port-IsBetween :
    (tls : Bool) (v : ℤ) → IsBetween 1 65535 (port_or (pos (if tls then 8883 else 1883)) v)
mqtt_port-IsBetween true v = port_or-IsBetween v 8883 (omega arith)
mqtt_port-IsBetween false v = port_or-IsBetween v 1883 (omega arith)

-- Whatever the settings were, after Normalize every port is one that a socket can have, the poll interval
-- and the counts are in their ranges, and each of the two publish intervals is a whole number of polls, at
-- least one poll and at least 250 ms, and less than 300,000 ms and one poll.
pub normalize-IsBounded : (u : Unicode) (m : Machine) (c : Config) → IsBounded (normalize u m c)
unfolding normalize
normalize-IsBounded u m c =
    let poll = clamp_int-IsBetween c.poll_interval_ms 250 300000 500 (omega arith) (omega arith) in
    record {
      mqtt_port = mqtt_port-IsBetween c.mqtt_tls c.mqtt_port;
      data_port = port_or-IsBetween c.data_port 9838 (omega arith);
      web_port = port_or-IsBetween c.web_port 8787 (omega arith);
      poll = poll;
      publish =
          snap-IsInStep _ _
            (clamp_int-IsBetween c.publish_interval_ms 250 300000 2000 (omega arith) (omega arith))
            poll;
      idle_publish =
          snap-IsInStep _ _
            (clamp_int-IsBetween c.idle_publish_interval_ms 250 300000 10000 (omega arith)
              (omega arith))
            poll;
      idle_timeout =
          clamp_int-IsBetween c.idle_timeout_ms 500 60000 3000 (omega arith) (omega arith);
      ping_count = clamp_int-IsBetween c.ping_count 1 10 3 (omega arith) (omega arith);
      ping_interval =
          clamp_int-IsBetween c.ping_interval_ms 2000 600000 15000 (omega arith) (omega arith);
      processes_count =
          clamp_int-IsBetween c.top_processes_count 3 10 5 (omega arith) (omega arith);
      processes_interval =
          clamp_int-IsBetween c.top_processes_interval_ms 2000 600000 10000 (omega arith)
            (omega arith);
    }

-- The switches that Normalize does not read or only reads, in the order of the settings.
abbrev pub switches : Config → List Bool
switches c =
    c.mqtt_enabled ∷ c.mqtt_tls ∷ c.mqtt_tls_insecure ∷ c.json_enabled ∷ c.prometheus_enabled
    ∷ c.influx_pull_enabled ∷ c.gpu_enabled ∷ c.cpu_detail_enabled ∷ c.cpu_per_core
    ∷ c.ram_detail_enabled ∷ c.pawnio_enabled ∷ c.special_hardware_enabled ∷ c.disk_enabled
    ∷ c.net_enabled ∷ c.net_all_adapters ∷ c.update_check_enabled ∷ c.crash_report_offered
    ∷ c.battery_enabled ∷ c.ping_enabled ∷ c.self_usage_enabled ∷ c.top_processes_enabled
    ∷ c.game_id_enabled ∷ c.legacy_cleanup_pending ∷ c.decimals ∷ c.recorder_notice_read ∷ c.no_gpu
    ∷ c.web_bind_all ∷ c.autostart ∷ c.debug ∷ []

-- What two configurations agree on: the numbers, the preset, the sensor set and the single measurements added
-- and removed, the texts that are only trimmed, and the switches. The push to a database is the exception: the
-- first has it on where the second has it on and the first still has an address for it.
pub record Agree (c d : Config) : Type 0 where
  pub mqtt_port : c.mqtt_port ≡ d.mqtt_port
  pub data_port : c.data_port ≡ d.data_port
  pub web_port : c.web_port ≡ d.web_port
  pub poll : c.poll_interval_ms ≡ d.poll_interval_ms
  pub publish : c.publish_interval_ms ≡ d.publish_interval_ms
  pub idle_publish : c.idle_publish_interval_ms ≡ d.idle_publish_interval_ms
  pub idle_timeout : c.idle_timeout_ms ≡ d.idle_timeout_ms
  pub ping_count : c.ping_count ≡ d.ping_count
  pub ping_interval : c.ping_interval_ms ≡ d.ping_interval_ms
  pub processes_count : c.top_processes_count ≡ d.top_processes_count
  pub processes_interval : c.top_processes_interval_ms ≡ d.top_processes_interval_ms
  pub preset : c.measurements.preset ≡ d.measurements.preset
  pub sensor_set : c.sensor_set ≡ d.sensor_set
  pub added : c.measurements.added ≡ d.measurements.added
  pub removed : c.measurements.removed ≡ d.measurements.removed
  pub data_token : c.data_token ≡ d.data_token
  pub org : c.influx_org ≡ d.influx_org
  pub bucket : c.influx_bucket ≡ d.influx_bucket
  pub token : c.influx_token ≡ d.influx_token
  pub data_server : c.data_server_enabled ≡ d.data_server_enabled
  pub push : c.influx_push_enabled ≡ d.influx_push_enabled && not (list_eq c.influx_url [])
  pub others : switches c ≡ switches d

-- One of the three rungs.
abbrev pub IsRung : Text → Type 0
IsRung p = (p ≡ preset_minimal) ⊎ (p ≡ preset_basic) ⊎ (p ≡ preset_extended)

chosen-IsRung :
    (p : Text)
    → (list_eq p preset_minimal || list_eq p preset_basic || list_eq p preset_extended) ≡ true
    → IsRung p
chosen-IsRung p h = elim (Bool-cases (list_eq p preset_minimal)) [
  | inl e ↦ inl (list_eq_sound p preset_minimal e)
  | inr e ↦ elim (Bool-cases (list_eq p preset_basic)) [
    | inl f ↦ inr (inl (list_eq_sound p preset_basic f))
    | inr f ↦ inr (inr (list_eq_sound p preset_extended (ground arith)))
  ]
]

pub settle_preset-IsRung : (p s : Text) → IsRung (settle_preset p s)
unfolding settle_preset preset_for_sensor_set
settle_preset-IsRung p s =
    elim (Bool-cases
      (list_eq p preset_minimal || list_eq p preset_basic || list_eq p preset_extended)) [
        | inl e ↦ rw e (chosen-IsRung p e)
        | inr e ↦ rw e (ground arith)
      ]

pub rung_kept : (p s : Text) → IsRung p → settle_preset p s ≡ p
unfolding settle_preset
rung_kept p s (inl e) = rw e refl
rung_kept p s (inr (inl e)) = rw e refl
rung_kept p s (inr (inr e)) = rw e refl

settle_preset_again : (p s t : Text) → settle_preset (settle_preset p s) t ≡ settle_preset p s
settle_preset_again p s t = rung_kept (settle_preset p s) t (settle_preset-IsRung p s)

pushed_again :
    (b no_url no_bucket url : Bool)
    → (b && not (no_url || no_bucket)) && not (url || no_bucket)
      ≡ (b && not (no_url || no_bucket)) && not url
pushed_again b no_url no_bucket url = ground arith

push_kept :
    (u : Unicode) (url bucket later : Text) (b : Bool)
    → u.trim_space (u.trim_space bucket) ≡ u.trim_space bucket
    → (b && not (list_eq url [] || list_eq (u.trim_space bucket) []))
        && not (list_eq later [] || list_eq (u.trim_space (u.trim_space bucket)) [])
      ≡ (b && not (list_eq url [] || list_eq (u.trim_space bucket) [])) && not (list_eq later [])
push_kept u url bucket later b e =
    rw e (pushed_again b (list_eq url []) (list_eq (u.trim_space bucket) []) (list_eq later []))

-- Where to trim a text twice is to trim it once, to normalise a second time changes no number, also none of the
-- intervals that the first time took beyond their bounds; it changes neither the preset and the sensor set nor
-- the lists of measurements added and removed, nor the token of the data server and the organisation, bucket
-- and token of the database; and it changes no switch, except that the push to the database goes off where
-- the second trimming leaves nothing of its address.
pub normalize-Agree :
    (u : Unicode) (m : Machine) (c : Config)
    → ((t : Text) → u.trim_space (u.trim_space t) ≡ u.trim_space t)
    → Agree (normalize u m (normalize u m c)) (normalize u m c)
unfolding normalize
normalize-Agree u m c twice =
    let h = normalize-IsBounded u m c in
    let poll = clamp_int-fixed _ 250 300000 500 (omega arith) h.poll in
    record {
      mqtt_port = port_or-fixed _ _ h.mqtt_port;
      data_port = port_or-fixed _ _ h.data_port;
      web_port = port_or-fixed _ _ h.web_port;
      poll = poll;
      publish = rw poll (
          snap_again _ _ 2000
            (clamp_int-IsBetween c.publish_interval_ms 250 300000 2000 (omega arith) (omega arith))
            h.poll);
      idle_publish = rw poll (
          snap_again _ _ 10000
            (clamp_int-IsBetween c.idle_publish_interval_ms 250 300000 10000 (omega arith)
              (omega arith))
            h.poll);
      idle_timeout = clamp_int-fixed _ 500 60000 3000 (omega arith) h.idle_timeout;
      ping_count = clamp_int-fixed _ 1 10 3 (omega arith) h.ping_count;
      ping_interval = clamp_int-fixed _ 2000 600000 15000 (omega arith) h.ping_interval;
      processes_count = clamp_int-fixed _ 3 10 5 (omega arith) h.processes_count;
      processes_interval = clamp_int-fixed _ 2000 600000 10000 (omega arith) h.processes_interval;
      preset = settle_preset_again c.measurements.preset c.sensor_set _;
      sensor_set =
          ap sensor_set_for_preset (settle_preset_again c.measurements.preset c.sensor_set _);
      added = clean_ids_again u c.measurements.added twice;
      removed = clean_ids_again u c.measurements.removed twice;
      data_token = twice c.data_token;
      org = twice c.influx_org;
      bucket = twice c.influx_bucket;
      token = twice c.influx_token;
      data_server = ground arith;
      push = push_kept u _ c.influx_bucket _ c.influx_push_enabled (twice c.influx_bucket);
      others = refl;
    }
