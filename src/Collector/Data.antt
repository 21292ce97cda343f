-- ===== src/Collector/Data.antt =====
-- internal/collector/collector.go: readings, statuses, and the game that is open.
use rig_exporter.Base.{
  ℕ, ◌-◌, ◌/◌, ◌%◌, Bool, true, false, ◌||◌, Option, none, some, List, [], ◌++◌, ltb, ◌==◌,
  if◌then◌else◌, length,
}
use rig_exporter.Base.Unicode.{list_eq}
use rig_exporter.Base.Decimal.{itoa}
use rig_exporter.Base.Text.{codes}
use rig_exporter.Rtss.{Error, not_running, shut_down, access_denied, Entry, base_name}

abbrev pub Text : Type 0
Text = List ℕ

-- What the code uses of float64.
pub record Float (F : Type 0) : Type 0 where
  pub of_nat : ℕ → F
  pub divide : F → F → F
  pub times : F → F → F
  pub is_positive : F → Bool

pub data Status : Type 0 where
  up stopped denied broken : Status

-- The measurements of a game and of RTSS.
pub data Measure : Type 0 where
  game running rtss_up rtss_status rtss_version details fps pid frametime : Measure

pub data Value (F : Type 0) : Type 0 where
  text : Text → Value F
  flag : Bool → Value F
  number : F → Value F
  pairs : List (Text × Text) → Value F

pub record Reading (F : Type 0) : Type 0 where
  pub measure : Measure
  pub value : Value F
  pub origin : Text

-- The set of readings with its current origin, and the snapshot's RTSS fields.
pub record Snap (F : Type 0) : Type 0 where
  pub readings : List (Reading F)
  pub origin : Text
  pub status : Status
  pub message : Option Error
  pub version : Text
  pub fps_origin : Text

pub record Game : Type 0 where
  pub platform : Text
  pub title : Text
  pub app_id : Text

pub record OpenGame : Type 0 where
  pub name : Text
  pub path : Text
  pub since : ℕ

abbrev pub no_game_open : OpenGame
no_game_open = record { name = []; path = []; since = 0 }

-- In nanoseconds.
abbrev pub game_linger : ℕ
game_linger = 15000000000

-- The entry is what is rendering, if anything is; the time is that of the clock.
unfoldable pub open_game : OpenGame → Option Entry → ℕ → OpenGame
unfolding base_name
open_game held (some entry) now = record { name = base_name entry; path = entry.path; since = now }
open_game held none now =
    if length held.name == 0 || ltb game_linger (now - held.since) then no_game_open else held

abbrev pub is_some : Option Entry → Bool
is_some none = false
is_some (some e) = true

unfoldable pub classify : Error → Status
classify not_running = stopped
classify shut_down = stopped
classify access_denied = denied
classify _ = broken

abbrev pub status_text : Status → Text
status_text up = codes "ok"
status_text stopped = codes "not_running"
status_text denied = codes "access_denied"
status_text broken = codes "error"

abbrev pub is_up : Status → Bool
is_up up = true
is_up _ = false

unfoldable pub game_origin : Text → Text
game_origin platform =
    if list_eq platform (codes "steam")
    then codes "Steam"
    else if list_eq platform (codes "gog")
    then codes "GOG Galaxy"
    else if list_eq platform (codes "epic")
    then codes "Epic Games"
    else codes "rig-exporter"

-- Snapshot.VersionString
unfoldable pub version_string : ℕ → Text
unfolding itoa
version_string version = itoa (version / 65536) ++ codes "." ++ itoa (version % 65536)
