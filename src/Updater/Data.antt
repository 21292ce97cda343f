-- ===== src/Updater/Data.antt =====
-- internal/updater/manager.go: the manager's state, the releases it knows, and the call of its listeners.
use rig_exporter.Base.{[], ℕ, Bool, false, Option, none, List, ◌++◌, map}
use rig_exporter.Base.Text.{codes}

-- 50 << 20
abbrev pub max_release_size : ℕ
max_release_size = 52428800

abbrev pub software_title : List ℕ
software_title = codes "rig-exporter"

abbrev pub Text : Type 0
Text = List ℕ

-- The errors that end up in `LastError`; a text is the wrapped error's.
pub data Failure : Type 0 where
  check_failure download_failure hash_failure prepare_failure staging_failure : Text → Failure
  installed_version_failure release_version_failure : Text → Failure
  asset_size_failure : ℕ → Failure
  no_shutdown_callback : Failure

-- The errors of `RequestInstall`.
pub data Refusal : Type 0 where
  updater_stopped busy no_update : Refusal

-- `last_error` is `none` where the source has the empty text; a percentage is counted in steps.
pub record State : Type 0 where
  pub installed_version : Text
  pub latest_version : Text
  pub title : Text
  pub release_summary : Text
  pub release_url : Text
  pub last_error : Option Failure
  pub in_progress : Bool
  pub update_percentage : Option ℕ

-- The size is an int of the source; a negative one is modelled as 0, which is refused alike.
pub record Release : Type 0 where
  pub version : Text
  pub notes : Text
  pub url : Text
  pub size : ℕ

-- `heard` records the calls of listeners, oldest first; `installs` counts the goroutines that are
-- inside `install`, `checks` those that are inside `Check` or about to enter it, `switches` the calls of
-- `SetCheckEnabled` between its swap and its look at the state, and `withdrawals` those between that look
-- and `setNoUpdate`.
pub record Manager : Type 0 where
  pub current_version : Text
  pub state : State
  pub available : Option Release
  pub listeners : List ℕ
  pub next_id : ℕ
  pub started : Bool
  pub stopped : Bool
  pub checks_off : Bool
  pub installs : ℕ
  pub checks : ℕ
  pub switches : ℕ
  pub withdrawals : ℕ
  pub heard : List (ℕ × State)

unfoldable pub new_manager : Text → Manager
new_manager current = record {
  current_version = current;
  state = record {
    installed_version = current;
    latest_version = current;
    title = software_title;
    release_summary = [];
    release_url = [];
    last_error = none;
    in_progress = false;
    update_percentage = none;
  };
  available = none;
  listeners = [];
  next_id = 0;
  started = false;
  stopped = false;
  checks_off = false;
  installs = 0;
  checks = 0;
  switches = 0;
  withdrawals = 0;
  heard = [];
}

-- Every listener is called with the state.
unfoldable pub notify : Manager → Manager
notify m = record m { heard = m.heard ++ map (λ id. (id, m.state)) m.listeners }
