-- ===== src/Updater.antt =====
-- internal/updater/manager.go: the update manager. A critical section of the source, with the
-- notification behind it, is one function on the manager's state. What the network, the disk and the
-- helper process answer is an argument; texts are lists of code points.
pub mod Data
pub mod Summary
pub mod Source
pub mod Counting
pub mod Invariant
pub mod Requests
pub mod Budget
mod Tests
use rig_exporter.Base.{
  [], ℕ, ◌+◌, ◌-◌, ◌*◌, Bool, true, false, not, ◌||◌, Option, none, some, List, ◌∷◌, ◌++◌, ltb, leb,
  ◌==◌, if◌then◌else◌,
}
use rig_exporter.Base.Unicode.{Unicode}
use rig_exporter.Updater.Summary.{summarize}
unfoldable pub use Data.*

unfoldable pub subscribe : Manager → Manager × ℕ
subscribe m = (
  record m {
    next_id = m.next_id + 1;
    listeners = m.listeners ++ m.next_id ∷ [];
    heard = m.heard ++ (m.next_id, m.state) ∷ [];
  },
  m.next_id,
)

unfoldable pub without : ℕ → List ℕ → List ℕ
without id [] = []
without id (x ∷ xs) = let rest = without id xs in if x == id then rest else x ∷ rest

-- the function that `Subscribe` returns
unfoldable pub unsubscribe : ℕ → Manager → Manager
unfolding without
unsubscribe id m = record m { listeners = without id m.listeners }

unfoldable pub check_failed : Failure → Manager → Manager
unfolding notify
check_failed f m = notify (record m { state = record m.state { last_error = some f } })

unfoldable pub set_no_update : Manager → Manager
unfolding notify
set_no_update m = notify (record m {
  available = none;
  state = record m.state {
    latest_version = m.current_version;
    title = software_title;
    release_summary = [];
    release_url = [];
    last_error = none;
  };
})

-- What the release source answers.
pub data Latest : Type 0 where
  failed : Text → Latest
  missing : Latest
  found : Release → Latest

-- The version library is not part of the repository: `parse_version` and `greater` are
-- semver.NewVersion and Version.GreaterThan.
module _ (u : Unicode) {V : Type 0} (parse_version : Text → Option V) (greater : V → V → Bool) where
  unfoldable pub offer : Release → Manager → Manager
  unfolding notify
  offer r m = notify (record m {
    available = some r;
    state = record m.state {
      latest_version = r.version;
      title = software_title;
      release_summary = summarize u r.notes;
      release_url = r.url;
      last_error = none;
    };
  })

  -- `Check` behind the two parsed versions
  unfoldable pub compare_release : V → V → Release → Manager → Manager
  unfolding offer check_failed set_no_update
  compare_release current latest r m =
      if not (greater latest current)
      then set_no_update m
      else if r.size == 0 || ltb max_release_size r.size
      then check_failed (asset_size_failure r.size) m
      else offer r m

  unfoldable pub check_release : Option V → Option V → Release → Manager → Manager
  unfolding compare_release
  check_release none latest r m = check_failed (installed_version_failure m.current_version) m
  check_release (some current) none r m = check_failed (release_version_failure r.version) m
  check_release (some current) (some latest) r m = compare_release current latest r m

  unfoldable pub check : Latest → Manager → Manager
  unfolding check_release
  check (failed e) m = check_failed (check_failure e) m
  check missing m = set_no_update m
  check (found r) m = check_release (parse_version m.current_version) (parse_version r.version) r m

unfoldable pub begin_install : Manager → Manager
unfolding notify
begin_install m = notify (record m {
  installs = m.installs + 1;
  state = record m.state { in_progress = true; update_percentage = none; last_error = none };
})

unfoldable pub request_install : Manager → Manager × Option Refusal
unfolding begin_install
request_install m =
    if m.stopped
    then (m, some updater_stopped)
    else if m.state.in_progress
    then (m, some busy)
    else elim m.available [ none ↦ (m, some no_update) | some r ↦ (begin_install m, none) ]

unfoldable pub install_failed : Failure → Manager → Manager
unfolding notify
install_failed f m = notify (record m {
  state = record m.state { in_progress = false; update_percentage = none; last_error = some f };
})

-- The end of a successful preparation, before the restart is requested.
unfoldable pub install_prepared : Manager → Manager
unfolding notify
install_prepared m = notify (record m { state = record m.state { update_percentage = none } })

-- A percentage, in steps, that may be negative.
pub data Percent : Type 0 where
  below_zero : Percent
  steps : ℕ → Percent

-- `point` is the number of steps that stand for one percent.
unfoldable pub clamp : ℕ → Percent → ℕ
clamp point below_zero = 0
clamp point (steps n) = if leb n (100 * point) then n else 100 * point

unfoldable pub report_progress : ℕ → Percent → Manager → Manager
unfolding notify clamp
report_progress point p m =
    if not m.state.in_progress
    then m
    else notify (record m { state = record m.state { update_percentage = some (clamp point p) } })

-- How the parts of one run of `install` end: the progress reports of the download, and for each part
-- that can fail `none` or its error.
pub record Run : Type 0 where
  pub can_restart : Bool
  pub staging : Option Text
  pub reports : List Percent
  pub download : Option Text
  pub digest : Option Text
  pub prepare : Option Text

unfoldable pub report_all : ℕ → List Percent → Manager → Manager
unfolding report_progress
report_all point [] m = m
report_all point (p ∷ ps) m = report_all point ps (report_progress point p m)

-- `install` behind the download; the result's Boolean says whether the restart was requested.
unfoldable pub finish_install : Run → Manager → Manager × Bool
unfolding install_failed install_prepared
finish_install run m = elim run.digest [
  | some e ↦ (install_failed (hash_failure e) m, false)
  | none ↦ elim run.prepare [
    | some e ↦ (install_failed (prepare_failure e) m, false)
    | none ↦ (install_prepared m, true)
  ]
]

unfoldable pub install : ℕ → Run → Manager → Manager × Bool
unfolding finish_install report_all
install point run m =
    if not run.can_restart
    then (install_failed no_shutdown_callback m, false)
    else elim run.staging [
      | some e ↦ (install_failed (staging_failure e) m, false)
      | none ↦
          let m' = report_all point run.reports m in
          elim run.download [
            | some e ↦ (install_failed (download_failure e) m', false)
            | none ↦ finish_install run m'
          ]
    ]

-- The three critical sections of `SetCheckEnabled(false)`, between which others run: the swap, which ends the
-- call where the checks were off already; the look at the state, which ends it during an install; and
-- `setNoUpdate`.
unfoldable pub swap_off : Manager → Manager
swap_off m = if m.checks_off then m else record m { checks_off = true; switches = m.switches + 1 }

unfoldable pub look : Manager → Manager
look m = record m {
  switches = m.switches - 1;
  withdrawals = if m.state.in_progress then m.withdrawals else m.withdrawals + 1;
}

unfoldable pub withdraw : Manager → Manager
unfolding set_no_update
withdraw m = set_no_update (record m { withdrawals = m.withdrawals - 1 })

-- `SetCheckEnabled` where nothing runs in between; the Boolean says whether a check is started.
unfoldable pub set_check_enabled : Bool → Manager → Manager × Bool
unfolding swap_off look withdraw
set_check_enabled true m = (record m { checks_off = false }, m.checks_off)
set_check_enabled false m =
    if m.checks_off
    then (m, false)
    else if m.state.in_progress
    then (look (swap_off m), false)
    else (withdraw (look (swap_off m)), false)

-- `Start`; the Boolean says whether the periodic checks are started.
unfoldable pub start : Manager → Manager × Bool
start m = if m.started || m.stopped then (m, false) else (record m { started = true }, true)

unfoldable pub stop : Manager → Manager
stop m = record m { stopped = true }

-- The test of `checksOff` in `checkWithTimeout`; the check itself ends later.
unfoldable pub begin_check : Manager → Manager
begin_check m = if m.checks_off then m else record m { checks = m.checks + 1 }
