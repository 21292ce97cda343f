-- ===== src/Apply.antt =====
-- internal/updater/apply_windows.go: the helper that replaces the running executable, as one transaction
-- over the files beside it, and what the next start does about one that was cut off.
pub mod Files
pub mod Moves
pub mod Stages
pub mod Rollback
pub mod Commit
pub mod Safety
pub mod Recovery
pub mod Schedule
pub mod Update
pub mod Artifacts
mod Tests
use rig_exporter.Base.{
  ◌&&◌, ℕ, ◌+◌, ◌*◌, Bool, true, false, not, Option, none, some, List, [], ◌∷◌, ◌++◌, ◌==◌,
  if◌then◌else◌,
}
use rig_exporter.Base.Unicode.{list_eq}
unfoldable pub use Files.*

-- What the transaction is for: the version and the digest that the update was signed with.
pub record Plan : Type 0 where
  pub expected_version : Text
  pub expected_digest : ℕ
  pub parent : ℕ

-- One look at a marker: whether it could be read, what was there, and what the wait then woke up for.
pub data Wake : Type 0 where
  exited timed_out ticked : Wake

pub record Poll : Type 0 where
  pub readable : Bool
  pub seen : Option Content
  pub wake : Wake

-- What the environment does: the process id of the started executable, the looks at its marker, and
-- whether it stops when it is told to.
pub record Env : Type 0 where
  pub pid : ℕ
  pub polls : List Poll
  pub stops : Bool

-- A marker that decodes settles the wait; a journal decodes as one without a version.
unfoldable pub judge : Text → ℕ → Text → ℕ → Result (Unit {0})
judge expected pid version reported =
    if not (list_eq version expected)
    then err (wrong_version ∷ [])
    else if not (reported == pid)
    then err (wrong_process ∷ [])
    else ok tt

abbrev pub woken : Wake → Result (Unit {0}) → Result (Unit {0})
woken exited rest = err (exited_early ∷ [])
woken timed_out rest = err (not_ready ∷ [])
woken ticked rest = rest

abbrev pub looked : Text → ℕ → Bool → Option Content → Wake → Result (Unit {0}) → Result (Unit {0})
looked expected pid false seen wake rest = err (unreadable_marker ∷ [])
looked expected pid true (some (marker version reported at)) wake rest =
    judge expected pid version reported
looked expected pid true (some (plan phase parent)) wake rest = judge expected pid [] 0
looked expected pid true _ wake rest = woken wake rest

-- The loop of `waitForProcessMarker`; the list ends where the timer does.
unfoldable pub await : Text → ℕ → List Poll → Result (Unit {0})
unfolding judge
await expected pid [] = err (not_ready ∷ [])
await expected pid (p ∷ ps) =
    let rest = await expected pid ps in looked expected pid p.readable p.seen p.wake rest

-- What the process has left at the marker's name by the end of the wait.
unfoldable pub left_behind : List Poll → Option Content → Option Content
left_behind [] c = c
left_behind (p ∷ ps) c = left_behind ps p.seen

-- waitForProcessMarker
unfoldable pub wait_for_process_marker : File → Text → Env → M (Unit {0})
unfolding await left_behind read write
wait_for_process_marker f expected env w = (
  await expected env.pid env.polls,
  leave (write f (left_behind env.polls (read f w.disk)) w.disk) w,
)

-- stopMonitoredProcess
unfoldable pub stop_monitored_process : Env → M (Unit {0})
stop_monitored_process env w = if env.stops then (ok tt, w) else (err (not_stopped ∷ []), w)

-- `{}`, which decodes as a marker without a version.
abbrev pub no_marker : Content
no_marker = marker [] 0 none

-- The result of each removal is collected, and none stops the next.
unfoldable pub retire_marker : M (List Trouble)
unfolding remove replace_file
retire_marker = do
  removed ← attempt (remove helper_ready)
  elim removed [
    | ok a ↦ pure []
    | err e ↦ (do
      replaced ← attempt (replace_file helper_ready no_marker)
      pure (e ++ trouble_of replaced))
  ]

-- finishFailedApplyBeforeRestart: whether the handoff was recorded, and what went wrong
unfoldable pub finish_failed_apply_before_restart : Plan → M (Bool × List Trouble)
unfolding remove replace_file retire_marker
finish_failed_apply_before_restart p = do
  recorded ← attempt (replace_file journal (plan rolled_back p.parent))
  staged ← attempt (remove stage)
  marked ← attempt (remove ready)
  retired ← retire_marker
  pure (
    succeeded recorded,
    trouble_of recorded ++ (trouble_of staged ++ (trouble_of marked ++ retired)),
  )

abbrev pub raise_all : List Trouble → M (Unit {0})
raise_all [] = pure tt
raise_all (e ∷ es) = fail (e ∷ es)

unfoldable pub restart_if : Bool → M (List Trouble)
unfolding start
restart_if true = do started ← attempt (start target); pure (trouble_of started)
restart_if false = pure (journal_not_retired ∷ [])

-- restartUnchangedAfterApplyFailure
unfoldable pub restart_unchanged : Plan → List Trouble → M (Unit {0})
unfolding finish_failed_apply_before_restart restart_if
restart_unchanged p cause = do
  finished ← finish_failed_apply_before_restart p
  restarted ← restart_if finished.0
  fail (cause ++ (finished.1 ++ restarted))

-- `rollbackApply` behind the stop of the process
unfoldable pub restore_backup : Plan → M (Unit {0})
unfolding replace_path finish_failed_apply_before_restart restart_if
restore_backup p = do
  replace_path backup target
  finished ← finish_failed_apply_before_restart p
  restarted ← restart_if finished.0
  raise_all (finished.1 ++ restarted)

-- rollbackApply; `env` is none where no process was started
unfoldable pub rollback_apply : Plan → Option Env → M (Unit {0})
unfolding stop_monitored_process restore_backup
rollback_apply p none = restore_backup p
rollback_apply p (some env) = stop_monitored_process env >> restore_backup p

-- The cause, joined with rollbackFailure's error.
unfoldable pub rollback_failure : Plan → Option Env → List Trouble → M (Unit {0})
unfolding rollback_apply
rollback_failure p env cause = do
  rolled ← attempt (rollback_apply p env)
  elim rolled [ ok a ↦ fail (cause ++ restored ∷ []) | err e ↦ fail (cause ++ e) ]

-- finishCommittedApplyFromHelper
unfoldable pub finish_committed_apply_from_helper : M (Unit {0})
unfolding remove
finish_committed_apply_from_helper = do
  remove backup
  remove stage
  remove ready
  remove helper_ready
  remove journal

-- Behind the installation: the new executable is started and has to report.
unfoldable pub start_updated : Plan → Env → M (Unit {0})
unfolding start wait_for_process_marker rollback_failure finish_committed_apply_from_helper
start_updated p env = do
  started ← attempt (start target)
  elim started [
    | err e ↦ rollback_failure p none e
    | ok a ↦ (do
      reported ← attempt (wait_for_process_marker ready p.expected_version env)
      elim reported [
        | err e ↦ rollback_failure p (some env) e
        | ok b ↦ finish_committed_apply_from_helper
      ])
  ]

-- Behind the check of the staged executable: back up, and replace by one rename.
unfoldable pub install_staged : Plan → Env → M (Unit {0})
unfolding copy_file restart_unchanged replace_path rollback_failure start_updated
install_staged p env = do
  copied' ← attempt (copy_file target backup)
  elim copied' [
    | err e ↦ restart_unchanged p e
    | ok a ↦ (do
      installed ← attempt (replace_path stage target)
      elim installed [ err e ↦ rollback_failure p none e | ok b ↦ start_updated p env ])
  ]

-- `runLockedApplyTransaction` where there is no backup
unfoldable pub apply_staged : Plan → Env → M (Unit {0})
unfolding file_sha256 restart_unchanged install_staged
apply_staged p env = do
  hashed ← attempt (file_sha256 stage)
  elim hashed [
    | err e ↦ restart_unchanged p e
    | ok digest ↦
        if digest == p.expected_digest
        then install_staged p env
        else restart_unchanged p (changed_stage ∷ [])
  ]

-- runLockedApplyTransaction
unfoldable pub run_locked_apply_transaction : Plan → Env → M (Unit {0})
unfolding file_exists rollback_apply apply_staged
run_locked_apply_transaction p env = do
  cut_off ← file_exists backup
  if cut_off then rollback_apply p none else apply_staged p env

-- The helper's process, the time, whether the parent exits in time, and whether the lock is then had in time.
pub record Helper : Type 0 where
  pub process : ℕ
  pub now : ℕ
  pub parent_exits : Bool
  pub owned : Bool

-- `runApplyHelperWith` behind the validation of the plan
unfoldable pub run_apply_helper : Plan → Helper → Env → M (Unit {0})
unfolding remove replace_file run_locked_apply_transaction
run_apply_helper p h env = do
  remove ready
  replace_file helper_ready (marker p.expected_version h.process (some h.now))
  if h.parent_exits && h.owned then run_locked_apply_transaction p env else fail (not_ready ∷ [])
