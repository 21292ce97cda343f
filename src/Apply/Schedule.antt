-- ===== src/Apply/Schedule.antt =====
-- internal/updater/apply_windows.go: the running process prepares a transaction beside its executable and
-- hands it to a helper.
pub mod Handover
pub mod Withdrawal
use rig_exporter.Base.{◌+◌, Option, none, some, List, [], ◌∷◌, ◌++◌, ◌==◌, if◌then◌else◌}
use rig_exporter.Apply.{
  File, target, stage, helper, helper_ready, journal, Content, plan, prepared, Disk, read, write,
  ok, err, M, attempt, ◌>>=◌, ◌>>◌, Trouble, change, remove, copied, copy_file, file_sha256, start,
  pure, fail, Plan, Env, wait_for_process_marker, stop_monitored_process, cannot_copy, cannot_write,
  changed_stage,
}

abbrev pub created : Option Content → File → Content → Disk → Option Disk
created none f c d = some (write f (some c) d)
created (some old) f c d = none

-- `ops.CreateFile`: the last rename refuses to replace a file
unfoldable pub create_file : File → Content → M (Unit {0})
unfolding change read write
create_file f c = change (cannot_write f) (λ d. created (read f d) f c d)

-- `ops.CopyFile` from the download, which is outside of the transaction
unfoldable pub stage_download : Option Content → M (Unit {0})
unfolding change read write
stage_download new = change (cannot_copy stage) (λ d. copied new (read stage d) stage d)

-- The closure `cleanup`: the created files, the last one first; its errors are dropped.
unfoldable pub clean_up : List File → M (Unit {0})
unfolding remove
clean_up [] = pure tt
clean_up (f ∷ fs) = attempt (remove f) >>= λ ignored. clean_up fs

abbrev pub clean_and_fail : List File → List Trouble → M (Unit {0})
clean_and_fail fs e = clean_up fs >> fail e

abbrev pub all_created : List File
all_created = journal ∷ stage ∷ helper ∷ []

-- The helper did not report itself: only one that is known to have stopped loses its plan.
unfoldable pub withdraw : Env → List Trouble → M (Unit {0})
unfolding stop_monitored_process remove clean_up
withdraw env e = do
  stopped ← attempt (stop_monitored_process env)
  elim stopped [
    | ok x ↦ attempt (remove helper_ready) >> clean_and_fail all_created e
    | err e' ↦ fail (e ++ e')
  ]

unfoldable pub launch : Plan → Env → M (Unit {0})
unfolding start clean_up wait_for_process_marker withdraw
launch p env = do
  started ← attempt (start helper)
  elim started [
    | err e ↦ clean_and_fail all_created e
    | ok x ↦ (do
      reported ← attempt (wait_for_process_marker helper_ready p.expected_version env)
      elim reported [ ok y ↦ pure tt | err e ↦ withdraw env e ])
  ]

unfoldable pub publish_plan : Plan → Env → M (Unit {0})
unfolding create_file clean_up launch
publish_plan p env = do
  written ← attempt (create_file journal (plan prepared p.parent))
  elim written [ err e ↦ clean_and_fail (stage ∷ helper ∷ []) e | ok x ↦ launch p env ]

unfoldable pub verify_stage : Plan → Env → M (Unit {0})
unfolding file_sha256 clean_up publish_plan
verify_stage p env = do
  hashed ← attempt (file_sha256 stage)
  elim hashed [
    | err e ↦ clean_and_fail (stage ∷ helper ∷ []) e
    | ok digest ↦
        if digest == p.expected_digest
        then publish_plan p env
        else clean_and_fail (stage ∷ helper ∷ []) (changed_stage ∷ [])
  ]

-- `scheduleApplyWithTimeouts` behind the checks of its arguments: with the lock held, from the first copy
unfoldable pub schedule_apply : Option Content → Plan → Env → M (Unit {0})
unfolding copy_file stage_download clean_up verify_stage
schedule_apply new p env = do
  copy_file target helper
  staged ← attempt (stage_download new)
  elim staged [ err e ↦ clean_and_fail (helper ∷ []) e | ok x ↦ verify_stage p env ]
