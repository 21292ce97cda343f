-- ===== src/Apply/Recovery.antt =====
-- internal/updater/apply_windows.go: what the next start does about the transactions it finds beside the
-- executable: finish one that was committed, clear one that never began, wait for a live helper, or
-- start a helper that rolls back. The files of two transactions differ, but for the target, which
-- nothing here changes; each has its world.
pub mod Evidence
pub mod Verdicts
pub mod Completion
pub mod Rescue
pub mod Handoff
use rig_exporter.Base.{
  ℕ, ◌+◌, ◌-◌, ◌*◌, Bool, true, false, not, ◌&&◌, ◌||◌, Option, none, some, List, [], ◌∷◌, ◌++◌,
  ltb, ◌==◌, if◌then◌else◌,
}
use rig_exporter.Base.Unicode.{list_eq}
use rig_exporter.Apply.{
  Text, File, target, stage, backup, helper, helper_ready, ready, journal, Content, marker, plan,
  Phase, prepared, rolled_back, read, Result, ok, err, World, M, attempt, ◌>>=◌, ◌>>◌, inquire,
  remove, replace_file, file_exists, file_sha256, start, pure, fail, Plan, Env,
  wait_for_process_marker, stop_monitored_process, cannot_inspect, Trouble,
}

-- The constant is 30 minutes; times are in seconds.
abbrev pub helper_marker_max_age : ℕ
helper_marker_max_age = 30 * 60

-- The clock, this process, the processes that run (`ProcessMatches` on the helper's path), and the lock.
pub record Ambient : Type 0 where
  pub now : ℕ
  pub own_pid : ℕ
  pub process_matches : ℕ → Result Bool
  pub lock : Bool

-- `ops.ReadFile`; none is `fs.ErrNotExist`
unfoldable pub read_file : File → M (Option Content)
unfolding inquire read
read_file f = inquire (cannot_inspect f) (λ d. some (read f d))

abbrev pub lift : {A : Type 0} → Result A → M A
lift r w = (r, w)

-- The version and the process of a marker, as `json.Unmarshal` leaves them.
pub record ReadyMarker : Type 0 where
  pub version : Text
  pub process : ℕ
  pub ready_at : Option ℕ

abbrev pub decode_marker : Option Content → Option ReadyMarker
decode_marker (some (marker version pid at)) =
    some (record { version = version; process = pid; ready_at = at })
decode_marker (some (plan phase parent)) =
    some (record { version = []; process = 0; ready_at = none })
decode_marker _ = none

abbrev pub too_old : ℕ → Option ℕ → Bool
too_old now none = false
too_old now (some at) = ltb helper_marker_max_age (now - at)

-- Whether a marker is another version's, or no process's.
unfoldable pub unfit : Plan → ReadyMarker → Bool
unfit p m = not (list_eq m.version p.expected_version) || m.process == 0

-- The marker of a live helper: too old a one describes no process.
unfoldable pub judge_helper : Ambient → Plan → Option ReadyMarker → M Bool
unfolding unfit
judge_helper a p none = pure false
judge_helper a p (some m) =
    if unfit p m
    then pure false
    else if too_old a.now m.ready_at
    then pure false
    else lift (a.process_matches m.process)

-- activeApplyHelper
unfoldable pub active_apply_helper : Ambient → Plan → M Bool
unfolding read_file judge_helper
active_apply_helper a p = read_file helper_ready >>= λ data'. judge_helper a p (decode_marker data')

-- The marker of the updated executable counts where the target has the digest.
unfoldable pub judge_ready : Plan → Option ReadyMarker → M Bool
unfolding unfit file_sha256
judge_ready p none = pure false
judge_ready p (some m) =
    if unfit p m
    then pure false
    else (do digest ← file_sha256 target; pure (digest == p.expected_digest))

-- applyReachedReady
unfoldable pub apply_reached_ready : Plan → M Bool
unfolding read_file judge_ready
apply_reached_ready p = read_file ready >>= λ data'. judge_ready p (decode_marker data')

-- finishCommittedApply
unfoldable pub finish_committed_apply : M (Unit {0})
unfolding remove
finish_committed_apply = do
  remove backup
  remove stage
  remove ready
  remove helper_ready
  remove helper
  remove journal

-- finishAbandonedPreparation
unfoldable pub finish_abandoned_preparation : M (Unit {0})
unfolding remove
finish_abandoned_preparation = do
  remove stage
  remove ready
  remove helper_ready
  ignored ← attempt (remove helper)
  remove journal

-- What the loop over the plans does after one of them: go on, note a handoff and go on, leave, or keep
-- it as the one to recover.
pub data Verdict : Type 0 where
  settled handed_over leaving interrupted : Verdict

abbrev is_rolled_back : Phase → Bool
is_rolled_back rolled_back = true
is_rolled_back prepared = false

-- Behind applyReachedReady: its end is cleaned up, or the lack of a backup tells that nothing was changed.
abbrev pub judge_reached : Ambient → Bool → Bool → M Verdict
judge_reached a backup_exists true =
    if a.lock then finish_committed_apply >> pure settled else pure handed_over
judge_reached a true false = pure interrupted
judge_reached a false false =
    if a.lock then finish_abandoned_preparation >> pure settled else pure leaving

abbrev pub judge_active : Ambient → Plan → Bool → Bool → M Verdict
judge_active a p backup_exists true = pure leaving
judge_active a p backup_exists false = apply_reached_ready p >>= judge_reached a backup_exists

-- Behind the rolled-back handoff: the rest of the loop's body.
unfoldable pub inspect_live : Ambient → Plan → Bool → M Verdict
unfolding active_apply_helper apply_reached_ready
inspect_live a p backup_exists = active_apply_helper a p >>= judge_active a p backup_exists

unfoldable pub judge_backup : Ambient → Plan → Phase → Bool → M Verdict
unfolding finish_abandoned_preparation inspect_live
judge_backup a p phase backup_exists =
    if is_rolled_back phase && not backup_exists
    then (if a.lock then finish_abandoned_preparation >> pure settled else pure handed_over)
    else inspect_live a p backup_exists

-- The body of the loop of recoverInterruptedApplyWith, for a plan of this executable.
unfoldable pub inspect_plan : Ambient → Plan → Phase → M Verdict
unfolding file_exists judge_backup
inspect_plan a p phase = file_exists backup >>= judge_backup a p phase

-- The handshake failed: the helper is stopped, and its marker goes.
unfoldable pub give_up : Env → List Trouble → M Bool
unfolding remove stop_monitored_process
give_up env e = do
  stopped ← attempt (stop_monitored_process env)
  elim stopped [
    | ok x ↦ (do ignored ← attempt (remove helper_ready); fail e)
    | err e' ↦ fail (e ++ e')
  ]

unfoldable pub shake_hands : Plan → Env → M Bool
unfolding wait_for_process_marker give_up
shake_hands p env = do
  reported ← attempt (wait_for_process_marker helper_ready p.expected_version env)
  elim reported [ ok x ↦ pure true | err e ↦ give_up env e ]

unfoldable pub launch_helper : Ambient → Plan → Phase → Env → Bool → M Bool
unfolding remove replace_file start shake_hands
launch_helper a p phase env false = fail (cannot_inspect helper ∷ [])
launch_helper a p phase env true = do
  remove helper_ready
  replace_file journal (plan phase a.own_pid)
  start helper
  shake_hands p env

-- Behind the loop, for the plan to recover: whether the caller must exit.
unfoldable pub start_recovery_helper : Ambient → Plan → Phase → Env → M Bool
unfolding file_exists launch_helper
start_recovery_helper a p phase env = file_exists helper >>= launch_helper a p phase env

-- A file that the listing has as a plan: one that cannot be read, decoded or validated, one of another
-- executable, or one of this, with its world.
pub data Entry : Type 0 where
  broken elsewhere : Entry
  own : Plan → Phase → World → Entry

-- The plan to recover.
pub record Pending : Type 0 where
  pub aim : Plan
  pub phase : Phase
  pub world : World

-- What the loop keeps.
pub record Found : Type 0 where
  pub recovery : Option Pending
  pub busy : Bool

-- The loop's end: an error, an exit at once, or what it kept.
pub data Looped : Type 0 where
  stopped exits : Looped
  through : Found → Looped

abbrev pub kept_by : Result Verdict × World → Plan → Phase → Found → (Found → Looped) → Looped
kept_by (err e, w) p phase k go = stopped
kept_by (ok settled, w) p phase k go = go k
kept_by (ok handed_over, w) p phase k go = go (record k { busy = true })
kept_by (ok leaving, w) p phase k go = exits
kept_by (ok interrupted, w) p phase k go = elim k.recovery [
  | some old ↦ stopped
  | none ↦ go (record k { recovery = some (record { aim = p; phase = phase; world = w }) })
]

unfoldable pub inspect_plans : Ambient → List Entry → Found → Looped
unfolding inspect_plan
inspect_plans a [] k = through k
inspect_plans a (broken ∷ es) k = stopped
inspect_plans a (elsewhere ∷ es) k = inspect_plans a es k
inspect_plans a (own p phase w ∷ es) k =
    kept_by (inspect_plan a p phase w) p phase k (inspect_plans a es)

-- Behind the loop.
unfoldable pub answer : Ambient → Env → Looped → Result Bool
unfolding start_recovery_helper
answer a env stopped = err []
answer a env exits = ok true
answer a env (through k) = elim k.recovery [
  | none ↦ ok (not a.lock && not k.busy)
  | some r ↦ if a.lock then (start_recovery_helper a r.aim r.phase env r.world).0 else ok true
]

-- recoverInterruptedApplyWith: whether the process must exit.
unfoldable pub recover_interrupted_apply : Ambient → Env → List Entry → Result Bool
unfolding inspect_plans answer
recover_interrupted_apply a env es =
    answer a env (inspect_plans a es (record { recovery = none; busy = false }))
