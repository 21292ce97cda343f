-- ===== src/Apply/Commit.antt =====
-- internal/updater/apply_windows.go: the end of the transaction: the new executable is in place, and it
-- reports itself, or the old one comes back.
use rig_exporter.Base.{◌≡◌, inl, inr, refl, Bool, true, false, Option, none, some}
use rig_exporter.Apply.{
  File, target, stage, backup, helper_ready, ready, journal, Content, read, write, Result, ok, err,
  World, M, attempt, ◌>>=◌, ◌>>◌, tick, remove, start, digest_of, Plan, Env, await, left_behind,
  wait_for_process_marker, cannot_remove, rollback_failure, finish_committed_apply_from_helper,
  start_updated,
}
use rig_exporter.Apply.Moves.{
  After, Leads, Keeps, After-set, Leads-bind, Leads-attempt, Leads-weaken,
}
use rig_exporter.Apply.Stages.{
  Stage-Safe, tick-Stage, leave-Stage, start-Keeps, remove-stage-Keeps, remove-ready-Keeps,
  remove-helper_ready-Keeps,
}
use rig_exporter.Apply.Rollback.{Healthy, Recoverable, At, Sound, rollback_failure_fails}

module _ (o : Content) (p : Plan) (env : Env) where
  waited_cases :
      (t b : Option Content) (r : Result (Unit {0})) (w : World)
      → await p.expected_version env.pid env.polls ≡ r
      → At o p env t b w
      → After (λ _ w'. At o p env t b w' × Healthy p env) (At o p env t b) (r, w)
  waited_cases t b (ok tt) w e s = (s, e)
  waited_cases t b (err x) w e s = s

  -- A wait that ends well has seen the new executable report itself.
  waited-Leads :
      (t b : Option Content)
      → Recoverable o p env t b true
      → Leads
          (At o p env t b)
          (λ _ w. At o p env t b w × Healthy p env)
          (At o p env t b)
          (wait_for_process_marker ready p.expected_version env)
  unfolding wait_for_process_marker write read
  waited-Leads t b g w s = waited_cases t b (await p.expected_version env.pid env.polls) _ refl (
      leave-Stage (Recoverable o p env) t b
        (write ready (left_behind env.polls (read ready w.disk)) w.disk) w g s.target_is s.backup_is
        s.kept s.past)

  -- The update has been installed for good: no backup and no journal are left.
  pub record Committed (w : World) : Type 0 where
    pub installed : digest_of (read target w.disk) ≡ some p.expected_digest
    pub healthy : Healthy p env
    pub no_backup : read backup w.disk ≡ none
    pub no_journal : read journal w.disk ≡ none
    pub sound : Sound o p env w

  module _ (t : Option Content) (new : digest_of t ≡ some p.expected_digest) where
    pub backed_up : Recoverable o p env t (some o) true
    backed_up = (inr refl, inr (new, inl (refl, refl)))

    healthy_good : (j : Bool) → Healthy p env → Recoverable o p env t none j
    healthy_good j h = (inl refl, inr (new, inr h))

    kept-Sound :
        (b : Option Content)
        → Recoverable o p env t b true
        → (w : World) → At o p env t b w
        → Sound o p env w
    kept-Sound b g w s = Stage-Safe (Recoverable o p env) t b w g s

    -- One removal of a clean-up, and the rest of it.
    cleaned :
        (f : File) (k : M (Unit {0}))
        → Keeps (At o p env t none) (remove f)
        → Leads (At o p env t none) (λ _. Committed) (At o p env t none) k
        → Leads (At o p env t none) (λ _. Committed) (At o p env t none) (remove f >> k)
    cleaned f k h rest =
        Leads-bind (At o p env t none) (λ _. At o p env t none) (λ _. Committed) (At o p env t none)
          (remove f) (λ _. k) h (λ _. rest)

    remove-backup-Leads :
        Healthy p env
        → Leads
            (At o p env t (some o))
            (λ _. At o p env t none)
            (At o p env t (some o))
            (remove backup)
    unfolding remove write read
    remove-backup-Leads h w s =
        After-set (λ _. At o p env t none) (At o p env t (some o)) (cannot_remove backup)
          (write backup none) w (tick-Stage (Recoverable o p env) t (some o) w s)
          (leave-Stage (Recoverable o p env) t none (write backup none w.disk) (tick w)
            (healthy_good true h) s.target_is refl s.kept s.past)

    remove-journal-Leads :
        Healthy p env
        → Leads (At o p env t none) (λ _. Committed) (At o p env t none) (remove journal)
    unfolding remove write read
    remove-journal-Leads h w s =
        After-set (λ _. Committed) (At o p env t none) (cannot_remove journal) (write journal none)
          w (tick-Stage (Recoverable o p env) t none w s)
          (record {
            installed = rw s.target_is new;
            healthy = h;
            no_backup = s.backup_is;
            no_journal = refl;
            sound = record {
              now = rw (s.target_is, s.backup_is) (healthy_good false h);
              before = (rw (s.target_is, s.backup_is) (healthy_good false h), s.past);
            };
          })

    -- The backup is removed first and the journal last; a removal that fails leaves both ends sound.
    pub finish_committed_apply_from_helper-Leads :
        Healthy p env
        → Leads
            (At o p env t (some o))
            (λ _. Committed)
            (Sound o p env)
            finish_committed_apply_from_helper
    unfolding finish_committed_apply_from_helper
    finish_committed_apply_from_helper-Leads h =
        Leads-bind (At o p env t (some o)) (λ _. At o p env t none) (λ _. Committed) (Sound o p env)
          (remove backup)
          (λ _. remove stage >> (remove ready >> (remove helper_ready >> remove journal)))
          (Leads-weaken (At o p env t (some o)) (λ _. At o p env t none) (Sound o p env)
            (At o p env t (some o)) (remove backup) (remove-backup-Leads h)
            (kept-Sound (some o) backed_up))
          (λ _.
            Leads-weaken (At o p env t none) (λ _. Committed) (Sound o p env) (At o p env t none)
              (remove stage >> (remove ready >> (remove helper_ready >> remove journal)))
              (cleaned stage _
                (remove-stage-Keeps (Recoverable o p env) t none (healthy_good true h))
                (cleaned ready _
                  (remove-ready-Keeps (Recoverable o p env) t none (healthy_good true h))
                  (cleaned helper_ready _
                    (remove-helper_ready-Keeps (Recoverable o p env) t none (healthy_good true h))
                    (remove-journal-Leads h))))
              (kept-Sound none (healthy_good true h)))

    pub start_updated-Leads :
        Leads (At o p env t (some o)) (λ _. Committed) (Sound o p env) (start_updated p env)
    unfolding start_updated
    start_updated-Leads =
        Leads-attempt (At o p env t (some o)) (λ _. At o p env t (some o)) (λ _. Committed)
          (Sound o p env) (At o p env t (some o)) (start target)
          (λ started. elim started [
            | err e ↦ rollback_failure p none e
            | ok a ↦ (do
              reported ← attempt (wait_for_process_marker ready p.expected_version env)
              elim reported [
                | err e ↦ rollback_failure p (some env) e
                | ok b ↦ finish_committed_apply_from_helper
              ])
          ])
          (start-Keeps (Recoverable o p env) t (some o) target)
          (λ a.
            Leads-attempt (At o p env t (some o)) (λ _ w. At o p env t (some o) w × Healthy p env)
              (λ _. Committed) (Sound o p env) (At o p env t (some o))
              (wait_for_process_marker ready p.expected_version env)
              (λ reported. elim reported [
                | err e ↦ rollback_failure p (some env) e
                | ok b ↦ finish_committed_apply_from_helper
              ])
              (waited-Leads t (some o) backed_up)
              (λ b w s. finish_committed_apply_from_helper-Leads s.1 w s.0)
              (λ e. rollback_failure_fails o p env t true e (λ _. Committed) backed_up))
          (λ e. rollback_failure_fails o p env t false e (λ _. Committed) backed_up)
