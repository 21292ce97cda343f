-- ===== src/Apply/Rollback.antt =====
-- internal/updater/apply_windows.go: the rollback, from a target with the update and a backup of the old
-- executable, whichever of its operations fail.
use rig_exporter.Base.{
  ℕ, ◌≡◌, ◌⊎◌, inl, inr, refl, ap, ◌∙◌, Bool, true, false, Option, none, some, List, [], ◌∷◌, ◌++◌,
  arith, if◌then◌else◌, Bool-cases,
}
use rig_exporter.Apply.{
  File, target, backup, journal, Content, Disk, read, write, ok, err, World, ◌>>=◌, tick, Trouble,
  replace_path, is_there, copied, moved, digest_of, fail, Plan, Env, await, stop_monitored_process,
  finish_failed_apply_before_restart, raise_all, restart_if, cannot_replace, restore_backup,
  rollback_apply, rollback_failure, restored,
}
use rig_exporter.Apply.Moves.{Leads, Keeps, After-change, Leads-bind, Leads-attempt, Leads-weaken}
use rig_exporter.Apply.Stages.{
  Files, Stage, Safe, Keeps-bind, Stage-Safe, tick-Stage, leave-Stage, finish_failed-Keeps,
  restart_if-Keeps, raise_all-Keeps,
}

-- The new executable has reported its version under its own process id.
abbrev pub Healthy : Plan → Env → Type 0
Healthy p env = await p.expected_version env.pid env.polls ≡ ok tt

-- The backup, if there is one, is the old executable. The target is the old executable too; or it has the
-- digest of the update, and the backup is there beside a journal, or there is the evidence `sure`.
abbrev pub Replaceable : Content → ℕ → Type 0 → Files
Replaceable o digest sure t b j =
    ((b ≡ none) ⊎ (b ≡ some o))
    × ((t ≡ some o) ⊎ ((digest_of t ≡ some digest) × (((b ≡ some o) × (j ≡ true)) ⊎ sure)))

abbrev pub Recoverable : Content → Plan → Env → Files
Recoverable o p env = Replaceable o p.expected_digest (Healthy p env)

pub copied_lem :
    (o : Content) (t b : Option Content) (d d' : Disk)
    → t ≡ some o
    → b ≡ none
    → copied t b backup d ≡ some d'
    → d' ≡ write backup (some o) d
copied_lem o (some c) none d d' ht hb h = ground arith
copied_lem o (some c) (some b) d d' ht hb h = ground arith
copied_lem o none b d d' ht hb h = ground arith

pub moved_lem :
    (c : Option Content) (from to : File) (d d' : Disk)
    → moved c from to d ≡ some d'
    → d' ≡ write from none (write to c d)
moved_lem (some c) from to d d' h = ground arith
moved_lem none from to d d' h = ground arith

module _ (o : Content) (p : Plan) (env : Env) where
  -- The target and the backup, while all disks so far are recoverable.
  abbrev pub At : Option Content → Option Content → World → Type 0
  At t b = Stage (Recoverable o p env) t b

  abbrev pub Sound : World → Type 0
  Sound w = Safe (Recoverable o p env) w

  pub restored_good : Recoverable o p env (some o) none true
  restored_good = (inl refl, inl refl)

  restored-Leads :
      (t : Option Content)
      → Leads (At t (some o)) (λ _. At (some o) none) (At t (some o)) (replace_path backup target)
  unfolding replace_path read write
  restored-Leads t w s =
      After-change (λ _. At (some o) none) (At t (some o)) (cannot_replace target)
        (λ d. moved (read backup d) backup target d) w
        (tick-Stage (Recoverable o p env) t (some o) w s)
        (λ d q.
          let e = moved_lem (read backup w.disk) backup target w.disk d q in
          leave-Stage (Recoverable o p env) (some o) none d (tick w) restored_good
            (ap (read target) e ∙ s.backup_is) (ap (read backup) e)
            (ap (λ x. is_there (read journal x)) e ∙ s.kept) s.past)

  -- The backup comes back: the old executable is the target whatever it was before.
  pub restore_backup-Leads :
      (t : Option Content)
      → Recoverable o p env t (some o) true
      → Leads (At t (some o)) (λ _. At (some o) none) Sound (restore_backup p)
  unfolding restore_backup
  restore_backup-Leads t g =
      Leads-bind (At t (some o)) (λ _. At (some o) none) (λ _. At (some o) none) Sound
        (replace_path backup target) _
        (Leads-weaken (At t (some o)) (λ _. At (some o) none) Sound (At t (some o))
          (replace_path backup target) (restored-Leads t)
          (λ w s. Stage-Safe (Recoverable o p env) t (some o) w g s))
        (λ a.
          Leads-weaken (At (some o) none) (λ _. At (some o) none) Sound (At (some o) none) _
            (Keeps-bind (At (some o) none) (finish_failed_apply_before_restart p)
              (λ finished.
                restart_if finished.0 >>= λ restarted. raise_all (finished.1 ++ restarted))
              (finish_failed-Keeps (Recoverable o p env) (some o) none p restored_good)
              (λ finished.
                Keeps-bind (At (some o) none) (restart_if finished.0)
                  (λ restarted. raise_all (finished.1 ++ restarted))
                  (restart_if-Keeps (Recoverable o p env) (some o) none finished.0)
                  (λ restarted.
                    raise_all-Keeps (Recoverable o p env) (some o) none (finished.1 ++ restarted))))
            (λ w s. Stage-Safe (Recoverable o p env) (some o) none w restored_good s))

  stop-Keeps : (t b : Option Content) → Keeps (At t b) (stop_monitored_process env)
  unfolding stop_monitored_process
  stop-Keeps t b w s = elim (Bool-cases env.stops) [ inl e ↦ rw e s | inr e ↦ rw e s ]

  pub rollback_apply-Leads :
      (t : Option Content) (started : Bool)
      → Recoverable o p env t (some o) true
      → Leads
          (At t (some o))
          (λ _. At (some o) none)
          Sound
          (rollback_apply p (if started then some env else none))
  unfolding rollback_apply
  rollback_apply-Leads t false g = restore_backup-Leads t g
  rollback_apply-Leads t true g =
      Leads-bind (At t (some o)) (λ _. At t (some o)) (λ _. At (some o) none) Sound
        (stop_monitored_process env) (λ _. restore_backup p)
        (Leads-weaken (At t (some o)) (λ _. At t (some o)) Sound (At t (some o))
          (stop_monitored_process env) (stop-Keeps t (some o))
          (λ w s. Stage-Safe (Recoverable o p env) t (some o) w g s))
        (λ a. restore_backup-Leads t g)

  -- A rollback that a failure calls for ends in an error.
  pub rollback_failure_fails :
      (t : Option Content) (started : Bool) (cause : List Trouble) (Q : Unit {0} → World → Type 0)
      → Recoverable o p env t (some o) true
      → Leads
          (At t (some o))
          Q
          Sound
          (rollback_failure p (if started then some env else none) cause)
  unfolding rollback_failure
  rollback_failure_fails t started cause Q g =
      Leads-attempt (At t (some o)) (λ _. At (some o) none) Q Sound Sound
        (rollback_apply p (if started then some env else none))
        (λ r. elim r [ ok a ↦ fail (cause ++ restored ∷ []) | err e ↦ fail (cause ++ e) ])
        (rollback_apply-Leads t started g)
        (λ a w s. Stage-Safe (Recoverable o p env) (some o) none w restored_good s) (λ e w s. s)
