-- ===== src/Apply/Safety.antt =====
-- internal/updater/apply_windows.go: whatever fails and wherever the helper is cut off, the target is an
-- executable that runs or that the next start can put back.
use rig_exporter.Base.{
  ◌≡◌, inl, inr, refl, ap, ◌∙◌, Bool, true, false, Option, none, some, List, [], ◌∷◌, arith, ◌==◌,
  if◌then◌else◌, ==→eq, Bool-cases,
}
use rig_exporter.Apply.{
  target, stage, backup, journal, Content, read, write, ok, err, World, attempt, ◌>>=◌, tick,
  Trouble, copy_file, replace_path, file_exists, file_sha256, is_there, copied, moved, digest_of,
  Plan, Env, restart_unchanged, cannot_copy, cannot_replace, cannot_hash, cannot_inspect,
  rollback_apply, rollback_failure, start_updated, install_staged, apply_staged,
  run_locked_apply_transaction, changed_stage,
}
use rig_exporter.Apply.Moves.{
  After, Leads, After-change, After-inquire, Leads-bind, Leads-attempt, Leads-weaken,
}
use rig_exporter.Apply.Stages.{Stage-Safe, tick-Stage, leave-Stage, restart_unchanged_fails}
use rig_exporter.Apply.Rollback.{
  Recoverable, copied_lem, moved_lem, At, Sound, rollback_apply-Leads, rollback_failure_fails,
}
use rig_exporter.Apply.Commit.{Committed, backed_up, start_updated-Leads}

module _ (o : Content) (p : Plan) (env : Env) where
  some_lem : (x : Bool) (b c : Option Content) → c ≡ b → some (is_there c) ≡ some x → x ≡ is_there b
  some_lem x b c e q = rw (← e) (ground arith)

  -- The staged file still has the digest that was signed.
  abbrev Staged : World → Type 0
  Staged w = digest_of (read stage w.disk) ≡ some p.expected_digest

  unchanged : Recoverable o p env (some o) none true
  unchanged = (inl refl, inl refl)

  kept_up : Recoverable o p env (some o) (some o) true
  kept_up = (inr refl, inl refl)

  copied-Leads :
      Leads
        (λ w. At o p env (some o) none w × Staged w)
        (λ _ w. At o p env (some o) (some o) w × Staged w)
        (At o p env (some o) none)
        (copy_file target backup)
  unfolding copy_file read write
  copied-Leads w s =
      After-change (λ _ w'. At o p env (some o) (some o) w' × Staged w') (At o p env (some o) none)
        (cannot_copy backup) (λ d. copied (read target d) (read backup d) backup d) w
        (tick-Stage (Recoverable o p env) (some o) none w s.0)
        (λ d q.
          let e =
            copied_lem o (read target w.disk) (read backup w.disk) w.disk d s.0.target_is
              s.0.backup_is q in
          (
            leave-Stage (Recoverable o p env) (some o) (some o) d (tick w) kept_up
                (ap (read target) e ∙ s.0.target_is) (ap (read backup) e)
                (ap (λ x. is_there (read journal x)) e ∙ s.0.kept) s.0.past,
            ap (λ x. digest_of (read stage x)) e ∙ s.1,
          ))

  -- The target is then what was staged, an executable with the digest of the update.
  record Installed (w : World) : Type 0 where
    new : Option Content
    right : digest_of new ≡ some p.expected_digest
    stands : At o p env new (some o) w

  Installed-Leads :
      Leads
        (λ w. At o p env (some o) (some o) w × Staged w)
        (λ _. Installed)
        (At o p env (some o) (some o))
        (replace_path stage target)
  unfolding replace_path read write
  Installed-Leads w s =
      After-change (λ _. Installed) (At o p env (some o) (some o)) (cannot_replace target)
        (λ d. moved (read stage d) stage target d) w
        (tick-Stage (Recoverable o p env) (some o) (some o) w s.0)
        (λ d q.
          let e = moved_lem (read stage w.disk) stage target w.disk d q in
          record {
            new = read stage w.disk;
            right = s.1;
            stands =
                leave-Stage (Recoverable o p env) (read stage w.disk) (some o) d (tick w)
                  (backed_up o p env (read stage w.disk) s.1) (ap (read target) e)
                  (ap (read backup) e ∙ s.0.backup_is)
                  (ap (λ x. is_there (read journal x)) e ∙ s.0.kept) s.0.past;
          })

  fails-Unchanged :
      (cause : List Trouble)
      → Leads
          (At o p env (some o) none)
          (λ _. Committed o p env)
          (Sound o p env)
          (restart_unchanged p cause)
  fails-Unchanged cause =
      Leads-weaken (At o p env (some o) none) (λ _. Committed o p env) (Sound o p env)
        (At o p env (some o) none) (restart_unchanged p cause)
        (restart_unchanged_fails (Recoverable o p env) (some o) none p cause
          (λ _. Committed o p env) unchanged)
        (λ w s. Stage-Safe (Recoverable o p env) (some o) none w unchanged s)

  install_staged-Leads :
      Leads
        (λ w. At o p env (some o) none w × Staged w)
        (λ _. Committed o p env)
        (Sound o p env)
        (install_staged p env)
  unfolding install_staged
  install_staged-Leads =
      Leads-attempt (λ w. At o p env (some o) none w × Staged w)
        (λ _ w. At o p env (some o) (some o) w × Staged w) (λ _. Committed o p env) (Sound o p env)
        (At o p env (some o) none) (copy_file target backup)
        (λ copied'. elim copied' [
          | err e ↦ restart_unchanged p e
          | ok a ↦ (do
            installed ← attempt (replace_path stage target)
            elim installed [ err e ↦ rollback_failure p none e | ok b ↦ start_updated p env ])
        ])
        copied-Leads
        (λ a.
          Leads-attempt (λ w. At o p env (some o) (some o) w × Staged w) (λ _. Installed)
            (λ _. Committed o p env) (Sound o p env) (At o p env (some o) (some o))
            (replace_path stage target)
            (λ installed. elim installed [
              | err e ↦ rollback_failure p none e
              | ok b ↦ start_updated p env
            ])
            Installed-Leads (λ b w s. start_updated-Leads o p env s.new s.right w s.stands)
            (λ e. rollback_failure_fails o p env (some o) false e (λ _. Committed o p env) kept_up))
        fails-Unchanged

  hashed-Leads :
      Leads
        (At o p env (some o) none)
        (λ n w. At o p env (some o) none w × (digest_of (read stage w.disk) ≡ some n))
        (At o p env (some o) none)
        (file_sha256 stage)
  unfolding file_sha256
  hashed-Leads w s =
      After-inquire
        (λ n w'. At o p env (some o) none w' × (digest_of (read stage w'.disk) ≡ some n))
        (At o p env (some o) none) (cannot_hash stage) (λ d. digest_of (read stage d)) w
        (tick-Stage (Recoverable o p env) (some o) none w s)
        (λ n q. (tick-Stage (Recoverable o p env) (some o) none w s, q))

  pub apply_staged-Leads :
      Leads (At o p env (some o) none) (λ _. Committed o p env) (Sound o p env) (apply_staged p env)
  unfolding apply_staged
  apply_staged-Leads =
      Leads-attempt (At o p env (some o) none)
        (λ n w. At o p env (some o) none w × (digest_of (read stage w.disk) ≡ some n))
        (λ _. Committed o p env) (Sound o p env) (At o p env (some o) none) (file_sha256 stage)
        (λ hashed. elim hashed [
          | err e ↦ restart_unchanged p e
          | ok digest ↦
              if digest == p.expected_digest
              then install_staged p env
              else restart_unchanged p (changed_stage ∷ [])
        ])
        hashed-Leads
        (λ n w s. elim (Bool-cases (n == p.expected_digest)) [
          | inl e ↦ rw e (install_staged-Leads w (s.0, s.1 ∙ ap some (==→eq n p.expected_digest e)))
          | inr e ↦ rw e (fails-Unchanged (changed_stage ∷ []) w s.0)
        ])
        fails-Unchanged

  inspected-Leads :
      (t b : Option Content)
      → Leads
          (At o p env t b)
          (λ x w. At o p env t b w × (x ≡ is_there b))
          (At o p env t b)
          (file_exists backup)
  unfolding file_exists
  inspected-Leads t b w s =
      After-inquire (λ x w'. At o p env t b w' × (x ≡ is_there b)) (At o p env t b)
        (cannot_inspect backup) (λ d. some (is_there (read backup d))) w
        (tick-Stage (Recoverable o p env) t b w s)
        (λ x q. (
          tick-Stage (Recoverable o p env) t b w s,
          some_lem x b (read backup w.disk) s.backup_is q,
        ))

  pub run_unbegun :
      Leads
        (At o p env (some o) none)
        (λ _. Committed o p env)
        (Sound o p env)
        (run_locked_apply_transaction p env)
  unfolding run_locked_apply_transaction
  run_unbegun =
      Leads-bind (At o p env (some o) none) (λ x w. At o p env (some o) none w × (x ≡ false))
        (λ _. Committed o p env) (Sound o p env) (file_exists backup)
        (λ cut_off. if cut_off then rollback_apply p none else apply_staged p env)
        (Leads-weaken (At o p env (some o) none) (λ x w. At o p env (some o) none w × (x ≡ false))
          (Sound o p env) (At o p env (some o) none) (file_exists backup)
          (inspected-Leads (some o) none)
          (λ w s. Stage-Safe (Recoverable o p env) (some o) none w unchanged s))
        (λ x w s. rw s.1 (apply_staged-Leads w s.0))

  run_cut_off :
      (t : Option Content)
      → Recoverable o p env t (some o) true
      → Leads
          (At o p env t (some o))
          (λ _. At o p env (some o) none)
          (Sound o p env)
          (run_locked_apply_transaction p env)
  unfolding run_locked_apply_transaction
  run_cut_off t g =
      Leads-bind (At o p env t (some o)) (λ x w. At o p env t (some o) w × (x ≡ true))
        (λ _. At o p env (some o) none) (Sound o p env) (file_exists backup)
        (λ cut_off. if cut_off then rollback_apply p none else apply_staged p env)
        (Leads-weaken (At o p env t (some o)) (λ x w. At o p env t (some o) w × (x ≡ true))
          (Sound o p env) (At o p env t (some o)) (file_exists backup) (inspected-Leads t (some o))
          (λ w s. Stage-Safe (Recoverable o p env) t (some o) w g s))
        (λ x w s. rw s.1 (rollback_apply-Leads o p env t false g w s.0))

  -- The helper, on a target that is the old executable, without a backup, and with a journal, whatever
  -- operations fail: where it returns no error, the target has the digest of the update, the new executable
  -- reported itself, and the backup and the journal are gone. Where it returns one, and in every disk that
  -- an operation left on the way, the target is the old executable, or it has the digest of the update and
  -- the old one is in the backup beside a journal or the new one reported itself; and a backup is the old.
  pub run_locked-Sound :
      (w : World)
      → read target w.disk ≡ some o
      → read backup w.disk ≡ none
      → is_there (read journal w.disk) ≡ true
      → w.history ≡ []
      → After (λ _. Committed o p env) (Sound o p env) (run_locked_apply_transaction p env w)
  run_locked-Sound w ht hb hj hh =
      run_unbegun w (record { target_is = ht; backup_is = hb; kept = hj; past = rw hh tt })
