-- ===== src/Apply/Recovery/Completion.antt =====
-- internal/updater/apply_windows.go: where no operation fails, the next start and its helper come to an end.
use rig_exporter.Base.{
  ℕ, ◌≡◌, inl, inr, refl, sym, ap, ◌∙◌, Bool, true, false, not, ◌&&◌, Option, none, some, [], ◌∷◌,
  arith, ◌==◌, Bool-cases,
}
use rig_exporter.Apply.{
  target, backup, journal, Content, plan, Phase, rolled_back, Disk, read, write, Result, ok, err,
  World, M, ◌>>=◌, inquire, change, remove, replace_file, replace_path, file_exists, file_sha256,
  start, pure, Plan, Env, is_there, digest_of, run_locked_apply_transaction, rollback_apply,
  restore_backup, finish_failed_apply_before_restart, retire_marker, restart_if,
}
use rig_exporter.Apply.Recovery.{
  Ambient, read_file, ReadyMarker, decode_marker, too_old, unfit, judge_helper, judge_ready,
  active_apply_helper, apply_reached_ready, finish_committed_apply, finish_abandoned_preparation,
  Verdict, settled, handed_over, leaving, interrupted, inspect_live, inspect_plan, judge_reached,
  judge_backup, judge_active, is_rolled_back,
}
use rig_exporter.Apply.Recovery.Evidence.{absent}

-- No operation fails, and the history begins here.
abbrev pub at_rest : Disk → World
at_rest d = record { disk = d; faults = []; history = []; launched = [] }

abbrev bind_result : {A B : Type 0} → Result A × World → (A → M B) → Result B × World
bind_result (ok a, w) f = f a w
bind_result (err e, w) f = (err e, w)

-- The disk that the helper leaves behind a rollback.
abbrev pub rolled : Plan → Content → Disk → Disk
rolled p o d = record d {
  target_file = some o;
  backup_file = none;
  stage_file = none;
  ready_file = none;
  helper_ready_file = none;
  journal_file = some (plan rolled_back p.parent);
}

pub rollback_completes :
    (p : Plan) (env : Env) (o : Content) (d : Disk)
    → read backup d ≡ some o
    → (let res = run_locked_apply_transaction p env (at_rest d) in
        (res.0 ≡ ok tt) × (res.1.disk ≡ rolled p o d) × (res.1.launched ≡ some o ∷ []))
unfolding run_locked_apply_transaction rollback_apply restore_backup
    finish_failed_apply_before_restart retire_marker restart_if remove replace_file replace_path
    file_exists start inquire change read write
rollback_completes p env o d h = rw h (refl, refl, refl)

unbound :
    {A B : Type 0} (o : Result A × World) (f : A → M B)
    → ◌≡◌ {A = Result B × World}
        (let (r, w') = o in elim r [ ok a ↦ f a w' | err e ↦ (err e, w') ])
        (bind_result o f)
unbound (ok a, w) f = refl
unbound (err e, w) f = refl

pub bound :
    {A B : Type 0} (m : M A) (f : A → M B) (w : World) (a : A) (w' : World)
    → m w ≡ (ok a, w')
    → (m >>= f) w ≡ f a w'
bound {A} {B} m f w a w' h = unbound (m w) f ∙ ap (λ (o : Result A × World). bind_result o f) h

-- No helper is alive.
abbrev pub NoHelper : Ambient → Type 0
NoHelper a = (pid : ℕ) → a.process_matches pid ≡ ok false

module _ (a : Ambient) (p : Plan) (d : Disk) where
  active_cases :
      NoHelper a → (m : Option ReadyMarker) → judge_helper a p m (at_rest d) ≡ (ok false, at_rest d)
  unfolding judge_helper
  active_cases idle none = refl
  active_cases idle (some m) = elim (Bool-cases (unfit p m)) [
    | inl e ↦ rw e
    | inr e ↦ rw e (elim (Bool-cases (too_old a.now m.ready_at)) [
      | inl e' ↦ rw e'
      | inr e' ↦ rw (e', idle m.process)
    ])
  ]

  active_completes : NoHelper a → active_apply_helper a p (at_rest d) ≡ (ok false, at_rest d)
  unfolding active_apply_helper read_file inquire read
  active_completes idle = active_cases idle (decode_marker d.helper_ready_file)

  -- An answer, and no change.
  record Answers (m : M Bool) : Type 0 where
    answer : Bool
    given : m (at_rest d) ≡ (ok answer, at_rest d)

  hashed_completes :
      (n : ℕ)
      → digest_of (read target d) ≡ some n
      → file_sha256 target (at_rest d) ≡ (ok n, at_rest d)
  unfolding file_sha256 inquire
  hashed_completes n h = rw h

  evidence_cases :
      (n : ℕ)
      → digest_of (read target d) ≡ some n
      → (m : Option ReadyMarker) → Answers (judge_ready p m)
  unfolding judge_ready
  evidence_cases n h none = record { answer = false; given = refl }
  evidence_cases n h (some m) = elim (Bool-cases (unfit p m)) [
    | inl e ↦ record { answer = false; given = rw e }
    | inr e ↦ record {
      answer = n == p.expected_digest;
      given = rw e (
          bound (file_sha256 target) (λ k. pure (k == p.expected_digest)) (at_rest d) n (at_rest d)
            (hashed_completes n h));
    }
  ]

  reached_completes : (n : ℕ) → digest_of (read target d) ≡ some n → Answers (apply_reached_ready p)
  unfolding apply_reached_ready read_file inquire read
  reached_completes n h =
      let r = evidence_cases n h (decode_marker d.ready_file) in
      record { answer = r.answer; given = r.given }

-- What a settled plan, or one to recover, has come to.
abbrev pub Resolved : Plan → Disk → Result Verdict × World → Type 0
Resolved p d (ok settled, w) =
    (read target w.disk ≡ read target d)
    × (read backup w.disk ≡ none)
    × (read journal w.disk ≡ none)
Resolved p d (ok interrupted, w) = (w ≡ at_rest d) × (is_there (read backup d) ≡ true)
Resolved p d (ok handed_over, w) = ⊥
Resolved p d (ok leaving, w) = ⊥
Resolved p d (err e, w) = ⊥

module _ (a : Ambient) (p : Plan) (d : Disk) (held : a.lock ≡ true) where
  judge_completes :
      (x c : Bool) → x ≡ is_there (read backup d) → Resolved p d (judge_reached a x c (at_rest d))
  unfolding finish_committed_apply finish_abandoned_preparation remove change read write
  judge_completes x true q = rw held (refl, refl, refl)
  judge_completes true false q = (refl, sym q)
  judge_completes false false q = rw held (refl, absent d.backup_file (sym q), refl)

  there : file_exists backup (at_rest d) ≡ (ok (is_there (read backup d)), at_rest d)
  unfolding file_exists inquire
  there = refl

  live_completes :
      (x : Bool) (n : ℕ)
      → x ≡ is_there (read backup d)
      → NoHelper a
      → digest_of (read target d) ≡ some n
      → Resolved p d (inspect_live a p x (at_rest d))
  unfolding inspect_live
  live_completes x n q idle h =
      let r = reached_completes a p d n h in
      rw
        (bound (active_apply_helper a p) (judge_active a p x) (at_rest d) false (at_rest d)
          (active_completes a p d idle))
        (rw
          (bound (apply_reached_ready p) (judge_reached a x) (at_rest d) r.answer (at_rest d)
            r.given)
          (judge_completes x r.answer q))

  -- Where no operation fails, with the lock, without a live helper, and with an executable at the target,
  -- every plan is settled or is one to recover.
  pub inspect_plan-Resolved :
      (phase : Phase) (n : ℕ)
      → NoHelper a
      → digest_of (read target d) ≡ some n
      → Resolved p d (inspect_plan a p phase (at_rest d))
  unfolding inspect_plan judge_backup
  inspect_plan-Resolved phase n idle h =
      rw
        (bound (file_exists backup) (judge_backup a p phase) (at_rest d) (is_there (read backup d))
          (at_rest d) there)
        (elim (Bool-cases (is_rolled_back phase && not (is_there (read backup d)))) [
          | inl e ↦ rw (e, held) (refl, absent (read backup d) (ground arith), refl)
          | inr e ↦ rw e (live_completes (is_there (read backup d)) n refl idle h)
        ])
