-- ===== src/Apply/Recovery/Rescue.antt =====
-- internal/updater/apply_windows.go: a helper that is cut off anywhere, the next start, and the helper
-- that the start hands over to, one after the other.
use rig_exporter.Base.{
  ℕ, ◌≡◌, ◌⊎◌, inl, inr, refl, ap, ◌∙◌, Bool, true, Option, none, some, List, [], ◌∷◌, arith,
  get_elem?, All,
}
use rig_exporter.Apply.{
  Helper, target, backup, helper, helper_ready, journal, Content, image, marker, plan, blank, Phase,
  Disk, read, write, Result, ok, err, World, attempt, leave, inquire, change, remove, replace_file,
  file_exists, start, pure, Plan, Env, is_there, digest_of, left_behind, wait_for_process_marker,
  run_locked_apply_transaction,
}
use rig_exporter.Apply.Recovery.{
  Ambient, Verdict, settled, handed_over, leaving, interrupted, inspect_plan, start_recovery_helper,
  launch_helper, shake_hands, give_up,
}
use rig_exporter.Apply.Recovery.Completion.{
  bound, at_rest, rollback_completes, NoHelper, Resolved, inspect_plan-Resolved,
}
use rig_exporter.Apply.Rollback.{Replaceable, Healthy, Recoverable, Sound}
use rig_exporter.Apply.Stages.{Holds}
use rig_exporter.Apply.Moves.{After}
use rig_exporter.Apply.Commit.{Committed}
use rig_exporter.Base.{All-get_elem?}
use rig_exporter.Apply.Update.{update, update-Sound}

-- The start's handover to a new helper, and that helper's transaction on the disk that the start leaves.
abbrev pub hand_over : Ambient → Plan → Phase → Env → Env → World → Result (Unit {0}) × World
hand_over a p phase env env' w =
    run_locked_apply_transaction p env' (at_rest ((start_recovery_helper a p phase env w).1.disk))

-- The disks that a run leaves: the last one and the ones on the way.
abbrev pub disks : {A : Type 0} → Result A × World → List Disk
disks r = r.1.disk ∷ r.1.history

-- After a settled plan the target is the old executable or has the digest of the update, without a backup
-- and a journal. After one to recover, the helper that takes over makes the old one the target and starts it.
abbrev pub Rescued :
    Content → Plan → (World → Result (Unit {0}) × World) → Result Verdict × World → Type 0
Rescued o p go (ok settled, w) =
    ((read target w.disk ≡ some o) ⊎ (digest_of (read target w.disk) ≡ some p.expected_digest))
    × (read backup w.disk ≡ none)
    × (read journal w.disk ≡ none)
Rescued o p go (ok interrupted, w) =
    ((go w).0 ≡ ok tt)
    × (read target (go w).1.disk ≡ some o)
    × (read backup (go w).1.disk ≡ none)
    × ((go w).1.launched ≡ some o ∷ [])
Rescued o p go (ok handed_over, w) = ⊥
Rescued o p go (ok leaving, w) = ⊥
Rescued o p go (err e, w) = ⊥

module _ (o : Content) (p : Plan) (a : Ambient) (phase : Phase) (env env' : Env) (d : Disk) where
  -- The disk with the helper's marker and with this process as its parent.
  abbrev taken_over : Disk
  taken_over = record d {
    helper_ready_file = left_behind env.polls none;
    journal_file = some (plan phase a.own_pid);
  }

  abbrev answered : World → World
  answered w =
      leave (write helper_ready (left_behind env.polls (read helper_ready w.disk)) w.disk) w

  waits :
      (w : World)
      → Healthy p env
      → wait_for_process_marker helper_ready p.expected_version env w ≡ (ok tt, answered w)
  unfolding wait_for_process_marker
  waits w k = rw k

  shaken : (w : World) → Healthy p env → shake_hands p env w ≡ (ok true, answered w)
  unfolding shake_hands
  shaken w k =
      bound (attempt (wait_for_process_marker helper_ready p.expected_version env))
        (λ r. elim r [ ok x ↦ pure true | err e ↦ give_up env e ]) w (ok tt) (answered w)
        (ap (λ (r : Result (Unit {0}) × World). (ok r.0, r.1)) (waits w k))

  -- Before and after the start of the helper.
  abbrev ready_to_start : World
  ready_to_start =
      let d' : Disk = record d { helper_ready_file = none } in
      leave (record d' { journal_file = some (plan phase a.own_pid) }) (leave d' (at_rest d))

  abbrev started : World
  started = record ready_to_start { launched = read helper d ∷ [] }

  start_completes : is_there (read helper d) ≡ true → start helper ready_to_start ≡ (ok tt, started)
  unfolding start inquire read
  start_completes h = rw h

  launch_completes :
      is_there (read helper d) ≡ true
      → Healthy p env
      → (launch_helper a p phase env true (at_rest d)).1.disk ≡ taken_over
  unfolding launch_helper remove replace_file change read write
  launch_completes h k =
      ap (λ r. r.1.disk)
        (bound (start helper) (λ _. shake_hands p env) ready_to_start tt started (start_completes h)
          ∙ shaken started k)

  handed :
      is_there (read helper d) ≡ true
      → Healthy p env
      → (start_recovery_helper a p phase env (at_rest d)).1.disk ≡ taken_over
  unfolding start_recovery_helper file_exists inquire
  handed h k = rw h (launch_completes h k)

  hand_over_completes :
      read backup d ≡ some o
      → is_there (read helper d) ≡ true
      → Healthy p env
      → Rescued o p (hand_over a p phase env env') (ok interrupted, at_rest d)
  unfolding read
  hand_over_completes hb hh k =
      let r = rollback_completes p env' o taken_over hb in
      rw (handed hh k) (r.0, ap (read target) r.1, ap (read backup) r.1, r.2)

  target_new :
      (sure : Type 0) (t b : Option Content) (j : Bool)
      → Replaceable o p.expected_digest sure t b j
      → (t ≡ some o) ⊎ (digest_of t ≡ some p.expected_digest)
  target_new sure t b j (f, inl e) = inl e
  target_new sure t b j (f, inr e) = inr e.0

  backup_old : (b : Option Content) → (b ≡ none) ⊎ (b ≡ some o) → is_there b ≡ true → b ≡ some o
  backup_old none h e = ground arith
  backup_old (some c) h e = ground arith

  rescue_cases :
      (sure : Type 0) (j : Bool) (r : Result Verdict × World)
      → Replaceable o p.expected_digest sure (read target d) (read backup d) j
      → is_there (read helper d) ≡ true
      → Healthy p env
      → Resolved p d r
      → Rescued o p (hand_over a p phase env env') r
  rescue_cases sure j (ok settled, w) g hh k q =
      (rw q.0 (target_new sure (read target d) (read backup d) j g), q.1, q.2)
  rescue_cases sure j (ok interrupted, w) g hh k q =
      rw q.0 (hand_over_completes (backup_old (read backup d) g.0 q.1) hh k)
  rescue_cases sure j (ok handed_over, w) g hh k q = q
  rescue_cases sure j (ok leaving, w) g hh k q = q
  rescue_cases sure j (err e, w) g hh k q = q

-- What has a digest.
record Hashed (t : Option Content) : Type 0 where
  value : ℕ
  given : digest_of t ≡ some value

content-Hashed : (o : Content) → Hashed (some o)
content-Hashed (image n) = record { value = n; given = refl }
content-Hashed (marker v n at) = record { value = 0; given = refl }
content-Hashed (plan ph n) = record { value = 0; given = refl }
content-Hashed blank = record { value = 0; given = refl }

target-Hashed :
    (o : Content) (t : Option Content) (n : ℕ) → (t ≡ some o) ⊎ (digest_of t ≡ some n) → Hashed t
target-Hashed o t n (inl e) = rw e (content-Hashed o)
target-Hashed o t n (inr e) = record { value = n; given = e }

left_recoverable :
    (o : Content) (p : Plan) (env : Env) (r : Result (Unit {0}) × World)
    → After (λ _. Committed o p env) (Sound o p env) r
    → All (Holds (Recoverable o p env)) (disks r)
left_recoverable o p env (ok x, w) h = (h.sound.now, h.sound.before)
left_recoverable o p env (err e, w) h = (h.now, h.before)

-- An update runs with the old executable at the target, without a backup, from the first copy on, and
-- whatever its operations fail at, it is cut off at one of the disks it leaves, or comes to its end. There
-- the next start finds the plan. With the lock, without a live helper, with the helper's file there, and
-- where from then on no operation fails and the new helper reports itself, the plan is settled, the target
-- being the old executable or having the digest of the update, without a backup and a journal; or the
-- start hands over to the helper, whose transaction ends without an error, and which makes the old
-- executable the target, starts it, and leaves no backup.
pub crash-Rescued :
    (o : Content) (p : Plan) (new : Option Content) (first : Env) (h : Helper) (second : Env)
    (w : World)
    → read target w.disk ≡ some o
    → read backup w.disk ≡ none
    → w.history ≡ []
    → (i : ℕ) (d : Disk) → get_elem? (disks (update new p first h second w)) i ≡ some d
    → (a : Ambient) (phase : Phase) (third last : Env) → a.lock ≡ true
    → NoHelper a
    → is_there (read helper d) ≡ true
    → Healthy p third
    → Rescued o p (hand_over a p phase third last) (inspect_plan a p phase (at_rest d))
crash-Rescued o p new first h second w ht hb hh i d e a phase third last held idle helped k =
    let all =
      left_recoverable o p second (update new p first h second w)
        (update-Sound o p second new first h w ht hb hh) in
    let g =
      All-get_elem? (Holds (Recoverable o p second)) (disks (update new p first h second w)) i d all
        e in
    let n = target-Hashed o (read target d) p.expected_digest (
      target_new o p a phase third last d (Healthy p second) (read target d) (read backup d)
        (is_there (read journal d)) g) in
    rescue_cases o p a phase third last d (Healthy p second) (is_there (read journal d))
      (inspect_plan a p phase (at_rest d)) g helped k
      (inspect_plan-Resolved a p d held phase n.value idle n.given)
