-- ===== src/Apply/Schedule/Handover.antt =====
-- internal/updater/apply_windows.go: what a prepared transaction is, and that its preparation leaves the
-- executable alone.
use rig_exporter.Base.{
  ◌≡◌, inl, inr, refl, ap, ◌∙◌, Bool, true, false, Option, none, some, List, [], ◌∷◌, ◌++◌, arith,
  ◌==◌, if◌then◌else◌, ==→eq, Bool-cases, All,
}
use rig_exporter.Apply.{
  File, target, stage, backup, helper, helper_ready, ready, journal, Content, plan, prepared, Disk,
  read, write, Result, ok, err, World, attempt, ◌>>=◌, ◌>>◌, tick, leave, Trouble, change, inquire,
  remove, copied, copy_file, file_sha256, start, is_there, digest_of, pure, fail, Plan, Env, noted,
  startable, await, wait_for_process_marker, stop_monitored_process, cannot_copy, cannot_write,
  cannot_hash, cannot_start, cannot_remove, changed_stage,
}
use rig_exporter.Apply.Moves.{
  After, Leads, Keeps, After-change, After-inquire, After-set, Leads-bind, Leads-attempt,
}
use rig_exporter.Apply.Stages.{Keeps-bind, Keeps-attempt, Keeps-pure}
use rig_exporter.Apply.Schedule.{
  created, create_file, stage_download, clean_up, clean_and_fail, all_created, withdraw, launch,
  publish_plan, verify_stage, schedule_apply,
}

copy_given :
    (c b : Option Content) (to : File) (d d' : Disk) → copied c b to d ≡ some d' → d' ≡ write to c d
copy_given (some x) none to d d' h = ground arith
copy_given (some x) (some b) to d d' h = ground arith
copy_given none b to d d' h = ground arith

create_given :
    (b : Option Content) (f : File) (x : Content) (d d' : Disk)
    → created b f x d ≡ some d'
    → d' ≡ write f (some x) d
create_given none f x d d' h = ground arith
create_given (some b) f x d d' h = ground arith

module _ (o : Content) (p : Plan) where
  -- The executable as it was, with no backup, now and in every disk so far.
  pub record Unchanged (w : World) : Type 0 where
    pub target_is : read target w.disk ≡ some o
    pub no_backup : read backup w.disk ≡ none
    pub past : All (λ d. (read target d ≡ some o) × (read backup d ≡ none)) w.history

  -- The transaction as the helper needs it.
  pub record Scheduled (w : World) : Type 0 where
    pub unchanged : Unchanged w
    pub verified : digest_of (read stage w.disk) ≡ some p.expected_digest
    pub planned : read journal w.disk ≡ some (plan prepared p.parent)

  left-Unchanged :
      (w : World) (d : Disk)
      → Unchanged w
      → read target d ≡ some o
      → read backup d ≡ none
      → Unchanged (leave d (tick w))
  left-Unchanged w d u ht hb = record { target_is = ht; no_backup = hb; past = ((ht, hb), u.past) }

  tick-Unchanged : (w : World) → Unchanged w → Unchanged (tick w)
  tick-Unchanged w u = record { target_is = u.target_is; no_backup = u.no_backup; past = u.past }

  set-Keeps :
      (e : Trouble) (g : Disk → Disk)
      → ((d : Disk) → read target (g d) ≡ read target d)
      → ((d : Disk) → read backup (g d) ≡ read backup d)
      → Keeps Unchanged (change e (λ d. some (g d)))
  set-Keeps e g ht hb w u =
      After-set (λ _. Unchanged) Unchanged e g w (tick-Unchanged w u)
        (left-Unchanged w (g w.disk) u (ht w.disk ∙ u.target_is) (hb w.disk ∙ u.no_backup))

  abbrev aside : File → Bool
  aside target = false
  aside backup = false
  aside _ = true

  remove-Keeps : (f : File) → aside f ≡ true → Keeps Unchanged (remove f)
  unfolding remove write read
  remove-Keeps target h = ground arith
  remove-Keeps backup h = ground arith
  remove-Keeps stage h = set-Keeps (cannot_remove stage) (write stage none) (λ d. refl) (λ d. refl)
  remove-Keeps helper h =
      set-Keeps (cannot_remove helper) (write helper none) (λ d. refl) (λ d. refl)
  remove-Keeps helper_ready h =
      set-Keeps (cannot_remove helper_ready) (write helper_ready none) (λ d. refl) (λ d. refl)
  remove-Keeps ready h = set-Keeps (cannot_remove ready) (write ready none) (λ d. refl) (λ d. refl)
  remove-Keeps journal h =
      set-Keeps (cannot_remove journal) (write journal none) (λ d. refl) (λ d. refl)

  clean_up-Keeps : (fs : List File) → All (λ f. aside f ≡ true) fs → Keeps Unchanged (clean_up fs)
  unfolding clean_up
  clean_up-Keeps [] h = Keeps-pure Unchanged tt
  clean_up-Keeps (f ∷ fs) h =
      Keeps-bind Unchanged (attempt (remove f)) (λ ignored. clean_up fs)
        (Keeps-attempt Unchanged (remove f) (remove-Keeps f h.0)) (λ ignored. clean_up-Keeps fs h.1)

  -- A failure leaves the executable alone, whatever the clean-up meets.
  clean_and_fail-Leads :
      (Q : Unit {0} → World → Type 0) (fs : List File) (e : List Trouble)
      → All (λ f. aside f ≡ true) fs
      → Leads Unchanged Q Unchanged (clean_and_fail fs e)
  clean_and_fail-Leads Q fs e h =
      Leads-bind Unchanged (λ _. Unchanged) Q Unchanged (clean_up fs) (λ _. fail e)
        (clean_up-Keeps fs h) (λ _ w u. u)

  copied-Unchanged :
      (e : Trouble) (c : Disk → Option Content) (to : File)
      → ((d : Disk) (x : Option Content) → read target (write to x d) ≡ read target d)
      → ((d : Disk) (x : Option Content) → read backup (write to x d) ≡ read backup d)
      → Keeps Unchanged (change e (λ d. copied (c d) (read to d) to d))
  copied-Unchanged e c to ht hb w u =
      After-change (λ _. Unchanged) Unchanged e (λ d. copied (c d) (read to d) to d) w
        (tick-Unchanged w u)
        (λ d q.
          let r = copy_given (c w.disk) (read to w.disk) to w.disk d q in
          left-Unchanged w d u (ap (read target) r ∙ (ht w.disk (c w.disk) ∙ u.target_is))
            (ap (read backup) r ∙ (hb w.disk (c w.disk) ∙ u.no_backup)))

  stop-Keeps : (env : Env) → Keeps Unchanged (stop_monitored_process env)
  unfolding stop_monitored_process
  stop-Keeps env w u = elim (Bool-cases env.stops) [ inl e ↦ rw e u | inr e ↦ rw e u ]

  withdraw-Leads :
      (Q : Unit {0} → World → Type 0) (env : Env) (e : List Trouble)
      → Leads Unchanged Q Unchanged (withdraw env e)
  unfolding withdraw
  withdraw-Leads Q env e =
      Leads-attempt Unchanged (λ _. Unchanged) Q Unchanged Unchanged (stop_monitored_process env)
        (λ stopped. elim stopped [
          | ok x ↦ attempt (remove helper_ready) >> clean_and_fail all_created e
          | err e' ↦ fail (e ++ e')
        ])
        (stop-Keeps env)
        (λ x.
          Leads-bind Unchanged (λ _. Unchanged) Q Unchanged (attempt (remove helper_ready))
            (λ _. clean_and_fail all_created e)
            (Keeps-attempt Unchanged (remove helper_ready) (remove-Keeps helper_ready refl))
            (λ _. clean_and_fail-Leads Q all_created e (refl, (refl, (refl, tt)))))
        (λ e' w u. u)

  create-Leads :
      Leads
        (λ w. Unchanged w × (digest_of (read stage w.disk) ≡ some p.expected_digest))
        (λ _. Scheduled)
        Unchanged
        (create_file journal (plan prepared p.parent))
  unfolding create_file write read
  create-Leads w u =
      After-change (λ _. Scheduled) Unchanged (cannot_write journal)
        (λ d. created (read journal d) journal (plan prepared p.parent) d) w (tick-Unchanged w u.0)
        (λ d q.
          let r = create_given (read journal w.disk) journal (plan prepared p.parent) w.disk d q in
          record {
            unchanged =
                left-Unchanged w d u.0 (ap (read target) r ∙ u.0.target_is)
                  (ap (read backup) r ∙ u.0.no_backup);
            verified = ap (λ x. digest_of (read stage x)) r ∙ u.1;
            planned = ap (read journal) r;
          })

  tick-Scheduled : (w : World) → Scheduled w → Scheduled (tick w)
  tick-Scheduled w s = record {
    unchanged = tick-Unchanged w s.unchanged;
    verified = s.verified;
    planned = s.planned;
  }

  noted-Keeps :
      (c : Option Content) (r : Result (Unit {0}) × World)
      → After (λ _. Scheduled) Scheduled r
      → After (λ _. Scheduled) Scheduled (noted c r)
  noted-Keeps c (err e, w) h = h
  noted-Keeps c (ok a, w) h = record {
    unchanged = record {
      target_is = h.unchanged.target_is;
      no_backup = h.unchanged.no_backup;
      past = h.unchanged.past;
    };
    verified = h.verified;
    planned = h.planned;
  }

  start-Keeps : Keeps Scheduled (start helper)
  unfolding start
  start-Keeps w s =
      noted-Keeps (read helper w.disk)
        (inquire (cannot_start helper) (λ d. startable (is_there (read helper d))) w)
        (After-inquire (λ _. Scheduled) Scheduled (cannot_start helper)
          (λ d. startable (is_there (read helper d))) w (tick-Scheduled w s)
          (λ x q. tick-Scheduled w s))

  waited_cases :
      (r : Result (Unit {0})) (w : World) → Scheduled w → After (λ _. Scheduled) Scheduled (r, w)
  waited_cases (ok x) w s = s
  waited_cases (err e) w s = s

  wait-Keeps :
      (env : Env) → Keeps Scheduled (wait_for_process_marker helper_ready p.expected_version env)
  unfolding wait_for_process_marker write read
  wait-Keeps env w s = waited_cases (await p.expected_version env.pid env.polls) _ (record {
    unchanged = record {
      target_is = s.unchanged.target_is;
      no_backup = s.unchanged.no_backup;
      past = ((s.unchanged.target_is, s.unchanged.no_backup), s.unchanged.past);
    };
    verified = s.verified;
    planned = s.planned;
  })

  launch-Leads : (env : Env) → Leads Scheduled (λ _. Scheduled) Unchanged (launch p env)
  unfolding launch
  launch-Leads env =
      Leads-attempt Scheduled (λ _. Scheduled) (λ _. Scheduled) Unchanged Scheduled (start helper)
        (λ started. elim started [
          | err e ↦ clean_and_fail all_created e
          | ok x ↦ (do
            reported ← attempt (wait_for_process_marker helper_ready p.expected_version env)
            elim reported [ ok y ↦ pure tt | err e ↦ withdraw env e ])
        ])
        start-Keeps
        (λ x.
          Leads-attempt Scheduled (λ _. Scheduled) (λ _. Scheduled) Unchanged Scheduled
            (wait_for_process_marker helper_ready p.expected_version env)
            (λ reported. elim reported [ ok y ↦ pure tt | err e ↦ withdraw env e ]) (wait-Keeps env)
            (λ y w s. s) (λ e w s. withdraw-Leads (λ _. Scheduled) env e w s.unchanged))
        (λ e w s.
          clean_and_fail-Leads (λ _. Scheduled) all_created e (refl, (refl, (refl, tt))) w
            s.unchanged)

  publish-Leads :
      (env : Env)
      → Leads
          (λ w. Unchanged w × (digest_of (read stage w.disk) ≡ some p.expected_digest))
          (λ _. Scheduled)
          Unchanged
          (publish_plan p env)
  unfolding publish_plan
  publish-Leads env =
      Leads-attempt (λ w. Unchanged w × (digest_of (read stage w.disk) ≡ some p.expected_digest))
        (λ _. Scheduled) (λ _. Scheduled) Unchanged Unchanged
        (create_file journal (plan prepared p.parent))
        (λ written. elim written [
          | err e ↦ clean_and_fail (stage ∷ helper ∷ []) e
          | ok x ↦ launch p env
        ])
        create-Leads (λ x. launch-Leads env)
        (λ e. clean_and_fail-Leads (λ _. Scheduled) (stage ∷ helper ∷ []) e (refl, (refl, tt)))

  hash-Leads :
      Leads Unchanged
        (λ n w. Unchanged w × (digest_of (read stage w.disk) ≡ some n))
        Unchanged
        (file_sha256 stage)
  unfolding file_sha256
  hash-Leads w u =
      After-inquire (λ n w'. Unchanged w' × (digest_of (read stage w'.disk) ≡ some n)) Unchanged
        (cannot_hash stage) (λ d. digest_of (read stage d)) w (tick-Unchanged w u)
        (λ n q. (tick-Unchanged w u, q))

  verify-Leads : (env : Env) → Leads Unchanged (λ _. Scheduled) Unchanged (verify_stage p env)
  unfolding verify_stage
  verify-Leads env =
      Leads-attempt Unchanged (λ n w. Unchanged w × (digest_of (read stage w.disk) ≡ some n))
        (λ _. Scheduled) Unchanged Unchanged (file_sha256 stage)
        (λ hashed. elim hashed [
          | err e ↦ clean_and_fail (stage ∷ helper ∷ []) e
          | ok digest ↦
              if digest == p.expected_digest
              then publish_plan p env
              else clean_and_fail (stage ∷ helper ∷ []) (changed_stage ∷ [])
        ])
        hash-Leads
        (λ n w s. elim (Bool-cases (n == p.expected_digest)) [
          | inl e ↦ rw e (publish-Leads env w (s.0, s.1 ∙ ap some (==→eq n p.expected_digest e)))
          | inr e ↦ rw e (
              clean_and_fail-Leads (λ _. Scheduled) (stage ∷ helper ∷ []) (changed_stage ∷ [])
                (refl, (refl, tt)) w s.0)
        ])
        (λ e. clean_and_fail-Leads (λ _. Scheduled) (stage ∷ helper ∷ []) e (refl, (refl, tt)))

  copy_file-Keeps : Keeps Unchanged (copy_file target helper)
  unfolding copy_file write read
  copy_file-Keeps =
      copied-Unchanged (cannot_copy helper) (λ d. read target d) helper (λ d x. refl) (λ d x. refl)

  stage_download-Keeps : (new : Option Content) → Keeps Unchanged (stage_download new)
  unfolding stage_download write read
  stage_download-Keeps new =
      copied-Unchanged (cannot_copy stage) (λ d. new) stage (λ d x. refl) (λ d x. refl)

  pub schedule-Leads :
      (new : Option Content) (env : Env)
      → Leads Unchanged (λ _. Scheduled) Unchanged (schedule_apply new p env)
  unfolding schedule_apply
  schedule-Leads new env =
      Leads-bind Unchanged (λ _. Unchanged) (λ _. Scheduled) Unchanged (copy_file target helper)
        (λ _. attempt (stage_download new) >>= λ staged. elim staged [
          | err e ↦ clean_and_fail (helper ∷ []) e
          | ok x ↦ verify_stage p env
        ])
        copy_file-Keeps
        (λ x.
          Leads-attempt Unchanged (λ _. Unchanged) (λ _. Scheduled) Unchanged Unchanged
            (stage_download new)
            (λ staged. elim staged [
              | err e ↦ clean_and_fail (helper ∷ []) e
              | ok x ↦ verify_stage p env
            ])
            (stage_download-Keeps new) (λ y. verify-Leads env)
            (λ e. clean_and_fail-Leads (λ _. Scheduled) (helper ∷ []) e (refl, tt)))

module _ (o : Content) (p : Plan) (w : World) (ht : read target w.disk ≡ some o)
    (hb : read backup w.disk ≡ none) (hh : w.history ≡ []) where
  -- The preparation, whatever operations fail, with the executable at the target and no backup: it and
  -- every disk on the way have the same target and no backup. Where it returns no error, the stage has the
  -- digest of the update, and the journal is there, prepared, with the parent's process.
  pub schedule_apply-Scheduled :
      (new : Option Content) (env : Env)
      → After (λ _. Scheduled o p) (Unchanged o p) (schedule_apply new p env w)
  schedule_apply-Scheduled new env =
      schedule-Leads o p new env w (record { target_is = ht; no_backup = hb; past = rw hh tt })
