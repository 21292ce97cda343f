-- ===== src/Apply/Schedule/Withdrawal.antt =====
-- internal/updater/apply_windows.go: a preparation that is refused leaves nothing beside the executable.
use rig_exporter.Base.{
  ℕ, ◌≡◌, inl, inr, refl, ap, ◌∙◌, true, false, Option, none, some, List, [], arith, ◌==◌, ==→eq,
  ==_refl, Bool-cases,
}
use rig_exporter.Apply.{
  Content, image, marker, blank, plan, prepared, Disk, read, write, Result, ok, err, World, M, pure,
  Trouble, change, inquire, remove, copy_file, file_sha256, start, digest_of, Plan, Env, await,
  left_behind, wait_for_process_marker, stop_monitored_process,
}
use rig_exporter.Apply.Schedule.{
  create_file, stage_download, clean_up, withdraw, launch, publish_plan, verify_stage,
  schedule_apply,
}
use rig_exporter.Apply.Recovery.Completion.{at_rest}

-- Only the executable and whatever stands at the ready marker's name.
abbrev pub bare : Content → Option Content → Disk
bare o r = record {
  target_file = some o;
  stage_file = none;
  backup_file = none;
  helper_file = none;
  helper_ready_file = none;
  ready_file = r;
  journal_file = none;
}

-- The start of the helper and what follows, with the plan written.
abbrev Leaves : Content → Option Content → Result (Unit {0}) × World → Type 0
Leaves o r (ok a, w) = Unit
Leaves o r (err e, w) = w.disk ≡ bare o r

module _ (o : Content) (r : Option Content) (p : Plan) (env : Env) (stops : env.stops ≡ true) where
  -- With the helper, the stage and the plan in place, and with the marker that the helper has left.
  abbrev full : Content → Option Content → List Disk → List (Option Content) → World
  full c m hs ls = record {
    disk = record (bare o r) {
      stage_file = some c;
      helper_file = some o;
      helper_ready_file = m;
      journal_file = some (plan prepared p.parent);
    };
    faults = [];
    history = hs;
    launched = ls;
  }

  settled-Leaves :
      (x : Result (Unit {0})) (c : Content) (m : Option Content) (hs : List Disk)
      (ls : List (Option Content))
      → Leaves o r (
          (elim x as (λ y. M (Unit {0})) [ ok y ↦ pure tt | err e ↦ withdraw env e ])
            (full c m hs ls))
  unfolding withdraw stop_monitored_process clean_up remove change write
  settled-Leaves (ok tt) c m hs ls = tt
  settled-Leaves (err e) c m hs ls = rw stops refl

  checked-Leaves :
      (c : Content)
      → digest_of (some c) ≡ some p.expected_digest
      → Leaves o r (schedule_apply (some c) p env (at_rest (bare o r)))
  unfolding schedule_apply copy_file stage_download verify_stage publish_plan create_file launch
      file_sha256 start wait_for_process_marker change inquire read write
  checked-Leaves c h =
      rw (h, ==_refl p.expected_digest)
        (settled-Leaves (await p.expected_version env.pid env.polls) c (left_behind env.polls none)
          _ _)

  other-Leaves :
      (c : Content) (n : ℕ)
      → digest_of (some c) ≡ some n
      → (n == p.expected_digest) ≡ false
      → Leaves o r (schedule_apply (some c) p env (at_rest (bare o r)))
  unfolding schedule_apply copy_file stage_download verify_stage clean_up remove file_sha256 change
      inquire read write
  other-Leaves c n h e = rw (h, e) refl

  tested-Leaves :
      (c : Content) (n : ℕ)
      → digest_of (some c) ≡ some n
      → Leaves o r (schedule_apply (some c) p env (at_rest (bare o r)))
  tested-Leaves c n h = elim (Bool-cases (n == p.expected_digest)) [
    | inl e ↦ checked-Leaves c (h ∙ ap some (==→eq n p.expected_digest e))
    | inr e ↦ other-Leaves c n h e
  ]

  schedule-Leaves :
      (new : Option Content) → Leaves o r (schedule_apply new p env (at_rest (bare o r)))
  unfolding schedule_apply copy_file stage_download clean_up remove change read write
  schedule-Leaves none = refl
  schedule-Leaves (some (image n)) = tested-Leaves (image n) n refl
  schedule-Leaves (some (marker v n at)) = tested-Leaves (marker v n at) 0 refl
  schedule-Leaves (some (plan ph n)) = tested-Leaves (plan ph n) 0 refl
  schedule-Leaves (some blank) = tested-Leaves blank 0 refl

  left_bare :
      (x : Result (Unit {0}) × World) (e : List Trouble)
      → Leaves o r x
      → x.0 ≡ err e
      → x.1.disk ≡ bare o r
  left_bare (ok a, w) e h q = ground arith
  left_bare (err e', w) e h q = h

  -- A preparation beside an executable without artifacts, where no operation fails and a helper that does
  -- not report itself stops when it is told to: with an error, because of the download, of its digest or of
  -- the handshake, the disk is as it was before.
  pub schedule-bare :
      (new : Option Content) (e : List Trouble)
      → (schedule_apply new p env (at_rest (bare o r))).0 ≡ err e
      → (schedule_apply new p env (at_rest (bare o r))).1.disk ≡ bare o r
  schedule-bare new e =
      left_bare (schedule_apply new p env (at_rest (bare o r))) e (schedule-Leaves new)
