-- ===== src/Apply/Tests.antt =====
-- Runs of internal/updater/apply_windows.go on small transactions.
use rig_exporter.Base.{◌≡◌, inl, inr, refl, true, false, none, some, [], ◌∷◌}
use rig_exporter.Apply.Schedule.{schedule_apply}
use rig_exporter.Apply.Schedule.Handover.{Scheduled, Unchanged, schedule_apply-Scheduled}
use rig_exporter.Apply.Update.{update, update-Sound}
use rig_exporter.Apply.{
  rolled_back, Helper, run_apply_helper, image, marker, plan, prepared, Disk, read, ok, World, Plan,
  Env, ticked, exited, run_locked_apply_transaction,
}
use rig_exporter.Apply.Moves.{After}
use rig_exporter.Apply.Stages.{Safe}
use rig_exporter.Apply.Rollback.{Sound}
use rig_exporter.Apply.Commit.{Committed}
use rig_exporter.Apply.Safety.{run_locked-Sound}
use rig_exporter.Apply.Recovery.{Ambient, inspect_plan, recover_interrupted_apply, own}
use rig_exporter.Apply.Recovery.Handoff.{recover-Done}
use rig_exporter.Apply.Recovery.Evidence.{Fit}
use rig_exporter.Apply.Recovery.Verdicts.{Decided, inspect_plan-Decided}
use rig_exporter.Apply.Recovery.Completion.{at_rest, rolled}
use rig_exporter.Apply.Recovery.Rescue.{Rescued, hand_over, crash-Rescued}

abbrev sample : Plan
sample = record { expected_version = 50 ∷ []; expected_digest = 2; parent = 7 }

abbrev answering : Env
answering = record {
  pid = 9;
  polls =
      record { readable = true; seen = none; wake = ticked }
      ∷ record { readable = true; seen = some (marker (50 ∷ []) 9 none); wake = ticked }
      ∷ [];
  stops = true;
}

abbrev silent : Env
silent = record {
  pid = 9;
  polls = record { readable = true; seen = none; wake = exited } ∷ [];
  stops = true;
}

abbrev prepared_disk : Disk
prepared_disk = record {
  target_file = some (image 1);
  stage_file = some (image 2);
  backup_file = none;
  helper_file = some (image 1);
  helper_ready_file = some (marker (50 ∷ []) 8 none);
  ready_file = none;
  journal_file = some (plan prepared 7);
}

-- The updated executable exits, and its rollback fails at the first rename.
abbrev faulty : World
faulty = record {
  disk = prepared_disk;
  faults = false ∷ false ∷ false ∷ false ∷ false ∷ true ∷ [];
  history = [];
  launched = [];
}

commits :
    (run_locked_apply_transaction sample answering (at_rest prepared_disk)).1.disk
    ≡ record prepared_disk {
      target_file = some (image 2);
      stage_file = none;
      helper_ready_file = none;
      journal_file = none;
    }
unfolding run_locked_apply_transaction
commits = refl

rolls_back :
    (run_locked_apply_transaction sample silent (at_rest prepared_disk)).1.disk
    ≡ rolled sample (image 1) prepared_disk
unfolding run_locked_apply_transaction
rolls_back = refl

run_locked-Sound_example :
    After
      (λ _. Committed (image 1) sample silent)
      (Sound (image 1) sample silent)
      (run_locked_apply_transaction sample silent faulty)
unfolding read
run_locked-Sound_example = run_locked-Sound (image 1) sample silent faulty refl refl refl refl

abbrev next_start : Ambient
next_start = record { now = 0; own_pid = 11; process_matches = λ pid. ok false; lock = true }

-- The disk between the installation and the start of the new executable.
abbrev cut_off_disk : Disk
cut_off_disk = record prepared_disk {
  target_file = some (image 2);
  stage_file = none;
  backup_file = some (image 1);
}

inspect_plan-Decided_example :
    After
      (Decided (image 1) sample cut_off_disk)
      (Safe (Fit (image 1) sample cut_off_disk))
      (inspect_plan next_start sample prepared (at_rest cut_off_disk))
unfolding read
inspect_plan-Decided_example =
    inspect_plan-Decided next_start (image 1) sample prepared (at_rest cut_off_disk) refl refl
      (inr refl, inr (refl, inl (refl, refl)))

abbrev old_disk : Disk
old_disk = record {
  target_file = some (image 1);
  stage_file = none;
  backup_file = none;
  helper_file = none;
  helper_ready_file = none;
  ready_file = none;
  journal_file = none;
}

abbrev waiting : Helper
waiting = record { process = 9; now = 3; parent_exits = true; owned = true }

updates :
    (update (some (image 2)) sample answering waiting answering (at_rest old_disk)).1.disk
    ≡ record old_disk { target_file = some (image 2); helper_file = some (image 1) }
unfolding schedule_apply run_apply_helper run_locked_apply_transaction
updates = refl

-- A download with another digest leaves nothing behind.
refuses : (schedule_apply (some (image 3)) sample answering (at_rest old_disk)).1.disk ≡ old_disk
unfolding schedule_apply
refuses = refl

schedule_apply-Scheduled_example :
    After
      (λ _. Scheduled (image 1) sample)
      (Unchanged (image 1) sample)
      (schedule_apply (some (image 2)) sample answering (at_rest old_disk))
unfolding read
schedule_apply-Scheduled_example =
    schedule_apply-Scheduled (image 1) sample (at_rest old_disk) refl refl refl (some (image 2))
      answering

update-Sound_example :
    After
      (λ _. Committed (image 1) sample silent)
      (Sound (image 1) sample silent)
      (update (some (image 2)) sample answering waiting silent (at_rest old_disk))
unfolding read
update-Sound_example =
    update-Sound (image 1) sample silent (some (image 2)) answering waiting (at_rest old_disk) refl
      refl refl

-- The disk between the installation and the start of the new executable.
abbrev installed_disk : Disk
installed_disk = record old_disk {
  target_file = some (image 2);
  backup_file = some (image 1);
  helper_file = some (image 1);
  helper_ready_file = some (marker (50 ∷ []) 9 (some 3));
  journal_file = some (plan prepared 7);
}

-- The helper is cut off with its installation done.
crash-Rescued_example :
    Rescued
      (image 1)
      sample
      (hand_over next_start sample prepared answering silent)
      (inspect_plan next_start sample prepared (at_rest installed_disk))
unfolding read schedule_apply run_apply_helper run_locked_apply_transaction
crash-Rescued_example =
    crash-Rescued (image 1) sample (some (image 2)) answering waiting silent (at_rest old_disk) refl
      refl refl 7 installed_disk refl next_start prepared answering silent refl (λ pid. refl) refl
      refl

-- The lock is still another process's.
abbrev early_start : Ambient
early_start = record next_start { lock = false }

recover-Done_example :
    recover_interrupted_apply early_start silent
      (own sample rolled_back (at_rest (rolled sample (image 1) prepared_disk)) ∷ [])
    ≡ ok false
unfolding read
recover-Done_example =
    recover-Done early_start silent
      (record { aim = sample; disk = rolled sample (image 1) prepared_disk }) [] (refl, tt)
