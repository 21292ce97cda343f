-- ===== src/Apply/Update.antt =====
-- internal/updater/apply_windows.go: the preparation and the helper, one after the other.
use rig_exporter.Base.{
  ◌≡◌, inl, Bool, true, false, ◌&&◌, Option, none, some, List, [], ◌∷◌, if◌then◌else◌, All,
}
use rig_exporter.Apply.{
  target, backup, helper_ready, ready, Content, marker, Disk, read, World, M, ◌>>◌, remove,
  replace_file, fail, Plan, Env, not_ready, Helper, run_apply_helper, run_locked_apply_transaction,
}
use rig_exporter.Apply.Moves.{After, Leads, Leads-bind, Leads-weaken}
use rig_exporter.Apply.Stages.{
  Stage-Safe, remove-ready-Keeps, replace_file-helper_ready-Keeps, Holds,
}
use rig_exporter.Apply.Rollback.{Recoverable, At, Sound, restored_good}
use rig_exporter.Apply.Commit.{Committed}
use rig_exporter.Apply.Safety.{run_unbegun}
use rig_exporter.Apply.Schedule.{schedule_apply}
use rig_exporter.Apply.Schedule.Handover.{Unchanged, Scheduled, schedule-Leads}

-- An update from its preparation to its end; the helper goes on where the running process has left off.
abbrev pub update : Option Content → Plan → Env → Helper → Env → M (Unit {0})
update new p shaken h env = schedule_apply new p shaken >> run_apply_helper p h env

module _ (o : Content) (p : Plan) (env : Env) where
  abbrev Unbegun : World → Type 0
  Unbegun = At o p env (some o) none

  kept-Sound : (w : World) → Unbegun w → Sound o p env w
  kept-Sound w s = Stage-Safe (Recoverable o p env) (some o) none w (restored_good o p env) s

  owned-Leads :
      (b : Bool)
      → Leads Unbegun
          (λ _. Committed o p env)
          (Sound o p env)
          (if b then run_locked_apply_transaction p env else fail (not_ready ∷ []))
  owned-Leads true w s = run_unbegun o p env w s
  owned-Leads false w s = kept-Sound w s

  run_apply_helper-Leads :
      (h : Helper)
      → Leads Unbegun (λ _. Committed o p env) (Sound o p env) (run_apply_helper p h env)
  unfolding run_apply_helper
  run_apply_helper-Leads h =
      Leads-bind Unbegun (λ _. Unbegun) (λ _. Committed o p env) (Sound o p env) (remove ready)
        (λ _.
          replace_file helper_ready (marker p.expected_version h.process (some h.now))
          >> (if h.parent_exits && h.owned
              then run_locked_apply_transaction p env
              else fail (not_ready ∷ [])))
        (Leads-weaken Unbegun (λ _. Unbegun) (Sound o p env) Unbegun (remove ready)
          (remove-ready-Keeps (Recoverable o p env) (some o) none (restored_good o p env))
          kept-Sound)
        (λ _.
          Leads-bind Unbegun (λ _. Unbegun) (λ _. Committed o p env) (Sound o p env)
            (replace_file helper_ready (marker p.expected_version h.process (some h.now)))
            (λ _.
              if h.parent_exits && h.owned
              then run_locked_apply_transaction p env
              else fail (not_ready ∷ []))
            (Leads-weaken Unbegun (λ _. Unbegun) (Sound o p env) Unbegun
              (replace_file helper_ready (marker p.expected_version h.process (some h.now)))
              (replace_file-helper_ready-Keeps (Recoverable o p env) (some o) none
                (marker p.expected_version h.process (some h.now)) (restored_good o p env))
              kept-Sound)
            (λ _. owned-Leads (h.parent_exits && h.owned)))

  past-Sound :
      (ds : List Disk)
      → All (λ d. (read target d ≡ some o) × (read backup d ≡ none)) ds
      → All (Holds (Recoverable o p env)) ds
  past-Sound [] h = tt
  past-Sound (d ∷ ds) h = ((inl h.0.1, inl h.0.0), past-Sound ds h.1)

  Unchanged-Sound : (w : World) → Unchanged o p w → Sound o p env w
  Unchanged-Sound w u = record {
    now = (inl u.no_backup, inl u.target_is);
    before = past-Sound w.history u.past;
  }

  Scheduled-Unbegun : (w : World) → Scheduled o p w → Unbegun w
  Scheduled-Unbegun w s = record {
    target_is = s.unchanged.target_is;
    backup_is = s.unchanged.no_backup;
    kept = rw s.planned;
    past = past-Sound w.history s.unchanged.past;
  }

  update-Leads :
      (new : Option Content) (shaken : Env) (h : Helper)
      → Leads (Unchanged o p) (λ _. Committed o p env) (Sound o p env) (update new p shaken h env)
  update-Leads new shaken h =
      Leads-bind (Unchanged o p) (λ _. Scheduled o p) (λ _. Committed o p env) (Sound o p env)
        (schedule_apply new p shaken) (λ _. run_apply_helper p h env)
        (Leads-weaken (Unchanged o p) (λ _. Scheduled o p) (Sound o p env) (Unchanged o p)
          (schedule_apply new p shaken) (schedule-Leads o p new shaken) Unchanged-Sound)
        (λ _ w s. run_apply_helper-Leads h w (Scheduled-Unbegun w s))

  -- An update from the first copy to the helper's end, with the old executable at the target, no backup and
  -- no history, whatever is downloaded, whatever operations fail, whatever processes do. Without an error
  -- the target has the digest of the update, the new executable reported itself, and backup and journal
  -- are gone. With one, and in every disk on the way, the target is the old executable, or it has the
  -- digest of the update and the old one is the backup beside a journal or the new one reported itself.
  pub update-Sound :
      (new : Option Content) (shaken : Env) (h : Helper) (w : World)
      → read target w.disk ≡ some o
      → read backup w.disk ≡ none
      → w.history ≡ []
      → After (λ _. Committed o p env) (Sound o p env) (update new p shaken h env w)
  update-Sound new shaken h w ht hb hh =
      update-Leads new shaken h w (record { target_is = ht; no_backup = hb; past = rw hh tt })
