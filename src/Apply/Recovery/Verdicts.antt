-- ===== src/Apply/Recovery/Verdicts.antt =====
-- internal/updater/apply_windows.go: the body of the loop of recoverInterruptedApplyWith, on every path,
-- whichever operations fail.
use rig_exporter.Base.{
  ◌≡◌, ◌⊎◌, inl, inr, refl, sym, Bool, true, false, not, ◌&&◌, Option, none, some, [], arith,
  if◌then◌else◌, Bool-cases,
}
use rig_exporter.Apply.{
  File, target, stage, backup, helper, helper_ready, ready, journal, Content, Phase, Disk, read,
  write, World, M, attempt, ◌>>◌, tick, remove, file_exists, pure, Plan, is_there, cannot_inspect,
  cannot_remove,
}
use rig_exporter.Apply.Recovery.{
  Ambient, active_apply_helper, apply_reached_ready, finish_committed_apply,
  finish_abandoned_preparation, Verdict, settled, handed_over, leaving, interrupted, inspect_live,
  inspect_plan, judge_reached, judge_backup, judge_active, is_rolled_back,
}
use rig_exporter.Apply.Moves.{After, Leads, Keeps, After-set, Leads-bind, Leads-weaken}
use rig_exporter.Apply.Stages.{
  Stage, Safe, Keeps-attempt, Stage-Safe, tick-Stage, leave-Stage, remove-stage-Keeps,
  remove-ready-Keeps, remove-helper_ready-Keeps, Keeps-set,
}
use rig_exporter.Apply.Recovery.Evidence.{
  absent, Fit, Same, inquired, active-Leads, Evident, Reached-Leads, Reached,
}

module _ (o : Content) (p : Plan) (d : Disk) where
  -- The transaction is over: the target as it was, and no backup and no journal.
  pub record Cleared (w : World) : Type 0 where
    pub same_target : read target w.disk ≡ read target d
    pub no_backup : read backup w.disk ≡ none
    pub no_journal : read journal w.disk ≡ none
    pub reason : (read backup d ≡ none) ⊎ Evident o p d
    pub sound : Safe (Fit o p d) w

  abbrev t : Option Content
  t = read target d

  abbrev In : Option Content → World → Type 0
  In b w = Stage (Fit o p d) t b w

  fit_none : (b : Option Content) → is_there b ≡ false → Fit o p d t b true → Fit o p d t none true
  fit_none none e g = g
  fit_none (some c) e g = ground arith

  at_none : (b : Option Content) → is_there b ≡ false → (w : World) → In b w → In none w
  at_none none e w s = s
  at_none (some c) e w s = ground arith

  remove-helper-Keeps : (b : Option Content) → Fit o p d t b true → Keeps (In b) (remove helper)
  unfolding remove write read
  remove-helper-Keeps b g =
      Keeps-set (Fit o p d) t b (cannot_remove helper) (write helper none) g (λ d'. refl)
        (λ d'. refl) (λ d' h. h)

  cleaned :
      (b : Option Content) (Q : Unit {0} → World → Type 0) (f : File) (k : M (Unit {0}))
      → Keeps (In b) (remove f)
      → Leads (In b) Q (In b) k
      → Leads (In b) Q (In b) (remove f >> k)
  cleaned b Q f k h rest = Leads-bind (In b) (λ _. In b) Q (In b) (remove f) (λ _. k) h (λ _. rest)

  cut : Fit o p d t none true → Fit o p d t none false
  cut (f, inl old) = (inl refl, inl old)
  cut (f, inr (new, inr sure)) = (inl refl, inr (new, inr sure))
  cut (f, inr (new, inl (e, x))) = ground arith

  remove-journal-Leads :
      (read backup d ≡ none) ⊎ Evident o p d
      → Fit o p d t none true
      → Leads (In none) (λ _. Cleared) (In none) (remove journal)
  unfolding remove write read
  remove-journal-Leads why g w s =
      After-set (λ _. Cleared) (In none) (cannot_remove journal) (write journal none) w
        (tick-Stage (Fit o p d) t none w s)
        (record {
          same_target = s.target_is;
          no_backup = s.backup_is;
          no_journal = refl;
          reason = why;
          sound = record {
            now = rw (s.target_is, s.backup_is) (cut g);
            before = (rw (s.target_is, s.backup_is) (cut g), s.past);
          };
        })

  remove-backup-Leads :
      (b : Option Content)
      → Fit o p d t none true
      → Leads (In b) (λ _. In none) (In b) (remove backup)
  unfolding remove write read
  remove-backup-Leads b g w s =
      After-set (λ _. In none) (In b) (cannot_remove backup) (write backup none) w
        (tick-Stage (Fit o p d) t b w s)
        (leave-Stage (Fit o p d) t none (write backup none w.disk) (tick w) g s.target_is refl
          s.kept s.past)

  abbrev Sound : World → Type 0
  Sound w = Safe (Fit o p d) w

  abandoned-Leads :
      read backup d ≡ none
      → Fit o p d t none true
      → Leads (In none) (λ _. Cleared) (In none) finish_abandoned_preparation
  unfolding finish_abandoned_preparation
  abandoned-Leads e g =
      cleaned none (λ _. Cleared) stage _ (remove-stage-Keeps (Fit o p d) t none g)
        (cleaned none (λ _. Cleared) ready _ (remove-ready-Keeps (Fit o p d) t none g)
          (cleaned none (λ _. Cleared) helper_ready _
            (remove-helper_ready-Keeps (Fit o p d) t none g)
            (Leads-bind (In none) (λ _. In none) (λ _. Cleared) (In none) (attempt (remove helper))
              (λ _. remove journal)
              (Keeps-attempt (In none) (remove helper) (remove-helper-Keeps none g))
              (λ _. remove-journal-Leads (inl e) g))))

  committed-Leads :
      Evident o p d
      → Fit o p d t (read backup d) true
      → Leads (In (read backup d)) (λ _. Cleared) Sound finish_committed_apply
  unfolding finish_committed_apply
  committed-Leads ev g =
      let g' : Fit o p d t none true = (inl refl, inr (ev.1, inr ev.0)) in
      Leads-bind (In (read backup d)) (λ _. In none) (λ _. Cleared) Sound (remove backup)
        (λ _.
          remove stage
          >> (remove ready >> (remove helper_ready >> (remove helper >> remove journal))))
        (Leads-weaken (In (read backup d)) (λ _. In none) Sound (In (read backup d)) (remove backup)
          (remove-backup-Leads (read backup d) g')
          (λ w s. Stage-Safe (Fit o p d) t (read backup d) w g s))
        (λ _.
          Leads-weaken (In none) (λ _. Cleared) Sound (In none)
            (remove stage
              >> (remove ready >> (remove helper_ready >> (remove helper >> remove journal))))
            (cleaned none (λ _. Cleared) stage _ (remove-stage-Keeps (Fit o p d) t none g')
              (cleaned none (λ _. Cleared) ready _ (remove-ready-Keeps (Fit o p d) t none g')
                (cleaned none (λ _. Cleared) helper_ready _
                  (remove-helper_ready-Keeps (Fit o p d) t none g')
                  (cleaned none (λ _. Cleared) helper _ (remove-helper-Keeps none g')
                    (remove-journal-Leads (inr ev) g')))))
            (λ w s. Stage-Safe (Fit o p d) t none w g' s))

  -- What each verdict says of the files.
  abbrev pub Decided : Verdict → World → Type 0
  Decided settled w = Cleared w
  Decided handed_over w = Same o p d w
  Decided leaving w = Same o p d w
  Decided interrupted w = Same o p d w × (is_there (read backup d) ≡ true)

  module _ (a : Ambient) (g : Fit o p d t (read backup d) true) where
    Same-Sound : (w : World) → Same o p d w → Sound w
    Same-Sound w s = Stage-Safe (Fit o p d) t (read backup d) w g s.stands

    locked_cases :
        (v : Verdict) (k : M (Unit {0})) (held : Bool)
        → ((w : World) → Same o p d w → Decided v w)
        → Leads (In (read backup d)) (λ _. Cleared) Sound k
        → Leads (Same o p d) Decided Sound (if held then k >> pure settled else pure v)
    locked_cases v k true f h w s =
        Leads-bind (In (read backup d)) (λ _. Cleared) Decided Sound k (λ _. pure settled) h
          (λ _ w' c. c) w s.stands
    locked_cases v k false f h w s = f w s

    finished_or :
        (v : Verdict)
        → ((w : World) → Same o p d w → Decided v w)
        → (k : M (Unit {0})) → Leads (In (read backup d)) (λ _. Cleared) Sound k
        → Leads (Same o p d) Decided Sound (if a.lock then k >> pure settled else pure v)
    finished_or v f k h = locked_cases v k a.lock f h

    abandoned-Sound :
        is_there (read backup d) ≡ false
        → Leads (In (read backup d)) (λ _. Cleared) Sound finish_abandoned_preparation
    abandoned-Sound e w s =
        let g' : Fit o p d t none true = fit_none (read backup d) e g in
        Leads-weaken (In none) (λ _. Cleared) Sound (In none) finish_abandoned_preparation
          (abandoned-Leads (absent (read backup d) e) g')
          (λ w' s'. Stage-Safe (Fit o p d) t none w' g' s') w (at_none (read backup d) e w s)

    evidence_cases :
        (x committed : Bool)
        → x ≡ is_there (read backup d)
        → Leads (Reached o p d committed) Decided Sound (judge_reached a x committed)
    evidence_cases x true q w s =
        finished_or handed_over (λ w' s'. s') finish_committed_apply (committed-Leads (s.1 refl) g)
          w s.0
    evidence_cases true false q w s = (s.0, sym q)
    evidence_cases false false q w s =
        finished_or leaving (λ w' s'. s') finish_abandoned_preparation (abandoned-Sound (sym q)) w
          s.0

    active_cases :
        (x active : Bool)
        → x ≡ is_there (read backup d)
        → Leads (Same o p d) Decided Sound (judge_active a p x active)
    active_cases x true q w s = s
    active_cases x false q w s =
        Leads-bind (Same o p d) (Reached o p d) Decided Sound (apply_reached_ready p)
          (judge_reached a x)
          (Leads-weaken (Same o p d) (Reached o p d) Sound (Same o p d) (apply_reached_ready p)
            (Reached-Leads o p d) Same-Sound)
          (λ c. evidence_cases x c q) w s

    inspect_live-Leads :
        (x : Bool)
        → x ≡ is_there (read backup d)
        → Leads (Same o p d) Decided Sound (inspect_live a p x)
    unfolding inspect_live
    inspect_live-Leads x q =
        Leads-bind (Same o p d) (λ _. Same o p d) Decided Sound (active_apply_helper a p)
          (judge_active a p x)
          (Leads-weaken (Same o p d) (λ _. Same o p d) Sound (Same o p d) (active_apply_helper a p)
            (active-Leads o p d a) Same-Sound)
          (λ active. active_cases x active q)

    inspected-Leads :
        Leads
          (Same o p d)
          (λ x w. Same o p d w × (some (is_there (read backup d)) ≡ some x))
          Sound
          (file_exists backup)
    unfolding file_exists
    inspected-Leads =
        Leads-weaken (Same o p d) (λ x w. Same o p d w × (some (is_there (read backup d)) ≡ some x))
          Sound (Same o p d) (file_exists backup)
          (inquired o p d (cannot_inspect backup) (λ d'. some (is_there (read backup d'))))
          Same-Sound

    inspect_plan-Leads : (phase : Phase) → Leads (Same o p d) Decided Sound (inspect_plan a p phase)
    unfolding inspect_plan judge_backup
    inspect_plan-Leads phase =
        Leads-bind (Same o p d) (λ x w. Same o p d w × (some (is_there (read backup d)) ≡ some x))
          Decided Sound (file_exists backup) (judge_backup a p phase) inspected-Leads
          (λ x w s. elim (Bool-cases (is_rolled_back phase && not x)) [
            | inl e ↦ rw e (
                finished_or handed_over (λ w s. s) finish_abandoned_preparation
                  (abandoned-Sound (ground arith)) w s.0)
            | inr e ↦ rw e (inspect_live-Leads x (ground arith) w s.0)
          ])

-- The loop's body for a plan, whatever operations fail and whichever processes run, on a target that is
-- the old executable, or that has the digest of the update while the old one is the backup or the ready
-- marker names the version, the journal being there. A settled plan has left the target as it was, no
-- backup and no journal, and there was no backup before, or the target has the digest and the marker
-- names the version. Otherwise nothing has changed, and a plan to recover has a backup. After an error,
-- and in every disk on the way, the target is the old executable, or it has the digest and either the old
-- one is the backup beside a journal or the marker named the version.
pub inspect_plan-Decided :
    (a : Ambient) (o : Content) (p : Plan) (phase : Phase) (w : World)
    → is_there (read journal w.disk) ≡ true
    → w.history ≡ []
    → Fit o p w.disk (read target w.disk) (read backup w.disk) true
    → After (Decided o p w.disk) (Safe (Fit o p w.disk)) (inspect_plan a p phase w)
inspect_plan-Decided a o p phase w hj hh g = inspect_plan-Leads o p w.disk a g phase w (record {
  stands = record { target_is = refl; backup_is = refl; kept = hj; past = rw hh tt };
  untouched = refl;
})
