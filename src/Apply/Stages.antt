-- ===== src/Apply/Stages.antt =====
-- internal/updater/apply_windows.go: what the operations of the transaction keep while the target and the
-- backup stay as they are, and the moves between such stages.
use rig_exporter.Base.{
  ◌≡◌, refl, ◌∙◌, Bool, true, false, Option, none, some, List, [], ◌∷◌, ◌++◌, All,
}
use rig_exporter.Apply.{
  File, target, stage, backup, helper_ready, ready, journal, Content, plan, rolled_back, Disk, read,
  write, Result, ok, err, World, M, attempt, ◌>>=◌, tick, leave, Trouble, change, inquire, remove,
  replace_file, start, is_there, pure, fail, trouble_of, Plan, retire_marker,
  finish_failed_apply_before_restart, raise_all, restart_if, restart_unchanged, no_marker,
  cannot_remove, cannot_start, succeeded, journal_not_retired, noted, startable, cannot_write,
}
use rig_exporter.Apply.Moves.{After, After-bind, Leads, Keeps, After-inquire, After-set, Leads-bind}

-- A condition on the target, the backup, and whether there is a journal.
abbrev pub Files : Type 1
Files = Option Content → Option Content → Bool → Type 0

abbrev pub Holds : Files → Disk → Type 0
Holds good d = good (read target d) (read backup d) (is_there (read journal d))

-- The files now, the journal among them, while every disk so far was a good one.
pub record Stage (good : Files) (t b : Option Content) (w : World) : Type 0 where
  pub target_is : read target w.disk ≡ t
  pub backup_is : read backup w.disk ≡ b
  pub kept : is_there (read journal w.disk) ≡ true
  pub past : All (Holds good) w.history

-- The disk is a good one, and every disk before it was.
pub record Safe (good : Files) (w : World) : Type 0 where
  pub now : Holds good w.disk
  pub before : All (Holds good) w.history

module _ {A B : Type 0} (I : World → Type 0) where
  pub Keeps-bind :
      (m : M A) (f : A → M B) → Keeps I m → ((a : A) → Keeps I (f a)) → Keeps I (m >>= f)
  Keeps-bind m f h k w i =
      After-bind (λ _. I) I (λ _. I) I m f w (h w i) (λ a w'. k a w') (λ w' j. j)

module _ {A : Type 0} (I : World → Type 0) where
  pub Keeps-pure : (a : A) → Keeps I (pure a)
  Keeps-pure a w i = i

  attempt-Keeps : (r : Result A × World) → After (λ _. I) I r → I r.1
  attempt-Keeps (ok a, w) h = h
  attempt-Keeps (err e, w) h = h

  pub Keeps-attempt : (m : M A) → Keeps I m → Keeps I (attempt m)
  Keeps-attempt m h w i = attempt-Keeps (m w) (h w i)

module _ (good : Files) (t b : Option Content) where
  pub Stage-Safe : (w : World) → good t b true → Stage good t b w → Safe good w
  unfolding read
  Stage-Safe w g s = record { now = rw (s.target_is, s.backup_is, s.kept) g; before = s.past }

  pub tick-Stage : (w : World) → Stage good t b w → Stage good t b (tick w)
  unfolding read
  tick-Stage w s = record {
    target_is = s.target_is;
    backup_is = s.backup_is;
    kept = s.kept;
    past = s.past;
  }

  -- A disk with the same target and backup, and a journal still there, is the next of the stage.
  pub leave-Stage :
      (d : Disk) (w : World)
      → good t b true
      → read target d ≡ t
      → read backup d ≡ b
      → is_there (read journal d) ≡ true
      → All (Holds good) w.history
      → Stage good t b (leave d w)
  unfolding read
  leave-Stage d w g ht hb hj past = record {
    target_is = ht;
    backup_is = hb;
    kept = hj;
    past = (rw (ht, hb, hj) g, past);
  }

  pub Keeps-set :
      (e : Trouble) (g : Disk → Disk)
      → good t b true
      → ((d : Disk) → read target (g d) ≡ read target d)
      → ((d : Disk) → read backup (g d) ≡ read backup d)
      → ((d : Disk) → is_there (read journal d) ≡ true → is_there (read journal (g d)) ≡ true)
      → Keeps (Stage good t b) (change e (λ d. some (g d)))
  Keeps-set e g allowed ht hb hj w s =
      After-set (λ _. Stage good t b) (Stage good t b) e g w (tick-Stage w s)
        (leave-Stage (g w.disk) (tick w) allowed (ht w.disk ∙ s.target_is) (hb w.disk ∙ s.backup_is)
          (hj w.disk s.kept) s.past)

  pub Keeps-inquire :
      {A : Type 0} (e : Trouble) (f : Disk → Option A) → Keeps (Stage good t b) (inquire e f)
  Keeps-inquire e f w s =
      After-inquire (λ _. Stage good t b) (Stage good t b) e f w (tick-Stage w s)
        (λ a q. tick-Stage w s)

  noted-Keeps :
      (c : Option Content) (r : Result (Unit {0}) × World)
      → After (λ _. Stage good t b) (Stage good t b) r
      → After (λ _. Stage good t b) (Stage good t b) (noted c r)
  noted-Keeps c (err e, w) h = h
  noted-Keeps c (ok a, w) h = record {
    target_is = h.target_is;
    backup_is = h.backup_is;
    kept = h.kept;
    past = h.past;
  }

  pub start-Keeps : (f : File) → Keeps (Stage good t b) (start f)
  unfolding start
  start-Keeps f w s =
      noted-Keeps (read f w.disk)
        (inquire (cannot_start f) (λ d. startable (is_there (read f d))) w)
        (Keeps-inquire (cannot_start f) (λ d. startable (is_there (read f d))) w s)

  -- The removals of the transaction but for those of the backup and the journal.
  pub remove-stage-Keeps : good t b true → Keeps (Stage good t b) (remove stage)
  unfolding remove write read
  remove-stage-Keeps g =
      Keeps-set (cannot_remove stage) (write stage none) g (λ d. refl) (λ d. refl) (λ d h. h)

  pub remove-ready-Keeps : good t b true → Keeps (Stage good t b) (remove ready)
  unfolding remove write read
  remove-ready-Keeps g =
      Keeps-set (cannot_remove ready) (write ready none) g (λ d. refl) (λ d. refl) (λ d h. h)

  pub remove-helper_ready-Keeps : good t b true → Keeps (Stage good t b) (remove helper_ready)
  unfolding remove write read
  remove-helper_ready-Keeps g =
      Keeps-set (cannot_remove helper_ready) (write helper_ready none) g (λ d. refl) (λ d. refl)
        (λ d h. h)

  pub replace_file-journal-Keeps :
      (c : Content) → good t b true → Keeps (Stage good t b) (replace_file journal c)
  unfolding replace_file write read
  replace_file-journal-Keeps c g =
      Keeps-set (cannot_write journal) (write journal (some c)) g (λ d. refl) (λ d. refl)
        (λ d h. refl)

  pub replace_file-helper_ready-Keeps :
      (c : Content) → good t b true → Keeps (Stage good t b) (replace_file helper_ready c)
  unfolding replace_file write read
  replace_file-helper_ready-Keeps c g =
      Keeps-set (cannot_write helper_ready) (write helper_ready (some c)) g (λ d. refl) (λ d. refl)
        (λ d h. h)

  retire-Keeps :
      (r : Result (Unit {0}))
      → good t b true
      → Keeps {A = List Trouble} (Stage good t b) (elim r [
        | ok a ↦ pure []
        | err e ↦ (do
          replaced ← attempt (replace_file helper_ready no_marker)
          pure (e ++ trouble_of replaced))
      ])
  retire-Keeps (ok a) g = Keeps-pure {A = List Trouble} (Stage good t b) []
  retire-Keeps (err e) g =
      Keeps-bind (Stage good t b) (attempt (replace_file helper_ready no_marker))
        (λ x. pure (e ++ trouble_of x))
        (Keeps-attempt (Stage good t b) (replace_file helper_ready no_marker)
          (replace_file-helper_ready-Keeps no_marker g))
        (λ x w s. s)

  pub retire_marker-Keeps : good t b true → Keeps (Stage good t b) retire_marker
  unfolding retire_marker
  retire_marker-Keeps g =
      Keeps-bind (Stage good t b) (attempt (remove helper_ready)) _
        (Keeps-attempt (Stage good t b) (remove helper_ready) (remove-helper_ready-Keeps g))
        (λ r. retire-Keeps r g)

  pub finish_failed-Keeps :
      (p : Plan) → good t b true → Keeps (Stage good t b) (finish_failed_apply_before_restart p)
  unfolding finish_failed_apply_before_restart
  finish_failed-Keeps p g =
      Keeps-bind (Stage good t b) (attempt (replace_file journal (plan rolled_back p.parent))) _
        (Keeps-attempt (Stage good t b) _
          (replace_file-journal-Keeps (plan rolled_back p.parent) g))
        (λ recorded.
          Keeps-bind (Stage good t b) (attempt (remove stage)) _
            (Keeps-attempt (Stage good t b) _ (remove-stage-Keeps g))
            (λ staged.
              Keeps-bind (Stage good t b) (attempt (remove ready)) _
                (Keeps-attempt (Stage good t b) _ (remove-ready-Keeps g))
                (λ marked.
                  Keeps-bind (Stage good t b) retire_marker
                    (λ retired. pure (
                      succeeded recorded,
                      trouble_of recorded ++ (trouble_of staged ++ (trouble_of marked ++ retired)),
                    ))
                    (retire_marker-Keeps g) (λ retired w s. s))))

  pub restart_if-Keeps : (b' : Bool) → Keeps (Stage good t b) (restart_if b')
  unfolding restart_if
  restart_if-Keeps true =
      Keeps-bind (Stage good t b) (attempt (start target)) (λ started. pure (trouble_of started))
        (Keeps-attempt (Stage good t b) (start target) (start-Keeps target)) (λ r w s. s)
  restart_if-Keeps false = Keeps-pure (Stage good t b) (journal_not_retired ∷ [])

  pub restart_unchanged_fails :
      (p : Plan) (cause : List Trouble) (Q : Unit {0} → World → Type 0)
      → good t b true
      → Leads (Stage good t b) Q (Stage good t b) (restart_unchanged p cause)
  unfolding restart_unchanged
  restart_unchanged_fails p cause Q g =
      Leads-bind (Stage good t b) (λ _. Stage good t b) Q (Stage good t b)
        (finish_failed_apply_before_restart p)
        (λ finished.
          restart_if finished.0 >>= (λ restarted. fail (cause ++ (finished.1 ++ restarted))))
        (finish_failed-Keeps p g)
        (λ finished.
          Leads-bind (Stage good t b) (λ _. Stage good t b) Q (Stage good t b)
            (restart_if finished.0) (λ restarted. fail (cause ++ (finished.1 ++ restarted)))
            (restart_if-Keeps finished.0) (λ restarted w s. s))

  pub raise_all-Keeps : (es : List Trouble) → Keeps (Stage good t b) (raise_all es)
  raise_all-Keeps [] w s = s
  raise_all-Keeps (e ∷ es) w s = s
