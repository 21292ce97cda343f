-- ===== src/Apply/Recovery/Evidence.antt =====
-- internal/updater/apply_windows.go: what a start may do about a transaction, going by what is on the disk.
use rig_exporter.Base.{
  ◌≡◌, inl, inr, refl, sym, ap, ◌∙◌, Bool, true, false, not, ◌&&◌, Option, none, some, arith, ◌==◌,
  ==→eq, Bool-cases,
}
use rig_exporter.Base.Unicode.{list_eq}
use rig_exporter.Apply.{
  Text, target, backup, helper_ready, ready, Content, Disk, read, Result, ok, err, World, ◌>>=◌,
  tick, inquire, file_sha256, pure, Plan, is_there, digest_of, cannot_inspect, cannot_hash, Trouble,
}
use rig_exporter.Apply.Recovery.{
  Ambient, read_file, lift, ReadyMarker, decode_marker, too_old, unfit, judge_helper, judge_ready,
  active_apply_helper, apply_reached_ready,
}
use rig_exporter.Apply.Moves.{Leads, Keeps, After-inquire, Leads-bind}
use rig_exporter.Apply.Stages.{Files, Stage, tick-Stage}
use rig_exporter.Apply.Rollback.{Replaceable}

pub absent : (c : Option Content) → is_there c ≡ false → c ≡ none
absent none e = refl
absent (some c) e = ground arith

-- A marker that names the version and a process.
abbrev pub says : Text → Option ReadyMarker → Bool
says version none = false
says version (some m) = list_eq m.version version && not (m.process == 0)

-- The ready marker on the disk names the version of the update.
abbrev pub Reported : Plan → Disk → Type 0
Reported p d = says p.expected_version (decode_marker (read ready d)) ≡ true

module _ (o : Content) (p : Plan) (d : Disk) where
  abbrev pub Fit : Files
  Fit = Replaceable o p.expected_digest (Reported p d)

  -- Nothing has changed since the start.
  pub record Same (w : World) : Type 0 where
    pub stands : Stage Fit (read target d) (read backup d) w
    pub untouched : w.disk ≡ d

  tick-Same : (w : World) → Same w → Same (tick w)
  tick-Same w s = record {
    stands = tick-Stage Fit (read target d) (read backup d) w s.stands;
    untouched = s.untouched;
  }

  pub inquired :
      {A : Type 0} (e : Trouble) (f : Disk → Option A)
      → Leads Same (λ x w. Same w × (f d ≡ some x)) Same (inquire e f)
  inquired {A} e f w s =
      After-inquire (λ x w'. Same w' × (f d ≡ some x)) Same e f w (tick-Same w s)
        (λ x q. (tick-Same w s, ap f (sym s.untouched) ∙ q))

  lift-Keeps : {A : Type 0} (r : Result A) → Keeps Same (lift r)
  lift-Keeps (ok x) w s = s
  lift-Keeps (err e) w s = s

  active_cases : (a : Ambient) (m : Option ReadyMarker) → Keeps Same (judge_helper a p m)
  unfolding judge_helper
  active_cases a none w s = s
  active_cases a (some m) w s = elim (Bool-cases (unfit p m)) [
    | inl e ↦ rw e s
    | inr e ↦ rw e (elim (Bool-cases (too_old a.now m.ready_at)) [
      | inl e' ↦ rw e' s
      | inr e' ↦ rw e' (lift-Keeps (a.process_matches m.process) w s)
    ])
  ]

  pub active-Leads : (a : Ambient) → Keeps Same (active_apply_helper a p)
  unfolding active_apply_helper read_file
  active-Leads a =
      Leads-bind Same (λ x w. Same w × (some (read helper_ready d) ≡ some x)) (λ _. Same) Same
        (read_file helper_ready) (λ c. judge_helper a p (decode_marker c))
        (inquired (cannot_inspect helper_ready) (λ d'. some (read helper_ready d')))
        (λ c w s. active_cases a (decode_marker c) w s.0)

  fit_says : (m : ReadyMarker) → unfit p m ≡ false → says p.expected_version (some m) ≡ true
  unfolding unfit
  fit_says m e = ground arith

  -- What a transaction that reached its end has left.
  abbrev pub Evident : Type 0
  Evident = Reported p d × (digest_of (read target d) ≡ some p.expected_digest)

  abbrev pub Reached : Bool → World → Type 0
  Reached c w = Same w × (c ≡ true → Evident)

  hashed-Leads :
      Reported p d
      → Leads Same Reached Same
          (file_sha256 target >>= λ digest. pure (digest == p.expected_digest))
  unfolding file_sha256
  hashed-Leads r =
      Leads-bind Same (λ n w. Same w × (digest_of (read target d) ≡ some n)) Reached Same
        (file_sha256 target) (λ digest. pure (digest == p.expected_digest))
        (inquired (cannot_hash target) (λ d'. digest_of (read target d')))
        (λ n w s. (s.0, λ e. (r, s.1 ∙ ap some (==→eq n p.expected_digest e))))

  evidence_cases :
      (m : Option ReadyMarker)
      → decode_marker (read ready d) ≡ m
      → Leads Same Reached Same (judge_ready p m)
  unfolding judge_ready
  evidence_cases none q w s = (s, λ e. ground arith)
  evidence_cases (some m) q w s = elim (Bool-cases (unfit p m)) [
    | inl e ↦ rw e (s, λ e'. ground arith)
    | inr e ↦ rw e (hashed-Leads (rw q (fit_says m e)) w s)
  ]

  pub Reached-Leads : Leads Same Reached Same (apply_reached_ready p)
  unfolding apply_reached_ready read_file
  Reached-Leads =
      Leads-bind Same (λ x w. Same w × (some (read ready d) ≡ some x)) Reached Same
        (read_file ready) (λ c. judge_ready p (decode_marker c))
        (inquired (cannot_inspect ready) (λ d'. some (read ready d')))
        (λ c w s. evidence_cases (decode_marker c) (ap decode_marker (ground arith)) w s.0)
