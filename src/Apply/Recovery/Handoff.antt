-- ===== src/Apply/Recovery/Handoff.antt =====
-- internal/updater/apply_windows.go: a start beside transactions that were rolled back.
use rig_exporter.Base.{
  ◌≡◌, inl, inr, refl, ap, ◌∙◌, Bool, true, false, not, none, List, [], ◌∷◌, map, arith,
  if◌then◌else◌, Bool-cases, All,
}
use rig_exporter.Apply.{
  backup, rolled_back, Disk, read, Result, ok, err, World, Plan, Env, file_exists, remove, inquire,
  change, write,
}
use rig_exporter.Apply.Recovery.{
  Ambient, Verdict, settled, handed_over, leaving, interrupted, inspect_plan, judge_backup,
  finish_abandoned_preparation, Entry, own, Found, Looped, through, kept_by, inspect_plans, answer,
  recover_interrupted_apply,
}
use rig_exporter.Apply.Recovery.Completion.{at_rest}

-- A transaction that was rolled back: its plan says so, and the backup is gone.
pub record Done : Type 0 where
  pub aim : Plan
  pub disk : Disk

abbrev pub NoBackup : Done → Type 0
NoBackup t = read backup t.disk ≡ none

abbrev pub entry : Done → Entry
entry t = own t.aim rolled_back (at_rest t.disk)

verdict : Bool → Verdict
verdict held = if held then settled else handed_over

abbrev marked : Bool → Found → Found
marked true k = k
marked false k = record k { busy = true }

kept_on :
    (held : Bool) (r : Result Verdict × World) (p : Plan) (k : Found) (go : Found → Looped)
    → r.0 ≡ ok (verdict held)
    → kept_by r p rolled_back k go ≡ go (marked held k)
unfolding verdict
kept_on true (ok settled, w) p k go h = refl
kept_on true (ok handed_over, w) p k go h = ground arith
kept_on true (ok leaving, w) p k go h = ground arith
kept_on true (ok interrupted, w) p k go h = ground arith
kept_on true (err e, w) p k go h = ground arith
kept_on false (ok settled, w) p k go h = ground arith
kept_on false (ok handed_over, w) p k go h = refl
kept_on false (ok leaving, w) p k go h = ground arith
kept_on false (ok interrupted, w) p k go h = ground arith
kept_on false (err e, w) p k go h = ground arith

marked_recovery : (held : Bool) (k : Found) → (marked held k).recovery ≡ k.recovery
marked_recovery true k = refl
marked_recovery false k = refl

marked_busy : (held : Bool) (k : Found) → not held ≡ true → (marked held k).busy ≡ true
marked_busy true k h = ground arith
marked_busy false k h = refl

marked_still : (held : Bool) (k : Found) → k.busy ≡ true → (marked held k).busy ≡ true
marked_still true k h = h
marked_still false k h = refl

-- The loop runs through and has nothing to recover.
record Passed (k : Found) (l : Looped) : Type 0 where
  last : Found
  ends : l ≡ through last
  nothing : last.recovery ≡ none
  busy_still : k.busy ≡ true → last.busy ≡ true

module _ (a : Ambient) where
  judged :
      (t : Done)
      → NoBackup t
      → (inspect_plan a t.aim rolled_back (at_rest t.disk)).0 ≡ ok (verdict a.lock)
  unfolding inspect_plan judge_backup finish_abandoned_preparation file_exists remove inquire change
      write verdict
  judged t h = rw h (elim (Bool-cases a.lock) [ inl e ↦ rw e | inr e ↦ rw e ])

  pass :
      (ts : List Done) (k : Found)
      → All NoBackup ts
      → k.recovery ≡ none
      → Passed k (inspect_plans a (map entry ts) k)
  unfolding inspect_plans
  pass [] k h q = record { last = k; ends = refl; nothing = q; busy_still = λ b. b }
  pass (t ∷ ts) k h q =
      let r = pass ts (marked a.lock k) h.1 (marked_recovery a.lock k ∙ q) in
      record {
        last = r.last;
        ends =
            kept_on a.lock (inspect_plan a t.aim rolled_back (at_rest t.disk)) t.aim k
              (inspect_plans a (map entry ts)) (judged t h.0)
            ∙ r.ends;
        nothing = r.nothing;
        busy_still = λ b. r.busy_still (marked_still a.lock k b);
      }

  answered :
      (env : Env) (l : Found)
      → l.recovery ≡ none
      → (not a.lock ≡ true → l.busy ≡ true)
      → answer a env (through l) ≡ ok false
  unfolding answer
  answered env l q h = rw q (elim (Bool-cases a.lock) [ inl e ↦ rw e | inr e ↦ rw (e, h (rw e)) ])

  -- A start beside transactions whose plans say that they were rolled back and whose backups are gone, at
  -- least one, where no operation fails: with the lock or with another process still holding it, the start
  -- goes on, and the process does not have to exit.
  pub recover-Done :
      (env : Env) (t : Done) (ts : List Done)
      → All NoBackup (t ∷ ts)
      → recover_interrupted_apply a env (map entry (t ∷ ts)) ≡ ok false
  unfolding recover_interrupted_apply
  recover-Done env t ts h =
      let k : Found = record { recovery = none; busy = false } in
      let r = pass ts (marked a.lock k) h.1 (marked_recovery a.lock k) in
      let e =
        kept_on a.lock (inspect_plan a t.aim rolled_back (at_rest t.disk)) t.aim k
          (inspect_plans a (map entry ts)) (judged t h.0)
        ∙ r.ends in
      ap (answer a env) e
      ∙ answered env r.last r.nothing (λ u. r.busy_still (marked_busy a.lock k u))
