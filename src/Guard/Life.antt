-- ===== src/Guard/Life.antt =====
-- internal/collector/guard.go: the life of a guarded source over any sequence of collections.
use rig_exporter.Base.{
  ◌+◌, ℕ, ◌≤◌, ◌<◌, ◌≡◌, ◌≢◌, ◌↔◌, inl, inr, refl, ◌∙◌, true, false, ◌||◌, Option, none, some, List,
  [], arith, if◌then◌else◌, Bool-cases,
}
use rig_exporter.Guard.{
  disabled_after_panic, still_inside, no_answer, Guarded, fresh, Ending, answered, panicked, late,
  collect, select, returned,
}

-- A collection, whatever the source does in it, or the return of a late run.
pub data Step (R : Type 0) : Guarded → Guarded → Type 0 where
  collecting :
      (g : Guarded) (run : List R → List R × Ending) (deadline : ℕ) (readings : List R)
      → Step R g (collect run deadline readings g).0
  returning : (g : Guarded) (outcome : Ending) → 0 < g.inside → Step R g (returned outcome g)

pub data Reach (R : Type 0) (g : Guarded) : Guarded → Type 0 where
  here : Reach R g g
  next : {h k : Guarded} → Reach R g h → Step R h k → Reach R g k

pub record Inv (g : Guarded) : Type 0 where
  pub counted : g.inside ≡ (if g.stuck then 1 else 0)
  pub explained : g.disabled ≡ true → g.reason ≢ none

module _ {R : Type 0} where
  select-Inv :
      (g : Guarded) (deadline : ℕ) (own : List R) (e : Ending)
      → g.stuck ≡ false
      → Inv g
      → Inv (select g deadline own e).0
  unfolding select
  select-Inv g deadline own (answered none) idle h = ground arith
  select-Inv g deadline own (answered (some e)) idle h = ground arith
  select-Inv g deadline own (panicked v) idle h = ground arith
  select-Inv g deadline own late idle h = ground arith

  pub collect-skip :
      (run : List R → List R × Ending) (deadline : ℕ) (readings : List R) (g : Guarded)
      → (g.disabled || g.stuck) ≡ true
      → ((collect run deadline readings g).0 ≡ g)
        × ((collect run deadline readings g).1.added ≡ [])
        × ((collect run deadline readings g).1.problem
            ≡ (if g.disabled then g.reason else some still_inside))
  unfolding collect
  collect-skip run deadline readings g skip = ground arith

  pub collect-select :
      (run : List R → List R × Ending) (deadline : ℕ) (readings : List R) (g : Guarded)
      → (g.disabled || g.stuck) ≡ false
      → collect run deadline readings g ≡ select g deadline (run readings).0 (run readings).1
  unfolding collect
  collect-select run deadline readings g idle = ground arith

  Step-Inv : {g h : Guarded} → Step R g h → Inv g → Inv h
  Step-Inv (collecting g run deadline readings) h = elim (Bool-cases (g.disabled || g.stuck)) [
    | inl skip ↦ rw (collect-skip run deadline readings g skip).0 h
    | inr idle ↦
        rw (collect-select run deadline readings g idle)
          (select-Inv g deadline (run readings).0 (run readings).1 (ground arith) h)
  ]
  Step-Inv (returning g outcome i) h = unfold returned in ground arith

  -- Whatever a source does, over any sequence of collections and of returns of late runs, at most one
  -- goroutine is inside it after its deadline, exactly while it is marked stuck; and a disabled source
  -- has a reason to show.
  pub Reach-inside : {g : Guarded} → Reach R fresh g → (g.inside ≤ 1) × Inv g
  Reach-inside here = (omega arith, ground arith)
  Reach-inside (next r s) = let h = Step-Inv s (Reach-inside r).1 in (ground arith, h)

  Step-disabled :
      {g h : Guarded} → Step R g h → g.disabled ≡ true → (h.disabled ≡ true) × (h.reason ≡ g.reason)
  Step-disabled (collecting g run deadline readings) off =
      rw (collect-skip run deadline readings g (ground arith)).0 (off, refl)
  Step-disabled (returning g outcome i) off = unfold returned in (off, refl)

  Reach-disabled :
      {g h : Guarded}
      → g.disabled ≡ true
      → Reach R g h
      → (h.disabled ≡ true) × (h.reason ≡ g.reason)
  Reach-disabled off here = (off, refl)
  Reach-disabled off (next r s) =
      let (o, e) = Reach-disabled off r in let (o', e') = Step-disabled s o in (o', e' ∙ e)

  -- A source that panicked in time while it was neither disabled nor stuck is never called again: every
  -- later collection, whatever happens in between, adds nothing and reports that panic.
  pub panicked_stays :
      (g : Guarded) (run : List R → List R × Ending) (deadline : ℕ) (readings : List R) (value : ℕ)
      {h : Guarded}
      → (g.disabled || g.stuck) ≡ false
      → (run readings).1 ≡ panicked value
      → Reach R (collect run deadline readings g).0 h
      → (run' : List R → List R × Ending) (deadline' : ℕ) (readings' : List R)
      → collect run' deadline' readings' h
        ≡ (h, record { added = []; problem = some (disabled_after_panic value) })
  panicked_stays g run deadline readings value {h} idle crash r run' deadline' readings' =
      let e : (collect run deadline readings g).0
          ≡ record g { disabled = true; reason = some (disabled_after_panic value) } =
        rw (collect-select run deadline readings g idle, crash) (unfold select in refl) in
      let (o, why) = Reach-disabled {g = (collect run deadline readings g).0} (rw e refl) r in
      unfold collect in rw o (rw (why, e) refl)

  collect-answered :
      (g : Guarded) (run : List R → List R × Ending) (deadline : ℕ) (readings : List R)
      → (g.disabled || g.stuck) ≡ false
      → (e : Option ℕ) → (run readings).1 ≡ answered e
      → ((collect run deadline readings g).0 ≡ g)
        × ((collect run deadline readings g).1.added ≡ (run readings).0)
        × (((collect run deadline readings g).1.problem ≡ none) ↔ (e ≡ none))
  collect-answered g run deadline readings idle none end =
      rw (collect-select run deadline readings g idle, end)
        (unfold select in (refl, refl, ground arith))
  collect-answered g run deadline readings idle (some v) end =
      rw (collect-select run deadline readings g idle, end)
        (unfold select in (refl, refl, ground arith))

  -- A source's readings reach the set only where it answered in time and did not panic; where it did
  -- not answer in time it is marked stuck, and the set gets nothing.
  pub collect_exact :
      (g : Guarded) (run : List R → List R × Ending) (deadline : ℕ) (readings : List R)
      → (g.disabled || g.stuck) ≡ false
      → let (h, result) = collect run deadline readings g in
        ((e : Option ℕ)
          → (run readings).1 ≡ answered e
          → (h ≡ g) × (result.added ≡ (run readings).0) × ((result.problem ≡ none) ↔ (e ≡ none)))
        × ((value : ℕ)
            → (run readings).1 ≡ panicked value
            → (h.disabled ≡ true)
              × (h.stuck ≡ false)
              × (result.added ≡ [])
              × (result.problem ≡ some (disabled_after_panic value)))
        × ((run readings).1 ≡ late
            → (h.stuck ≡ true)
              × (h.disabled ≡ false)
              × (result.added ≡ [])
              × (result.problem ≡ some (no_answer deadline)))
  collect_exact g run deadline readings idle = (
    collect-answered g run deadline readings idle,
    (λ value crash.
        rw (collect-select run deadline readings g idle, crash) (unfold select in ground arith)),
    (λ end. rw (collect-select run deadline readings g idle, end) (unfold select in ground arith)),
  )

  -- How a late run ends is not looked at: when a source that was neither disabled nor stuck overran its
  -- deadline and then panicked, the guard is afterwards neither disabled nor stuck, with the reason it
  -- had before, so that the next collection calls the source again.
  pub late_panic_unseen :
      (g : Guarded) (run : List R → List R × Ending) (deadline : ℕ) (readings : List R) (value : ℕ)
      → (g.disabled || g.stuck) ≡ false
      → (run readings).1 ≡ late
      → let h = returned (panicked value) (collect run deadline readings g).0 in
        (h.disabled ≡ false)
        × (h.stuck ≡ false)
        × (h.reason ≡ g.reason)
        × ((run' : List R → List R × Ending) (deadline' : ℕ) (readings' : List R)
            → collect run' deadline' readings' h
              ≡ select h deadline' (run' readings').0 (run' readings').1)
  late_panic_unseen g run deadline readings value idle end =
      rw (collect-select run deadline readings g idle, end)
        (unfold select in
          unfold returned in
          (
            ground arith,
            refl,
            refl,
            (λ run' deadline' readings'.
                collect-select run' deadline' readings'
                  (returned (panicked value) (record g { stuck = true; inside = g.inside + 1 }))
                  (ground arith)),
          ))
