-- ===== src/Guard/Loop.antt =====
-- internal/collector/collector.go: the loop of `Collect` over the optional sources, each under its guard.
use rig_exporter.Base.{
  ℕ, ◌≡◌, ◌⊎◌, inl, inr, refl, ap, ◌∙◌, true, false, ◌||◌, Option, none, some, List, [], ◌∷◌, ◌++◌,
  append-nil,
}
use rig_exporter.Guard.{Problem, Guarded, Ending, panicked, late, collect, select}
use rig_exporter.Guard.Life.{collect-skip, collect-select}

-- A registered source: a number for its group, the origin that its readings are stamped with, its guard,
-- and what it does when it is called with an origin and the readings so far.
pub record Source (R : Type 0) : Type 0 where
  pub group : ℕ
  pub origin : ℕ
  pub guarded : Guarded
  pub run : ℕ → List R → List R × Ending

-- The sources afterwards, the readings, and `SourceErrors` in the order in which it is written.
pub record Pass (R : Type 0) : Type 0 where
  pub sources : List (Source R)
  pub readings : List R
  pub errors : List (ℕ × Problem)

unfoldable pub note_error : ℕ → Option Problem → List (ℕ × Problem) → List (ℕ × Problem)
note_error group none errors = errors
note_error group (some p) errors = errors ++ (group, p) ∷ []

module _ {R : Type 0} where
  -- One round of the loop.
  unfoldable pub collect_source : ℕ → Pass R → Source R → Pass R
  unfolding note_error
  collect_source deadline pass s =
      let (g, result) = collect (s.run s.origin) deadline pass.readings s.guarded in
      record {
        sources = pass.sources ++ record s { guarded = g } ∷ [];
        readings = pass.readings ++ result.added;
        errors = note_error s.group result.problem pass.errors;
      }

  unfoldable pub collect_sources : ℕ → Pass R → List (Source R) → Pass R
  unfolding collect_source
  collect_sources deadline pass [] = pass
  collect_sources deadline pass (s ∷ ss) =
      collect_sources deadline (collect_source deadline pass s) ss

  -- A source that gives nothing: disabled, stuck, or about to panic or to overrun, whatever it is given.
  abbrev pub IsFailing : Source R → Type 0
  IsFailing s =
      ((s.guarded.disabled || s.guarded.stuck) ≡ true)
      ⊎ (((s.guarded.disabled || s.guarded.stuck) ≡ false)
          × ((readings : List R)
              → ((value : ℕ) × ((s.run s.origin readings).1 ≡ panicked value))
                ⊎ ((s.run s.origin readings).1 ≡ late)))

  failing-added :
      (deadline : ℕ) (readings : List R) (s : Source R)
      → IsFailing s
      → (collect (s.run s.origin) deadline readings s.guarded).1.added ≡ []
  failing-added deadline readings s (inl skip) =
      (collect-skip (s.run s.origin) deadline readings s.guarded skip).1
  failing-added deadline readings s (inr (idle, ends)) = elim (ends readings) [
    | inl (value, e) ↦
        rw (collect-select (s.run s.origin) deadline readings s.guarded idle, e)
          (unfold select in refl)
    | inr e ↦
        rw (collect-select (s.run s.origin) deadline readings s.guarded idle, e)
          (unfold select in refl)
  ]

  -- The readings of a pass follow from those it starts with.
  collect_sources-readings :
      (deadline : ℕ) (pass other : Pass R) (ss : List (Source R))
      → pass.readings ≡ other.readings
      → (collect_sources deadline pass ss).readings ≡ (collect_sources deadline other ss).readings
  unfolding collect_sources collect_source
  collect_sources-readings deadline pass other [] e = e
  collect_sources-readings deadline pass other (s ∷ ss) e =
      collect_sources-readings deadline (collect_source deadline pass s)
        (collect_source deadline other s) ss
        (ap (λ rs. rs ++ (collect (s.run s.origin) deadline rs s.guarded).1.added) e)

  -- A source that is disabled or stuck, or that panics or overruns its deadline, costs only itself: the
  -- pass has the readings that it has without it, wherever the source stands among the others.
  pub failing_source_costs_itself :
      (deadline : ℕ) (pass : Pass R) (before after : List (Source R)) (s : Source R)
      → IsFailing s
      → (collect_sources deadline pass (before ++ s ∷ after)).readings
        ≡ (collect_sources deadline pass (before ++ after)).readings
  unfolding collect_sources collect_source
  failing_source_costs_itself deadline pass [] after s h =
      collect_sources-readings deadline (collect_source deadline pass s) pass after (
        ap (λ rs. pass.readings ++ rs) (failing-added deadline pass.readings s h)
        ∙ append-nil pass.readings)
  failing_source_costs_itself deadline pass (b ∷ before) after s h =
      failing_source_costs_itself deadline (collect_source deadline pass b) before after s h
