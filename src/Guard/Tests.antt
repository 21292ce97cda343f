-- ===== src/Guard/Tests.antt =====
-- Runs of the guard's definitions on concrete readings.
use rig_exporter.Base.{inr, ℕ, ◌≡◌, refl, none, some, List, [], ◌∷◌, ◌≤◌, arith, false}
use rig_exporter.Guard.{
  disabled_after_panic, no_answer, fresh, Ending, answered, panicked, late, collect, select,
  returned,
}
use rig_exporter.Guard.Slices.{Memory, Slice, clip, write, grow, append}
use rig_exporter.Guard.Sharing.{Write, by_set, by_late, step, run, Holds, run_clipped}
use rig_exporter.Guard.Life.{
  collecting, returning, Reach, Inv, here, next, Reach-inside, late_panic_unseen,
}
use rig_exporter.Guard.Loop.{Source, Pass, collect_sources, failing_source_costs_itself}

abbrev slow : List ℕ → List ℕ × Ending
slow rs = (5 ∷ [], late)

abbrev broken : List ℕ → List ℕ × Ending
broken rs = (5 ∷ [], panicked 7)

abbrev fine : List ℕ → List ℕ × Ending
fine rs = (5 ∷ 6 ∷ [], answered none)

-- An array of room for four readings of which the set holds one.
abbrev roomy : Memory ℕ
roomy = write (record { cell = λ a i. none; next = 1 }) 0 0 9

abbrev one_of_four : Slice
one_of_four = record { array = 0; len = 1; cap = 4 }

abbrev race : List (Write ℕ)
race = by_set 3 1 ∷ by_late 3 66 ∷ by_set 3 2 ∷ by_late 3 67 ∷ []

run_clipped_example :
    let s = run (record { memory = roomy; set = one_of_four; own = clip one_of_four }) race in
    Holds s.memory s.set (9 ∷ 1 ∷ 2 ∷ [])
run_clipped_example =
    run_clipped roomy one_of_four race (9 ∷ []) (unfold write in omega arith)
      (unfold write in (refl, refl))

-- Without the clip the source's append lands in the set.
unclipped :
    let s = run (record { memory = roomy; set = one_of_four; own = one_of_four }) race in
    s.memory.cell s.set.array 1 ≡ some 66
unfolding run step append write grow
unclipped = refl

late_then_back : Reach ℕ fresh (returned (panicked 3) (collect slow 10 (1 ∷ []) fresh).0)
unfolding collect select
late_then_back =
    next (next here (collecting fresh slow 10 (1 ∷ [])))
      (returning (collect slow 10 (1 ∷ []) fresh).0 (panicked 3) (omega arith))

Reach-inside_example :
    let g = returned (panicked 3) (collect slow 10 (1 ∷ []) fresh).0 in (g.inside ≤ 1) × Inv g
Reach-inside_example = Reach-inside late_then_back

late_panic_unseen_example :
    let h = returned (panicked 3) (collect slow 10 (1 ∷ []) fresh).0 in
    (h.disabled ≡ false)
    × (h.stuck ≡ false)
    × (h.reason ≡ none)
    × ((run' : List ℕ → List ℕ × Ending) (deadline' : ℕ) (readings' : List ℕ)
        → collect run' deadline' readings' h
          ≡ select h deadline' (run' readings').0 (run' readings').1)
late_panic_unseen_example = late_panic_unseen fresh slow 10 (1 ∷ []) 3 refl refl

-- A source of a group that was never called.
abbrev named : ℕ → (List ℕ → List ℕ × Ending) → Source ℕ
named group run' = record { group = group; origin = 0; guarded = fresh; run = λ origin. run' }

abbrev nothing_read : Pass ℕ
nothing_read = record { sources = []; readings = 1 ∷ []; errors = [] }

one_slow_of_three :
    let pass =
      collect_sources 10 nothing_read (named 1 fine ∷ named 2 slow ∷ named 3 broken ∷ []) in
    (pass.readings ≡ 1 ∷ 5 ∷ 6 ∷ [])
    × (pass.errors ≡ (2, no_answer 10) ∷ (3, disabled_after_panic 7) ∷ [])
unfolding collect_sources collect select
one_slow_of_three = (refl, refl)

failing_source_costs_itself_example :
    (collect_sources 10 nothing_read (named 1 fine ∷ named 2 slow ∷ named 3 fine ∷ [])).readings
    ≡ (collect_sources 10 nothing_read (named 1 fine ∷ named 3 fine ∷ [])).readings
failing_source_costs_itself_example =
    failing_source_costs_itself 10 nothing_read (named 1 fine ∷ []) (named 3 fine ∷ [])
      (named 2 slow) (inr (refl, λ readings. inr refl))
