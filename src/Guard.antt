-- ===== src/Guard.antt =====
-- internal/collector/guard.go: one optional source under its deadline. A run of the source is what it
-- adds and how it ends; the clock decides whether the end comes before the deadline.
pub mod Slices
pub mod Sharing
pub mod Life
pub mod Loop
mod Tests
use rig_exporter.Base.{[], ℕ, ◌+◌, ◌-◌, Bool, true, false, Option, none, some, List, if◌then◌else◌}

-- What a source's collection can be refused or fail with; a number stands for an error or panic value.
pub data Problem : Type 0 where
  disabled_after_panic : ℕ → Problem
  still_inside : Problem
  no_answer : ℕ → Problem
  source_error : ℕ → Problem

-- `inside` counts the goroutines that are in the source's `Collect` after their deadline.
pub record Guarded : Type 0 where
  pub stuck : Bool
  pub disabled : Bool
  pub reason : Option Problem
  pub inside : ℕ

abbrev pub fresh : Guarded
fresh = record { stuck = false; disabled = false; reason = none; inside = 0 }

-- How a run of the source ends: in time, with its error; in time, in a panic; or not in time.
pub data Ending : Type 0 where
  answered : Option ℕ → Ending
  panicked : ℕ → Ending
  late : Ending

-- What `collect` appends to the set, and what it returns.
pub record Result (R : Type 0) : Type 0 where
  pub added : List R
  pub problem : Option Problem

module _ {R : Type 0} where
  -- The `select`: `own` is what the source appended behind the readings it was given.
  unfoldable pub select : Guarded → ℕ → List R → Ending → Guarded × Result R
  select g deadline own (answered none) = (g, record { added = own; problem = none })
  select g deadline own (answered (some e)) =
      (g, record { added = own; problem = some (source_error e) })
  select g deadline own (panicked value) = (
    record g { disabled = true; reason = some (disabled_after_panic value) },
    record { added = []; problem = some (disabled_after_panic value) },
  )
  select g deadline own late = (
    record g { stuck = true; inside = g.inside + 1 },
    record { added = []; problem = some (no_answer deadline) },
  )

  -- `run` is what the source would do with the readings it is given, if it is called.
  unfoldable pub collect : (List R → List R × Ending) → ℕ → List R → Guarded → Guarded × Result R
  unfolding select
  collect run deadline readings g =
      if g.disabled
      then (g, record { added = []; problem = g.reason })
      else if g.stuck
      then (g, record { added = []; problem = some still_inside })
      else (let (own, ending) = run readings in select g deadline own ending)

-- The goroutine that waits for a late run: it receives how the run ended, and `g.stuck.Store(false)`.
unfoldable pub returned : Ending → Guarded → Guarded
returned outcome g = record g { stuck = false; inside = g.inside - 1 }
