-- ===== src/Guard/Slices.antt =====
-- Go's slices, as internal/collector/guard.go uses them: a slice is an array, a length and a capacity,
-- and `append` writes in place where the capacity allows it.
use rig_exporter.Base.{ℕ, ◌+◌, ◌&&◌, Option, some, ltb, ◌==◌, if◌then◌else◌}

-- The arrays, by number and index; `next` is the number of the next array to be allocated.
pub record Memory (R : Type 0) : Type 0 where
  pub next : ℕ
  pub cell : ℕ → ℕ → Option R

pub record Slice : Type 0 where
  pub array : ℕ
  pub len : ℕ
  pub cap : ℕ

-- s[:len(s):len(s)]
unfoldable pub clip : Slice → Slice
clip s = record s { cap = s.len }

module _ {R : Type 0} where
  unfoldable pub write : Memory R → ℕ → ℕ → R → Memory R
  write m a i r = record m { cell = λ b j. if b == a && j == i then some r else m.cell b j }

  -- A new array that holds the slice's elements and `r`.
  unfoldable pub grow : Memory R → Slice → R → Memory R
  grow m s r = record {
    next = m.next + 1;
    cell = λ b j.
        if b == m.next then (if j == s.len then some r else m.cell s.array j) else m.cell b j;
  }

  -- append(s, r), `extra` being the room that the runtime adds to a new array
  unfoldable pub append : ℕ → Memory R → Slice → R → Memory R × Slice
  unfolding write grow
  append extra m s r =
      if ltb s.len s.cap
      then (write m s.array s.len r, record s { len = s.len + 1 })
      else (grow m s r, record { array = m.next; len = s.len + 1; cap = s.len + 1 + extra })
