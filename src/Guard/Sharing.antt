-- ===== src/Guard/Sharing.antt =====
-- internal/collector/guard.go: the appends of the collector to the set and of a source that overran its
-- deadline to the slice it was given, in any order.
use rig_exporter.Base.{
  ℕ, ◌+◌, ◌≤◌, ◌<◌, ◌≡◌, ◌∙◌, some, List, [], ◌∷◌, ◌++◌, append-nil, append_assoc, arith,
}
use rig_exporter.Guard.Slices.{Memory, Slice, clip, write, grow, append}

-- An append by the collector to the set, or by the late source to its own slice.
pub data Write (R : Type 0) : Type 0 where
  by_set : ℕ → R → Write R
  by_late : ℕ → R → Write R

-- The memory, the set's slice and the late source's slice.
pub record Shared (R : Type 0) : Type 0 where
  pub memory : Memory R
  pub set : Slice
  pub own : Slice

-- The two slices name arrays that exist, and where they share one the source's slice is full.
pub record IsApart {R : Type 0} (s : Shared R) : Type 0 where
  pub set_old : s.set.array < s.memory.next
  pub own_old : s.own.array < s.memory.next
  pub full : s.own.array ≡ s.set.array → s.own.len ≡ s.own.cap

module _ {R : Type 0} where
  unfoldable pub step : Shared R → Write R → Shared R
  step s (by_set extra r) =
      let (m, t) = append extra s.memory s.set r in record s { memory = m; set = t }
  step s (by_late extra r) =
      let (m, t) = append extra s.memory s.own r in record s { memory = m; own = t }

  unfoldable pub run : Shared R → List (Write R) → Shared R
  run s [] = s
  run s (w ∷ ws) = run (step s w) ws

  -- The slice holds these readings, from index `i` on.
  abbrev pub HoldsFrom : Memory R → Slice → ℕ → List R → Type 0
  HoldsFrom m s i [] = s.len ≡ i
  HoldsFrom m s i (r ∷ rs) = (m.cell s.array i ≡ some r) × HoldsFrom m s (i + 1) rs

  abbrev pub Holds : Memory R → Slice → List R → Type 0
  Holds m s rs = HoldsFrom m s 0 rs

  step-IsApart : (s : Shared R) (w : Write R) → IsApart s → IsApart (step s w)
  unfolding step append write grow
  step-IsApart s (by_set extra r) h = ground arith
  step-IsApart s (by_late extra r) h = ground arith

  -- What the set's writer appends, in order.
  abbrev pub set_writes : List (Write R) → List R
  set_writes [] = []
  set_writes (by_set extra r ∷ ws) = r ∷ set_writes ws
  set_writes (by_late extra r ∷ ws) = set_writes ws

  HoldsFrom-le : (m : Memory R) (s : Slice) (i : ℕ) (rs : List R) → HoldsFrom m s i rs → i ≤ s.len
  HoldsFrom-le m s i [] h = omega arith
  HoldsFrom-le m s i (r ∷ rs) h = omega (arith, HoldsFrom-le m s (i + 1) rs h.1)

  -- A write elsewhere leaves what the slice holds.
  HoldsFrom-same :
      (m m' : Memory R) (s : Slice) (i : ℕ) (rs : List R)
      → ((j : ℕ) → j < s.len → m'.cell s.array j ≡ m.cell s.array j)
      → HoldsFrom m s i rs
      → HoldsFrom m' s i rs
  HoldsFrom-same m m' s i [] same h = h
  HoldsFrom-same m m' s i (r ∷ rs) same h = (
    same i (omega (arith, HoldsFrom-le m s (i + 1) rs h.1)) ∙ h.0,
    HoldsFrom-same m m' s (i + 1) rs same h.1,
  )

  -- An append, in place or into a new array, adds one reading at the end.
  HoldsFrom-append :
      (m m' : Memory R) (s s' : Slice) (i : ℕ) (rs : List R) (r : R)
      → ((j : ℕ) → j < s.len → m'.cell s'.array j ≡ m.cell s.array j)
      → m'.cell s'.array s.len ≡ some r
      → s'.len ≡ s.len + 1
      → HoldsFrom m s i rs
      → HoldsFrom m' s' i (rs ++ r ∷ [])
  HoldsFrom-append m m' s s' i [] r same last longer h = (rw (← h) last, omega arith)
  HoldsFrom-append m m' s s' i (x ∷ rs) r same last longer h = (
    same i (omega (arith, HoldsFrom-le m s (i + 1) rs h.1)) ∙ h.0,
    HoldsFrom-append m m' s s' (i + 1) rs r same last longer h.1,
  )

  step-set :
      (s : Shared R) (extra : ℕ) (r : R) (rs : List R)
      → s.set.array < s.memory.next
      → Holds s.memory s.set rs
      → Holds (step s (by_set extra r)).memory (step s (by_set extra r)).set (rs ++ r ∷ [])
  unfolding step append write grow
  step-set s extra r rs old h =
      HoldsFrom-append s.memory (step s (by_set extra r)).memory s.set (step s (by_set extra r)).set
        0 rs r (λ j lt. ground arith) (ground arith) (ground arith) h

  step-late :
      (s : Shared R) (extra : ℕ) (r : R) (rs : List R)
      → IsApart s
      → Holds s.memory s.set rs
      → Holds (step s (by_late extra r)).memory (step s (by_late extra r)).set rs
  unfolding step append write grow
  step-late s extra r rs apart h =
      HoldsFrom-same s.memory (step s (by_late extra r)).memory s.set 0 rs (λ j lt. ground arith) h

  run-Holds :
      (s : Shared R) (ws : List (Write R)) (rs : List R)
      → IsApart s
      → Holds s.memory s.set rs
      → Holds (run s ws).memory (run s ws).set (rs ++ set_writes ws)
  unfolding run
  run-Holds s [] rs apart h = rw append-nil h
  run-Holds s (by_set extra r ∷ ws) rs apart h = rw (← append_assoc rs (r ∷ []) (set_writes ws)) (
      run-Holds (step s (by_set extra r)) ws (rs ++ r ∷ []) (step-IsApart s (by_set extra r) apart)
        (step-set s extra r rs apart.set_old h))
  run-Holds s (by_late extra r ∷ ws) rs apart h =
      run-Holds (step s (by_late extra r)) ws rs (step-IsApart s (by_late extra r) apart)
        (step-late s extra r rs apart h)

  -- Where a late source was given the set's slice clipped to its length, then however the collector's
  -- appends and the source's appends interleave and whatever room the runtime adds to new arrays, the
  -- set holds the readings it held and behind them exactly those that the collector appended.
  pub run_clipped :
      (m : Memory R) (set : Slice) (ws : List (Write R)) (rs : List R)
      → set.array < m.next
      → Holds m set rs
      → let s = run (record { memory = m; set = set; own = clip set }) ws in
        Holds s.memory s.set (rs ++ set_writes ws)
  unfolding clip
  run_clipped m set ws rs old h =
      run-Holds (record { memory = m; set = set; own = clip set }) ws rs (ground arith) h
