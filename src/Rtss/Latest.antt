-- ===== src/Rtss/Latest.antt =====
-- internal/rtss/rtss.go: `SelectActive` without a foreground process.
use rig_exporter.Base.{
  ℕ, ◌+◌, ◌-◌, ◌%◌, ◌^◌, ◌≤◌, ◌<◌, ◌≡◌, ◌⊎◌, inl, inr, true, Option, none, some, List, [], ◌∷◌,
  arith, ltb, Bool-cases, All,
}
use rig_exporter.Rtss.{Entry, is_skipped, newer, select_from, select_active, after}

-- How long after the tick `base` the entry was last rendered.
abbrev pub since : ℕ → Entry → ℕ
since base e = (e.time1 + 2 ^ 32 - base) % 2 ^ 32

-- The entry's tick lies less than 2^31 ms after `base`.
abbrev pub IsWithin : ℕ → Entry → Type 0
IsWithin base e = (e.time1 < 2 ^ 32) × (since base e < 2 ^ 31)

abbrev pub IsNoLater : ℕ → ℕ → ℕ → Entry → Entry → Type 0
IsNoLater base now max_age e x = (is_skipped x now max_age ≡ true) ⊎ (since base x ≤ since base e)

module _ (base : ℕ) (start : base < 2 ^ 32) where
  after-since :
      (x y : Entry)
      → IsWithin base x
      → IsWithin base y
      → after x.time1 y.time1 ≡ ltb (since base y) (since base x)
  unfolding after
  after-since x y hx hy = ground arith

  -- What `best` contributes to the comparison.
  abbrev IsWithinOpt : Option Entry → Type 0
  IsWithinOpt none = Unit
  IsWithinOpt (some b) = IsWithin base b

  abbrev IsNoLaterOpt : Option Entry → Entry → Type 0
  IsNoLaterOpt none e = Unit
  IsNoLaterOpt (some b) e = since base b ≤ since base e

  newer-within :
      (x : Entry) (best : Option Entry)
      → IsWithin base x
      → IsWithinOpt best
      → IsWithinOpt (newer x best)
  unfolding newer
  newer-within x none hx hb = hx
  newer-within x (some b) hx hb = elim (Bool-cases (after x.time1 b.time1)) [
    | inl yes' ↦ rw yes' hx
    | inr no' ↦ rw no' hb
  ]

  newer-bound :
      (x : Entry) (best : Option Entry) (e : Entry)
      → IsWithin base x
      → IsWithinOpt best
      → IsNoLaterOpt (newer x best) e
      → (since base x ≤ since base e) × IsNoLaterOpt best e
  unfolding newer
  newer-bound x none e hx hb h = (h, tt)
  newer-bound x (some b) e hx hb h = ground (arith, after-since x b hx hb)

  module _ (now max_age : ℕ) where
    from-latest :
        (best : Option Entry) (es : List Entry) (e : Entry)
        → IsWithinOpt best
        → All (IsWithin base) es
        → select_from best es 0 now max_age ≡ some e
        → IsNoLaterOpt best e × All (IsNoLater base now max_age e) es
    unfolding select_from
    from-latest best [] e hb hs h = (rw h (omega arith), tt)
    from-latest best (x ∷ es) e hb hs h = elim (Bool-cases (is_skipped x now max_age)) [
      | inl skip ↦ let r = from-latest best es e hb hs.1 (rw skip at h) in (r.0, (inl skip, r.1))
      | inr live ↦
          let r =
            from-latest (newer x best) es e (newer-within x best hs.0 hb) hs.1 (rw live at h) in
          let b = newer-bound x best e hs.0 hb r.0 in (b.1, (inr b.0, r.1))
    ]

-- Where no process is in the foreground and all the entries' ticks lie within the 2^31 ms behind
-- some tick `base`, no eligible entry was rendered later than the one that `select_active` returns.
pub select_active-latest :
    (base : ℕ) (entries : List Entry) (now max_age : ℕ) (e : Entry)
    → base < 2 ^ 32
    → All (IsWithin base) entries
    → select_active entries 0 now max_age ≡ some e
    → All (IsNoLater base now max_age e) entries
unfolding select_active
select_active-latest base entries now max_age e start within h =
    (from-latest base start now max_age none entries e tt within h).1
