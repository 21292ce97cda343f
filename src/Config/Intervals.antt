-- ===== src/Config/Intervals.antt =====
-- internal/config/config.go: the bounds of one number, `clampInt`, and the rounding of a publish interval
-- to a whole number of reads, `snapToPoll`.
use rig_exporter.Base.{
  ℕ, ◌+◌, ◌-◌, ◌%◌, ◌≤◌, ◌<◌, ◌≡◌, inl, inr, refl, sym, ap, ◌∙◌, Bool, false, not, ◌||◌, arith, ltb,
  leb, ◌==◌, if◌then◌else◌, ==→eq, Bool-cases,
}
use native.Mathlib.Nat.{mod-lt, mod-eq_of_lt, mod-add-mod, add-mod_right}
use rig_exporter.Base.Integers.{ℤ, pos, negsuc, to_nat, ltb_int}

abbrev pub is_zero : ℤ → Bool
is_zero (pos n) = n == 0
is_zero (negsuc n) = false

unfoldable pub clamp_int : ℤ → ℕ → ℕ → ℕ → ℤ
clamp_int v lo hi fallback =
    if is_zero v
    then pos fallback
    else if ltb_int v (pos lo)
    then pos lo
    else if ltb_int (pos hi) v
    then pos hi
    else v

-- Go's max of two int values
abbrev max_int : ℤ → ℤ → ℤ
max_int a b = if ltb_int a b then b else a

-- the last lines of snapToPoll, where 0 < poll <= interval
unfoldable round_up : ℕ → ℕ → ℕ
round_up interval poll =
    let remainder = interval % poll in
    if remainder == 0 then interval else interval + (poll - remainder)

unfoldable pub snap_to_poll : ℤ → ℤ → ℤ
unfolding round_up
snap_to_poll interval poll =
    if not (ltb_int (pos 0) poll) || ltb_int interval poll
    then max_int interval poll
    else pos (round_up (to_nat interval) (to_nat poll))

-- A port is kept where a socket can have it.
unfoldable pub port_or : ℤ → ℤ → ℤ
port_or fallback v = if not (ltb_int (pos 0) v) || ltb_int (pos 65535) v then fallback else v

-- A number of the range.
abbrev pub IsBetween : ℕ → ℕ → ℤ → Type 0
IsBetween lo hi (pos n) = lo ≤ n × n ≤ hi
IsBetween lo hi (negsuc n) = ⊥

pub clamp_int-IsBetween :
    (v : ℤ) (lo hi fallback : ℕ)
    → lo ≤ fallback
    → fallback ≤ hi
    → IsBetween lo hi (clamp_int v lo hi fallback)
unfolding clamp_int
clamp_int-IsBetween (pos n) lo hi fallback h k = ground arith
clamp_int-IsBetween (negsuc n) lo hi fallback h k = ground arith

pub clamp_int-fixed :
    (v : ℤ) (lo hi fallback : ℕ) → 0 < lo → IsBetween lo hi v → clamp_int v lo hi fallback ≡ v
unfolding clamp_int
clamp_int-fixed (pos n) lo hi fallback h k = ground arith
clamp_int-fixed (negsuc n) lo hi fallback h k = ground arith

pub port_or-IsBetween :
    (v : ℤ) (fallback : ℕ)
    → IsBetween 1 65535 (pos fallback)
    → IsBetween 1 65535 (port_or (pos fallback) v)
unfolding port_or
port_or-IsBetween (pos n) fallback h = ground arith
port_or-IsBetween (negsuc n) fallback h = ground arith

pub port_or-fixed : (v fallback : ℤ) → IsBetween 1 65535 v → port_or fallback v ≡ v
unfolding port_or
port_or-fixed (pos n) fallback h = ground arith
port_or-fixed (negsuc n) fallback h = ground arith

mod_self : (p : ℕ) → 0 < p → p % p ≡ 0
mod_self p h =
    let e : p ≡ 0 + p = omega arith in ap (λ t. t % p) e ∙ add-mod_right 0 p ∙ mod-eq_of_lt h

-- The least multiple that is not below the number.
record IsNext (n p s : ℕ) : Type 0 where
  multiple : s % p ≡ 0
  above : n ≤ s
  near : s < n + p

remainder_grows : (n d p : ℕ) → n % p + d < p → (n + d) % p ≡ n % p + d
remainder_grows n d p h = sym (mod-add-mod n p d) ∙ mod-eq_of_lt h

remainder_filled : (n p : ℕ) → 0 < p → (n + (p - n % p)) % p ≡ 0
remainder_filled n p h =
    let filled : n % p + (p - n % p) ≡ 0 + p = omega (arith, mod-lt n h) in
    sym (mod-add-mod n p (p - n % p)) ∙ ap (λ t. t % p) filled ∙ add-mod_right 0 p ∙ mod-eq_of_lt h

round_up-IsNext : (n p : ℕ) → 0 < p → IsNext n p (round_up n p)
unfolding round_up
round_up-IsNext n p h = elim (Bool-cases (n % p == 0)) [
  | inl e ↦ rw e (record { multiple = ==→eq (n % p) 0 e; above = omega arith; near = omega arith })
  | inr e ↦ rw e (record {
    multiple = remainder_filled n p h;
    above = omega arith;
    near = ground (arith, mod-lt n h);
  })
]

round_up_fixed : (n p : ℕ) → n % p ≡ 0 → round_up n p ≡ n
unfolding round_up
round_up_fixed n p h = rw h refl

round_up_again : (n m p : ℕ) → 0 < p → n ≤ m → m < round_up n p → round_up m p ≡ round_up n p
unfolding round_up
round_up_again n m p h k l =
    let split : n + (m - n) ≡ m = omega arith in
    let grown : n % p + (m - n) < p → m % p ≡ n % p + (m - n) =
      λ (b : n % p + (m - n) < p). sym (ap (λ t. t % p) split) ∙ remainder_grows n (m - n) p b in
    elim (Bool-cases (n % p == 0)) [
      | inl e ↦ ground arith
      | inr e ↦ ground (arith, mod-lt n h, grown)
    ]

-- A publish interval as Normalize settles it.
abbrev settled : ℤ → ℕ → ℤ → ℤ
settled v fallback poll = snap_to_poll (clamp_int v 250 300000 fallback) poll

-- A publish interval beside a poll interval: a whole number of reads, not more often than they are made,
-- and less than one read beyond the bound.
abbrev pub IsInStep : ℤ → ℤ → Type 0
IsInStep (pos s) (pos p) = (s % p ≡ 0) × p ≤ s × 250 ≤ s × s < 300000 + p
IsInStep _ _ = ⊥

snap_below : (n p : ℕ) → n < p → snap_to_poll (pos n) (pos p) ≡ pos p
unfolding snap_to_poll
snap_below n p h = ground arith

snap_above : (n p : ℕ) → 0 < p → p ≤ n → snap_to_poll (pos n) (pos p) ≡ pos (round_up n p)
unfolding snap_to_poll
snap_above n p h k = ground arith

pub snap-IsInStep :
    (v poll : ℤ)
    → IsBetween 250 300000 v
    → IsBetween 250 300000 poll
    → IsInStep (snap_to_poll v poll) poll
snap-IsInStep (pos n) (pos p) h k = elim (Bool-cases (ltb n p)) [
  | inl e ↦
      rw (snap_below n p (ground arith))
        (mod_self p (omega arith), omega arith, omega arith, omega arith)
  | inr e ↦
      let next = round_up-IsNext n p (omega arith) in
      rw (snap_above n p (omega arith) (ground arith))
        (next.multiple, ground arith, ground arith, ground arith)
]
snap-IsInStep (pos n) (negsuc p) h k = ground arith
snap-IsInStep (negsuc n) poll h k = ground arith

snap_multiple : (n p : ℕ) → 0 < p → p ≤ n → n % p ≡ 0 → snap_to_poll (pos n) (pos p) ≡ pos n
snap_multiple n p h k e = snap_above n p h k ∙ ap pos (round_up_fixed n p e)

clamp_above : (n fallback : ℕ) → 300000 < n → clamp_int (pos n) 250 300000 fallback ≡ pos 300000
unfolding clamp_int
clamp_above n fallback h = ground arith

rounded_again :
    (n p fallback : ℕ)
    → IsBetween 250 300000 (pos n)
    → IsBetween 250 300000 (pos p)
    → p ≤ n
    → settled (pos (round_up n p)) fallback (pos p) ≡ pos (round_up n p)
rounded_again n p fallback h k l =
    let next = round_up-IsNext n p (omega arith) in
    elim (Bool-cases (leb (round_up n p) 300000)) [
      | inl e ↦
          let within : IsBetween 250 300000 (pos (round_up n p)) = (ground arith, ground arith) in
          rw (clamp_int-fixed (pos (round_up n p)) 250 300000 fallback (omega arith) within)
            (snap_multiple (round_up n p) p (omega arith) (ground arith) next.multiple)
      | inr e ↦ rw (clamp_above (round_up n p) fallback (ground arith)) (
          snap_above 300000 p (omega arith) (omega arith)
          ∙ ap pos (round_up_again n 300000 p (omega arith) (omega arith) (ground arith)))
    ]

pub snap_again :
    (v poll : ℤ) (fallback : ℕ)
    → IsBetween 250 300000 v
    → IsBetween 250 300000 poll
    → settled (snap_to_poll v poll) fallback poll ≡ snap_to_poll v poll
snap_again (pos n) (pos p) fallback h k = elim (Bool-cases (ltb n p)) [
  | inl e ↦
      rw
        (snap_below n p (ground arith), clamp_int-fixed (pos p) 250 300000 fallback (omega arith) k)
        (snap_multiple p p (omega arith) (omega arith) (mod_self p (omega arith)))
  | inr e ↦
      let next = round_up-IsNext n p (omega arith) in
      rw (snap_above n p (omega arith) (ground arith))
        (rounded_again n p fallback h k (ground arith))
]
snap_again (pos n) (negsuc p) fallback h k = ground arith
snap_again (negsuc n) poll fallback h k = ground arith
