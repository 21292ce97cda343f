-- ===== src/Config/Targets.antt =====
-- What `cleanPingTargets` of internal/config/config.go makes of a list.
use rig_exporter.Base.{
  ℕ, zero, suc, ◌≤◌, ◌≡◌, ◌⊎◌, inl, inr, refl, sym, ap, Bool, true, false, ◌||◌, List, [], ◌∷◌, map,
  arith, Bool-cases, length,
}
use rig_exporter.Base.Unicode.{Unicode, list_eq, list_eq_sound, list_eq_refl}
use mathlib.Core.Path.{subst}
use rig_exporter.Config.Cleaning.{member, distinct_targets, clean_ping_targets, max_ping_targets}

abbrev Text : Type 0
Text = List ℕ

abbrev skips : Unicode → List Text → Text → Bool
skips u seen raw = list_eq (u.trim_space raw) [] || member (u.to_lower (u.trim_space raw)) seen

skipping :
    (u : Unicode) (room : ℕ) (seen : List Text) (raw : Text) (raws : List Text)
    → skips u seen raw ≡ true
    → distinct_targets u (suc room) seen (raw ∷ raws) ≡ distinct_targets u (suc room) seen raws
unfolding distinct_targets
skipping u room seen raw raws e = rw e refl

keeping :
    (u : Unicode) (room : ℕ) (seen : List Text) (raw : Text) (raws : List Text)
    → skips u seen raw ≡ false
    → distinct_targets u (suc room) seen (raw ∷ raws)
      ≡ u.trim_space raw ∷ distinct_targets u room (u.to_lower (u.trim_space raw) ∷ seen) raws
unfolding distinct_targets
keeping u room seen raw raws e = rw e refl

-- No target is blank, each is one of the texts without the space around it, and no two are the same up
-- to case, nor one of those seen.
abbrev pub IsFresh : Unicode → List Text → List Text → List Text → Type 0
IsFresh u raws seen [] = Unit
IsFresh u raws seen (t ∷ ts) =
    (list_eq t [] ≡ false)
    × (member t (map u.trim_space raws) ≡ true)
    × (member (u.to_lower t) seen ≡ false)
    × IsFresh u raws (u.to_lower t ∷ seen) ts

IsFresh-more :
    (u : Unicode) (raw : Text) (raws seen ts : List Text)
    → IsFresh u raws seen ts
    → IsFresh u (raw ∷ raws) seen ts
IsFresh-more u raw raws seen [] h = tt
IsFresh-more u raw raws seen (t ∷ ts) h =
    (h.0, ground (arith, h.1), h.2, IsFresh-more u raw raws (u.to_lower t ∷ seen) ts h.3)

distinct_targets-IsFresh :
    (u : Unicode) (room : ℕ) (seen raws : List Text)
    → IsFresh u raws seen (distinct_targets u room seen raws)
unfolding distinct_targets
distinct_targets-IsFresh u zero seen raws = tt
distinct_targets-IsFresh u (suc room) seen [] = tt
distinct_targets-IsFresh u (suc room) seen (raw ∷ raws) =
    let t = u.trim_space raw in
    let skipped = distinct_targets-IsFresh u (suc room) seen raws in
    let kept = distinct_targets-IsFresh u room (u.to_lower t ∷ seen) raws in
    elim (Bool-cases (skips u seen raw)) [
      | inl e ↦ rw (skipping u room seen raw raws e) (IsFresh-more u raw raws seen _ skipped)
      | inr e ↦ rw (keeping u room seen raw raws e) (
        ground arith,
        ground (arith, list_eq_refl t),
        ground arith,
        IsFresh-more u raw raws (u.to_lower t ∷ seen) _ kept,
      )
    ]

length-distinct_targets :
    (u : Unicode) (room : ℕ) (seen raws : List Text)
    → length (distinct_targets u room seen raws) ≤ room
unfolding distinct_targets
length-distinct_targets u zero seen raws = omega arith
length-distinct_targets u (suc room) seen [] = omega arith
length-distinct_targets u (suc room) seen (raw ∷ raws) =
    let t = u.trim_space raw in
    let skipped = length-distinct_targets u (suc room) seen raws in
    let kept = length-distinct_targets u room (u.to_lower t ∷ seen) raws in
    elim (Bool-cases (skips u seen raw)) [
      | inl e ↦ rw (skipping u room seen raw raws e) skipped
      | inr e ↦ rw (keeping u room seen raw raws e) (omega arith)
    ]

-- A text is blank, or one that is seen, or one of the targets up to case.
abbrev pub covered : Unicode → List Text → List Text → Text → Bool
covered u seen ts raw =
    list_eq (u.trim_space raw) []
    || member (u.to_lower (u.trim_space raw)) seen
    || member (u.to_lower (u.trim_space raw)) (map u.to_lower ts)

covered-skipped :
    (u : Unicode) (seen ts : List Text) (raw : Text)
    → skips u seen raw ≡ true
    → covered u seen ts raw ≡ true
covered-skipped u seen ts raw h = ground arith

covered-kept :
    (u : Unicode) (seen ts : List Text) (t raw : Text)
    → covered u (u.to_lower t ∷ seen) ts raw ≡ true
    → covered u seen (t ∷ ts) raw ≡ true
covered-kept u seen ts t raw h = ground arith

covered-first :
    (u : Unicode) (seen ts : List Text) (raw : Text)
    → covered u seen (u.trim_space raw ∷ ts) raw ≡ true
covered-first u seen ts raw = ground (arith, list_eq_refl (u.to_lower (u.trim_space raw)))

found :
    (raw r : Text) (raws : List Text)
    → member raw (r ∷ raws) ≡ true
    → (raw ≡ r) ⊎ (member raw raws ≡ true)
found raw r raws h = elim (Bool-cases (list_eq raw r)) [
  | inl e ↦ inl (list_eq_sound raw r e)
  | inr e ↦ inr (ground arith)
]

distinct_targets_complete :
    (u : Unicode) (room : ℕ) (seen raws : List Text) (raw : Text)
    → member raw raws ≡ true
    → (length (distinct_targets u room seen raws) ≡ room)
      ⊎ (covered u seen (distinct_targets u room seen raws) raw ≡ true)
unfolding distinct_targets
distinct_targets_complete u zero seen raws raw h = inl refl
distinct_targets_complete u (suc room) seen [] raw h = ground arith
distinct_targets_complete u (suc room) seen (r ∷ raws) raw h =
    let t = u.trim_space r in
    let skipped = distinct_targets_complete u (suc room) seen raws raw in
    let kept = distinct_targets_complete u room (u.to_lower t ∷ seen) raws raw in
    elim (Bool-cases (skips u seen r)) [
      | inl e ↦ rw (skipping u room seen r raws e) (elim (found raw r raws h) [
        | inl p ↦ inr (covered-skipped u seen _ raw (subst (λ x. skips u seen x ≡ true) (sym p) e))
        | inr m ↦ skipped m
      ])
      | inr e ↦ rw (keeping u room seen r raws e) (elim (found raw r raws h) [
        | inl p ↦ inr (
            subst
              (λ x.
                covered u seen (t ∷ distinct_targets u room (u.to_lower t ∷ seen) raws) x ≡ true)
              (sym p) (covered-first u seen _ r))
        | inr m ↦ elim (kept m) [
          | inl full ↦ inl (ap suc full)
          | inr c ↦ inr (covered-kept u seen _ t raw c)
        ]
      ])
    ]

-- What the list of targets is, beside the texts that were given.
pub record IsTidy (u : Unicode) (raws out : List Text) : Type 0 where
  pub bounded : length out ≤ max_ping_targets
  pub fresh : IsFresh u raws [] out
  pub complete :
      (raw : Text)
      → member raw raws ≡ true
      → (length out ≡ max_ping_targets) ⊎ (covered u [] out raw ≡ true)

-- The list of ping targets has at most eight entries; none is blank, each is one of the given texts without
-- the space around it, and no two are the same up to case; and every given text is blank, or the same up to
-- case as an entry, unless the list is full.
pub clean_ping_targets-IsTidy :
    (u : Unicode) (raws : List Text) → IsTidy u raws (clean_ping_targets u raws)
unfolding clean_ping_targets
clean_ping_targets-IsTidy u raws = record {
  bounded = length-distinct_targets u max_ping_targets [] raws;
  fresh = distinct_targets-IsFresh u max_ping_targets [] raws;
  complete = distinct_targets_complete u max_ping_targets [] raws;
}
