-- ===== src/Config/Slug.antt =====
-- internal/config/config.go: `Slug`, what a name becomes in a topic and in an entity id. The code reads
-- runes and this reads bytes, which gives the same: each byte of a rune beyond ASCII is one that the
-- default branch takes, and a run of those gives one underscore.
use rig_exporter.Base.{
  ℕ, ◌≡◌, ◌≢◌, ◌⊎◌, inl, inr, refl, Bool, true, false, not, ◌&&◌, ◌||◌, List, [], ◌∷◌, arith, leb,
  if◌then◌else◌, Bool-cases,
}
use rig_exporter.Base.Unicode.{Unicode, list_eq}
use rig_exporter.Base.Text.{codes}
use rig_exporter.Config.Trimming.{trim, trim_left, trim_right}

abbrev Text : Type 0
Text = List ℕ

abbrev underscore : ℕ
underscore = 95

-- a to z and 0 to 9
abbrev pub is_plain : ℕ → Bool
is_plain r = leb 97 r && leb r 122 || leb 48 r && leb r 57

-- the loop, with `lastUnderscore` and whether the builder has anything
unfoldable slugged : Text → Bool → Bool → Text
slugged [] last written = []
slugged (r ∷ rs) last written =
    let kept = slugged rs false true in
    let marked = slugged rs true true in
    let dropped = slugged rs last written in
    if is_plain r then r ∷ kept else if not last && written then underscore ∷ marked else dropped

abbrev pub or_else : Text → Text → Text
or_else fallback [] = fallback
or_else fallback (c ∷ cs) = c ∷ cs

unfoldable pub slug_of : Text → Text
unfolding slugged trim
slug_of s = or_else (codes "pc") (trim (underscore ∷ []) (slugged s false false))

unfoldable pub slug : Unicode → Text → Text
unfolding slug_of
slug u s = slug_of (u.to_lower (u.trim_space s))

-- Letters, digits and single underscores, none of these at an end.
abbrev pub Follows : Bool → Text → Type 0
Follows last [] = last ≡ false
Follows last (r ∷ rs) = elim (is_plain r) [
  | true ↦ Follows false rs
  | false ↦ (r ≡ 95) × (last ≡ false) × Follows true rs
]

abbrev pub IsSlug : Text → Type 0
IsSlug s = (s ≢ []) × Follows true s

-- The same where the end may be an underscore.
abbrev Joined : Bool → Text → Type 0
Joined last [] = Unit
Joined last (r ∷ rs) = elim (is_plain r) [
  | true ↦ Joined false rs
  | false ↦ (r ≡ 95) × (last ≡ false) × Joined true rs
]

slugged-Joined :
    (s : Text) (last written : Bool) → Joined (last || not written) (slugged s last written)
unfolding slugged
slugged-Joined [] last written = tt
slugged-Joined (r ∷ rs) last written =
    let kept = slugged-Joined rs false true in
    let marked = slugged-Joined rs true true in
    let dropped = slugged-Joined rs last written in
    elim (Bool-cases (is_plain r)) [ inl e ↦ ground arith | inr e ↦ rw e (ground arith) ]

trim_left-id : (s : Text) → Joined true s → trim_left (underscore ∷ []) s ≡ s
unfolding trim_left
trim_left-id [] h = refl
trim_left-id (r ∷ rs) h = elim (Bool-cases (is_plain r)) [
  | inl e ↦ ground arith
  | inr e ↦ ground arith
]

trim_right-Follows :
    (s : Text) (last : Bool)
    → Joined last s
    → (trim_right (underscore ∷ []) s ≡ []) ⊎ Follows last (trim_right (underscore ∷ []) s)
unfolding trim_right
trim_right-Follows [] last h = inl refl
trim_right-Follows (r ∷ rs) last h = elim (Bool-cases (is_plain r)) [
  | inl e ↦ let ih = trim_right-Follows rs false (rw (e, Joined) at h) in ground arith
  | inr e ↦
      let g : (r ≡ 95) × (last ≡ false) × Joined true rs = (rw (e, Joined) at h) in
      let ih = trim_right-Follows rs true g.2 in ground arith
]

or_else-IsSlug : (s : Text) → Follows true s → IsSlug (or_else (codes "pc") s)
or_else-IsSlug [] h = ground arith
or_else-IsSlug (c ∷ cs) h = (λ e. ground arith, h)

not_empty : (s : Text) → Follows true s → list_eq s [] ≡ false
not_empty [] h = ground arith
not_empty (c ∷ cs) h = refl

or_else_id : (fallback s : Text) → s ≢ [] → or_else fallback s ≡ s
or_else_id fallback [] h = ground arith
or_else_id fallback (c ∷ cs) h = refl

IsSlug-slug_of : (s : Text) → IsSlug (slug_of s)
unfolding slug_of trim
IsSlug-slug_of s =
    let joined = slugged-Joined s false false in
    let front = trim_left-id (slugged s false false) joined in
    elim (trim_right-Follows (slugged s false false) true joined) [
      | inl e ↦ rw (front, e) (ground arith, ground arith)
      | inr f ↦ rw front (or_else-IsSlug (trim_right (underscore ∷ []) (slugged s false false)) f)
    ]

slugged_fixed :
    (s : Text) (last written : Bool) → Follows (last || not written) s → slugged s last written ≡ s
unfolding slugged
slugged_fixed [] last written h = refl
slugged_fixed (r ∷ rs) last written h = elim (Bool-cases (is_plain r)) [
  | inl e ↦ let ih = slugged_fixed rs false true (rw (e, Follows) at h) in ground arith
  | inr e ↦
      let g : (r ≡ 95) × ((last || not written) ≡ false) × Follows true rs =
        (rw (e, Follows) at h) in
      let ih = slugged_fixed rs true true g.2 in ground arith
]

Follows-Joined : (s : Text) (last : Bool) → Follows last s → Joined last s
Follows-Joined [] last h = tt
Follows-Joined (r ∷ rs) last h = elim (Bool-cases (is_plain r)) [
  | inl e ↦ let ih = Follows-Joined rs false (rw (e, Follows) at h) in ground arith
  | inr e ↦
      let g : (r ≡ 95) × (last ≡ false) × Follows true rs = (rw (e, Follows) at h) in
      let ih = Follows-Joined rs true g.2 in ground arith
]

trim_right_fixed : (s : Text) (last : Bool) → Follows last s → trim_right (underscore ∷ []) s ≡ s
unfolding trim_right
trim_right_fixed [] last h = refl
trim_right_fixed (r ∷ rs) last h = elim (Bool-cases (is_plain r)) [
  | inl e ↦ let ih = trim_right_fixed rs false (rw (e, Follows) at h) in ground arith
  | inr e ↦
      let g : (r ≡ 95) × (last ≡ false) × Follows true rs = (rw (e, Follows) at h) in
      let ih = trim_right_fixed rs true g.2 in rw ih (ground (arith, not_empty rs g.2))
]

slug_of_fixed : (s : Text) → IsSlug s → slug_of s ≡ s
unfolding slug_of trim
slug_of_fixed s h =
    rw
      (
        slugged_fixed s false false h.1,
        trim_left-id s (Follows-Joined s true h.1),
        trim_right_fixed s true h.1,
      )
      (or_else_id (codes "pc") s h.0)

pub IsSlug-slug : (u : Unicode) (s : Text) → IsSlug (slug u s)
unfolding slug
IsSlug-slug u s = IsSlug-slug_of (u.to_lower (u.trim_space s))

-- What the Unicode operations do with a text that has no space at its ends and no capital.
abbrev pub Leaves : Unicode → Text → Type 0
Leaves u s = (u.trim_space s ≡ s) × (u.to_lower s ≡ s)

pub slug_fixed : (u : Unicode) (s : Text) → IsSlug s → Leaves u s → slug u s ≡ s
unfolding slug
slug_fixed u s h k = rw (k.0, k.1) (slug_of_fixed s h)
