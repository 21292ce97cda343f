-- ===== src/Config/Again.antt =====
-- What `cleanIDs` of internal/config/config.go makes of a list that it has made.
use rig_exporter.Base.{◌≡◌, refl, ◌∙◌, false, List, [], ◌∷◌, arith, All, inl, inr, Bool-cases}
use rig_exporter.Base.Unicode.{Unicode, list_eq}
use rig_exporter.Config.Cleaning.{
  member, text_leb, insert_text, sort_strings, distinct_ids, clean_ids,
}
use rig_exporter.Config.Ids.{
  Text, Below, IsStrictlySorted, clean_ids-IsCleaned, list_eq_apart, skips, distinct_ids_skipping,
  distinct_ids_keeping,
}

-- A text that is left alone by the trimming and is not empty.
abbrev IsTrimmed : Unicode → Text → Type 0
IsTrimmed u t = (u.trim_space t ≡ t) × (list_eq t [] ≡ false)

distinct_ids-IsTrimmed :
    (u : Unicode) (seen ids : List Text)
    → ((t : Text) → u.trim_space (u.trim_space t) ≡ u.trim_space t)
    → All (IsTrimmed u) (distinct_ids u seen ids)
unfolding distinct_ids
distinct_ids-IsTrimmed u seen [] h = tt
distinct_ids-IsTrimmed u seen (raw ∷ ids) h = elim (Bool-cases (skips u seen raw)) [
  | inl e ↦ rw (distinct_ids_skipping u seen raw ids e) (distinct_ids-IsTrimmed u seen ids h)
  | inr e ↦
      rw (distinct_ids_keeping u seen raw ids e)
        ((h raw, ground arith), distinct_ids-IsTrimmed u (u.trim_space raw ∷ seen) ids h)
]

insert_text-IsTrimmed :
    (u : Unicode) (t : Text) (l : List Text)
    → IsTrimmed u t
    → All (IsTrimmed u) l
    → All (IsTrimmed u) (insert_text t l)
unfolding insert_text
insert_text-IsTrimmed u t [] h k = (h, tt)
insert_text-IsTrimmed u t (s ∷ l) h k =
    let rest = insert_text-IsTrimmed u t l h k.1 in
    elim (Bool-cases (text_leb t s)) [ inl e ↦ rw e (h, k) | inr e ↦ rw e (k.0, rest) ]

sort_strings-IsTrimmed :
    (u : Unicode) (l : List Text) → All (IsTrimmed u) l → All (IsTrimmed u) (sort_strings l)
unfolding sort_strings
sort_strings-IsTrimmed u [] h = tt
sort_strings-IsTrimmed u (t ∷ l) h =
    insert_text-IsTrimmed u t (sort_strings l) h.0 (sort_strings-IsTrimmed u l h.1)

-- A text that is below others is none of them.
Below-member : (t : Text) (l : List Text) → Below t l → member t l ≡ false
Below-member t [] h = refl
Below-member t (s ∷ l) h = ground (arith, Below-member t l h.2)

insert_text_first : (t : Text) (l : List Text) → Below t l → insert_text t l ≡ t ∷ l
unfolding insert_text
insert_text_first t [] h = refl
insert_text_first t (s ∷ l) h = rw h.0 refl

sort_strings_fixed : (l : List Text) → IsStrictlySorted l → sort_strings l ≡ l
unfolding sort_strings
sort_strings_fixed [] h = refl
sort_strings_fixed (t ∷ l) h = rw (sort_strings_fixed l h.1) (insert_text_first t l h.0)

unseen_after :
    (t : Text) (seen l : List Text)
    → Below t l
    → All (λ s. member s seen ≡ false) l
    → All (λ s. member s (t ∷ seen) ≡ false) l
unseen_after t seen [] h k = tt
unseen_after t seen (s ∷ l) h k =
    (rw (list_eq_apart t s h.1, k.0) refl, unseen_after t seen l h.2 k.1)

distinct_ids_fixed :
    (u : Unicode) (seen l : List Text)
    → IsStrictlySorted l
    → All (IsTrimmed u) l
    → All (λ s. member s seen ≡ false) l
    → distinct_ids u seen l ≡ l
unfolding distinct_ids
distinct_ids_fixed u seen [] h k m = refl
distinct_ids_fixed u seen (t ∷ l) h k m =
    distinct_ids_keeping u seen t l (rw (k.0.0, k.0.1, m.0) refl)
    ∙ rw (k.0.0, distinct_ids_fixed u (t ∷ seen) l h.1 k.1 (unseen_after t seen l h.0 m.1)) refl

none_seen : (l : List Text) → All (λ s. member s [] ≡ false) l
none_seen [] = tt
none_seen (s ∷ l) = (refl, none_seen l)

-- To clean a list a second time changes nothing.
pub clean_ids_again :
    (u : Unicode) (ids : List Text)
    → ((t : Text) → u.trim_space (u.trim_space t) ≡ u.trim_space t)
    → clean_ids u (clean_ids u ids) ≡ clean_ids u ids
unfolding clean_ids
clean_ids_again u ids h =
    let l = sort_strings (distinct_ids u [] ids) in
    let sorted = (clean_ids-IsCleaned u ids).sorted in
    let trimmed =
      sort_strings-IsTrimmed u (distinct_ids u [] ids) (distinct_ids-IsTrimmed u [] ids h) in
    rw (distinct_ids_fixed u [] l sorted trimmed (none_seen l)) (sort_strings_fixed l sorted)
