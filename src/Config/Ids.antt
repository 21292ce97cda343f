-- ===== src/Config/Ids.antt =====
-- What `cleanIDs` of internal/config/config.go makes of a list: its order and its members.
use rig_exporter.Base.{
  ℕ, ◌≡◌, ◌⊎◌, inl, inr, refl, ap, ◌∙◌, Bool, true, false, not, ◌&&◌, ◌||◌, List, [], ◌∷◌, map,
  arith, Bool-cases,
}
use rig_exporter.Base.Unicode.{Unicode, list_eq, list_eq_sound, list_eq_refl}
use mathlib.Core.Path.{subst}
use rig_exporter.Config.Cleaning.{
  member, text_leb, insert_text, sort_strings, distinct_ids, clean_ids,
}

abbrev pub Text : Type 0
Text = List ℕ

-- Each text is below the ones behind it.
abbrev pub Below : Text → List Text → Type 0
Below t [] = Unit
Below t (s ∷ ss) = (text_leb t s ≡ true) × (list_eq t s ≡ false) × Below t ss

abbrev pub IsStrictlySorted : List Text → Type 0
IsStrictlySorted [] = Unit
IsStrictlySorted (t ∷ ts) = Below t ts × IsStrictlySorted ts

member-insert_text :
    (t s : Text) (l : List Text) → member t (insert_text s l) ≡ list_eq t s || member t l
unfolding insert_text
member-insert_text t s [] = refl
member-insert_text t s (r ∷ l) = ground (arith, member-insert_text t s l)

member-sort_strings : (t : Text) (l : List Text) → member t (sort_strings l) ≡ member t l
unfolding sort_strings
member-sort_strings t [] = refl
member-sort_strings t (s ∷ l) =
    rw (member-insert_text t s (sort_strings l), member-sort_strings t l) refl

pub list_eq_apart : (a b : Text) → list_eq a b ≡ false → list_eq b a ≡ false
list_eq_apart [] [] h = h
list_eq_apart [] (d ∷ b) h = refl
list_eq_apart (c ∷ a) [] h = refl
list_eq_apart (c ∷ a) (d ∷ b) h = ground (arith, list_eq_apart a b)

list_eq_cases : (a b : Text) → (a ≡ b) ⊎ (list_eq a b ≡ false)
list_eq_cases a b = elim (Bool-cases (list_eq a b)) [
  | inl e ↦ inl (list_eq_sound a b e)
  | inr e ↦ inr e
]

abbrev pub skips : Unicode → List Text → Text → Bool
skips u seen raw = list_eq (u.trim_space raw) [] || member (u.trim_space raw) seen

pub distinct_ids_skipping :
    (u : Unicode) (seen : List Text) (raw : Text) (ids : List Text)
    → skips u seen raw ≡ true
    → distinct_ids u seen (raw ∷ ids) ≡ distinct_ids u seen ids
unfolding distinct_ids
distinct_ids_skipping u seen raw ids e = rw e refl

pub distinct_ids_keeping :
    (u : Unicode) (seen : List Text) (raw : Text) (ids : List Text)
    → skips u seen raw ≡ false
    → distinct_ids u seen (raw ∷ ids)
      ≡ u.trim_space raw ∷ distinct_ids u (u.trim_space raw ∷ seen) ids
unfolding distinct_ids
distinct_ids_keeping u seen raw ids e = rw e refl

-- A test on one id that skips or keeps the first, by what the two texts are.
member_first :
    (t id : Text) (seen : List Text) (m : Bool)
    → (list_eq id [] || member id seen) ≡ true
    → (not (list_eq t []) && not (member t seen) && m)
      ≡ (not (list_eq t []) && not (member t seen) && (list_eq t id || m))
member_first t id seen m h = elim (list_eq_cases t id) [
  | inl e ↦
      subst
        (λ x.
          (list_eq x [] || member x seen) ≡ true
          → (not (list_eq t []) && not (member t seen) && m)
            ≡ (not (list_eq t []) && not (member t seen) && (list_eq t x || m)))
        e (λ k. ground arith) h
  | inr e ↦ rw e refl
]

member_kept :
    (t id : Text) (seen : List Text) (m : Bool)
    → (list_eq id [] || member id seen) ≡ false
    → (list_eq t id || (not (list_eq t []) && not (member t (id ∷ seen)) && m))
      ≡ (not (list_eq t []) && not (member t seen) && (list_eq t id || m))
member_kept t id seen m h = elim (list_eq_cases t id) [
  | inl e ↦
      subst
        (λ x.
          (list_eq x [] || member x seen) ≡ false
          → (list_eq t x || (not (list_eq t []) && not (member t (x ∷ seen)) && m))
            ≡ (not (list_eq t []) && not (member t seen) && (list_eq t x || m)))
        e (λ k. rw (list_eq_refl t) (ground arith)) h
  | inr e ↦ rw e refl
]

member-distinct_ids :
    (u : Unicode) (t : Text) (seen ids : List Text)
    → member t (distinct_ids u seen ids)
      ≡ not (list_eq t []) && not (member t seen) && member t (map u.trim_space ids)
unfolding distinct_ids
member-distinct_ids u t seen [] = ground arith
member-distinct_ids u t seen (raw ∷ ids) =
    let id = u.trim_space raw in
    let rest = member t (map u.trim_space ids) in
    elim (Bool-cases (skips u seen raw)) [
      | inl e ↦
          rw (distinct_ids_skipping u seen raw ids e)
            (member-distinct_ids u t seen ids ∙ member_first t id seen rest e)
      | inr e ↦ rw (distinct_ids_keeping u seen raw ids e) (
          ap (λ b. list_eq t id || b) (member-distinct_ids u t (id ∷ seen) ids)
          ∙ member_kept t id seen rest e)
    ]

abbrev IsDistinct : List Text → Type 0
IsDistinct [] = Unit
IsDistinct (t ∷ ts) = (member t ts ≡ false) × IsDistinct ts

distinct_ids-IsDistinct :
    (u : Unicode) (seen ids : List Text) → IsDistinct (distinct_ids u seen ids)
unfolding distinct_ids
distinct_ids-IsDistinct u seen [] = tt
distinct_ids-IsDistinct u seen (raw ∷ ids) =
    let id = u.trim_space raw in
    let skip = distinct_ids-IsDistinct u seen ids in
    let keep = distinct_ids-IsDistinct u (id ∷ seen) ids in
    let fresh = member-distinct_ids u id (id ∷ seen) ids in
    ground (arith, skip, keep, fresh, list_eq_refl id)

text_leb_total : (a b : Text) → text_leb a b ≡ false → text_leb b a ≡ true
text_leb_total [] b h = ground arith
text_leb_total (c ∷ a) [] h = refl
text_leb_total (c ∷ a) (d ∷ b) h = ground (arith, text_leb_total a b)

text_leb_trans : (a b c : Text) → text_leb a b ≡ true → text_leb b c ≡ true → text_leb a c ≡ true
text_leb_trans [] b c h k = refl
text_leb_trans (x ∷ a) [] c h k = ground arith
text_leb_trans (x ∷ a) (y ∷ b) [] h k = ground arith
text_leb_trans (x ∷ a) (y ∷ b) (z ∷ c) h k = ground (arith, text_leb_trans a b c)

text_leb_antisym : (a b : Text) → text_leb a b ≡ true → text_leb b a ≡ true → list_eq a b ≡ true
text_leb_antisym [] [] h k = refl
text_leb_antisym [] (d ∷ b) h k = ground arith
text_leb_antisym (c ∷ a) [] h k = ground arith
text_leb_antisym (c ∷ a) (d ∷ b) h k = ground (arith, text_leb_antisym a b)

Below-insert_text :
    (t s : Text) (l : List Text)
    → text_leb t s ≡ true
    → list_eq t s ≡ false
    → Below t l
    → Below t (insert_text s l)
unfolding insert_text
Below-insert_text t s [] h k b = (h, k, tt)
Below-insert_text t s (r ∷ l) h k b =
    let rest = Below-insert_text t s l h k b.2 in
    elim (Bool-cases (text_leb s r)) [ inl e ↦ rw e (h, k, b) | inr e ↦ rw e (b.0, b.1, rest) ]

-- What is below the first is below all.
Below-trans :
    (t s : Text) (l : List Text) → text_leb t s ≡ true → list_eq t s ≡ false → Below s l → Below t l
Below-trans t s [] h k b = tt
Below-trans t s (r ∷ l) h k b =
    let back : list_eq t r ≡ true → text_leb r s ≡ true =
      λ (e : list_eq t r ≡ true). subst (λ x. text_leb x s ≡ true) (list_eq_sound t r e) h in
    (
      text_leb_trans t s r h b.0,
      ground (arith, back, text_leb_antisym s r b.0, b.1),
      Below-trans t s l h k b.2,
    )

insert_text-IsStrictlySorted :
    (s : Text) (l : List Text)
    → member s l ≡ false
    → IsStrictlySorted l
    → IsStrictlySorted (insert_text s l)
unfolding insert_text
insert_text-IsStrictlySorted s [] h k = (tt, tt)
insert_text-IsStrictlySorted s (r ∷ l) h k =
    let rest = insert_text-IsStrictlySorted s l (ground arith) k.1 in
    let apart : list_eq s r ≡ false = ground arith in
    elim (Bool-cases (text_leb s r)) [
      | inl e ↦ rw e ((e, apart, Below-trans s r l e apart k.0), k)
      | inr e ↦
          rw e (Below-insert_text r s l (text_leb_total s r e) (list_eq_apart s r apart) k.0, rest)
    ]

sort_strings-IsStrictlySorted : (l : List Text) → IsDistinct l → IsStrictlySorted (sort_strings l)
unfolding sort_strings
sort_strings-IsStrictlySorted [] h = tt
sort_strings-IsStrictlySorted (t ∷ l) h =
    insert_text-IsStrictlySorted t (sort_strings l) (member-sort_strings t l ∙ h.0)
      (sort_strings-IsStrictlySorted l h.1)

pub record IsCleaned (u : Unicode) (ids out : List Text) : Type 0 where
  pub sorted : IsStrictlySorted out
  pub members : (t : Text) → member t out ≡ not (list_eq t []) && member t (map u.trim_space ids)

pub clean_ids-IsCleaned : (u : Unicode) (ids : List Text) → IsCleaned u ids (clean_ids u ids)
unfolding clean_ids
clean_ids-IsCleaned u ids = record {
  sorted = sort_strings-IsStrictlySorted (distinct_ids u [] ids) (distinct_ids-IsDistinct u [] ids);
  members = λ t.
      member-sort_strings t (distinct_ids u [] ids) ∙ member-distinct_ids u t [] ids ∙ ground arith;
}
