-- ===== src/Apply/Artifacts/Provenance.antt =====
-- internal/updater/apply_windows.go: what the clean-up removes was listed as an artifact.
use rig_exporter.Base.{
  All-append, ◌≡◌, inl, inr, refl, sym, ◌∙◌, Bool, true, false, ◌&&◌, ◌||◌, Option, none, some,
  List, [], ◌∷◌, ◌++◌, map, arith, if◌then◌else◌, Bool-cases, All,
}
use rig_exporter.Base.Unicode.{list_eq, list_eq_refl}
use rig_exporter.Apply.{Text, target, stage, backup, helper, helper_ready, ready, journal}
use rig_exporter.Apply.Artifacts.{Kind, partial, of}
use rig_exporter.Apply.Artifacts.Cleanup.{
  Item, Transaction, filed, has_key, file_under, put, gather, removals_of, removals_from,
  cleanup_apply_artifacts,
}
use rig_exporter.Apply.Artifacts.Preserving.{has_plan, cleanup-has_plan}

abbrev is_item : Item → Text × Text → Bool
is_item i r = list_eq i.prefix r.0 && list_eq i.path r.1

-- Whether a file is among the artifacts, under the key.
abbrev pub listed : List Item → Text × Text → Bool
listed [] r = false
listed (i ∷ is) r = is_item i r || listed is r

abbrev Test : Type 0
Test = Text × Text → Bool

abbrev HelperIs : Test → Text → Option Text → Type 0
HelperIs f k none = Unit
HelperIs f k (some h) = f (k, h) ≡ true

-- The files of a transaction pass a test.
record Owns (f : Test) (t : Transaction) : Type 0 where
  others : All (λ x. f (t.key, x) ≡ true) t.paths
  first : HelperIs f t.key t.helper_path

abbrev wider : Item → Test → Test
wider i f r = is_item i r || f r

module _ (i : Item) (f : Test) where
  wider_all :
      (k : Text) (xs : List Text)
      → All (λ x. f (k, x) ≡ true) xs
      → All (λ x. wider i f (k, x) ≡ true) xs
  wider_all k [] h = tt
  wider_all k (x ∷ xs) h = (rw h.0 (ground arith), wider_all k xs h.1)

  wider_helper : (k : Text) (h : Option Text) → HelperIs f k h → HelperIs (wider i f) k h
  wider_helper k none h = tt
  wider_helper k (some x) h = rw h (ground arith)

  wider-Owns : (t : Transaction) → Owns f t → Owns (wider i f) t
  wider-Owns t o = record {
    others = wider_all t.key t.paths o.others;
    first = wider_helper t.key t.helper_path o.first;
  }

  itself : (k : Text) → list_eq i.prefix k ≡ true → wider i f (k, i.path) ≡ true
  itself k h = rw (h, list_eq_refl i.path)

  appended :
      (t : Transaction)
      → list_eq i.prefix t.key ≡ true
      → Owns f t
      → All (λ x. wider i f (t.key, x) ≡ true) (t.paths ++ i.path ∷ [])
  appended t e o =
      All-append (λ x. wider i f (t.key, x) ≡ true) t.paths (i.path ∷ [])
        (wider_all t.key t.paths o.others) (itself t.key e, tt)

  path-Owns :
      (t : Transaction)
      → list_eq i.prefix t.key ≡ true
      → Owns f t
      → Owns (wider i f) (record t { paths = t.paths ++ i.path ∷ [] })
  path-Owns t e o = record {
    others = appended t e o;
    first = wider_helper t.key t.helper_path o.first;
  }

  filed-Owns :
      (k : Kind) (t : Transaction)
      → list_eq i.prefix t.key ≡ true
      → Owns f t
      → Owns (wider i f) (filed k i.path t)
  filed-Owns partial t e o = path-Owns t e o
  filed-Owns (of target) t e o = path-Owns t e o
  filed-Owns (of stage) t e o = path-Owns t e o
  filed-Owns (of backup) t e o = path-Owns t e o
  filed-Owns (of helper) t e o = record {
    others = wider_all t.key t.paths o.others;
    first = itself t.key e;
  }
  filed-Owns (of helper_ready) t e o = path-Owns t e o
  filed-Owns (of ready) t e o = path-Owns t e o
  filed-Owns (of journal) t e o = record {
    others = wider_all t.key t.paths o.others;
    first = wider_helper t.key t.helper_path o.first;
  }

  under-Owns : (t : Transaction) → Owns f t → Owns (wider i f) (file_under i t)
  under-Owns t o = elim (Bool-cases (list_eq i.prefix t.key)) [
    | inl e ↦ rw e (filed-Owns i.kind t e o)
    | inr e ↦ rw e (wider-Owns t o)
  ]

  map-Owns :
      (ts : List Transaction) → All (Owns f) ts → All (Owns (wider i f)) (map (file_under i) ts)
  map-Owns [] h = tt
  map-Owns (t ∷ ts) h = (under-Owns t h.0, map-Owns ts h.1)

known-Owns :
    (f : Test) (k : Text) (ts : List Transaction) (known : Bool)
    → All (Owns f) ts
    → All (Owns f) (
        if known
        then ts
        else ts ++ record { key = k; helper_path = none; plan_path = none; paths = [] } ∷ [])
known-Owns f k ts true h = h
known-Owns f k ts false h = All-append (Owns f) ts _ h (record { others = tt; first = tt }, tt)

retested_paths :
    (f g : Test) (k : Text) (xs : List Text)
    → ((r : Text × Text) → f r ≡ g r)
    → All (λ x. f (k, x) ≡ true) xs
    → All (λ x. g (k, x) ≡ true) xs
retested_paths f g k [] h a = tt
retested_paths f g k (x ∷ xs) h a = (sym (h (k, x)) ∙ a.0, retested_paths f g k xs h a.1)

retested_helper :
    (f g : Test) (k : Text) (x : Option Text)
    → ((r : Text × Text) → f r ≡ g r)
    → HelperIs f k x
    → HelperIs g k x
retested_helper f g k none h a = tt
retested_helper f g k (some x) h a = sym (h (k, x)) ∙ a

retested_all :
    (f g : Test) (ts : List Transaction)
    → ((r : Text × Text) → f r ≡ g r)
    → All (Owns f) ts
    → All (Owns g) ts
retested_all f g [] h a = tt
retested_all f g (t ∷ ts) h a = (
  record {
    others = retested_paths f g t.key t.paths h a.0.others;
    first = retested_helper f g t.key t.helper_path h a.0.first;
  },
  retested_all f g ts h a.1,
)

gather-Owns :
    (f : Test) (is : List Item) (ts : List Transaction)
    → All (Owns f) ts
    → All (Owns (λ r. listed is r || f r)) (gather is ts)
unfolding gather put
gather-Owns f [] ts h = h
gather-Owns f (i ∷ is) ts h =
    retested_all (λ r. listed is r || wider i f r) (λ r. listed (i ∷ is) r || f r)
      (gather is (put i ts)) (λ r. ground arith)
      (gather-Owns (wider i f) is (put i ts)
        (map-Owns i f _ (known-Owns f i.prefix ts (has_key i.prefix ts) h)))

module _ (stays : Text → Bool) (f : Test) where
  tagged :
      (k : Text) (xs : List Text)
      → All (λ x. f (k, x) ≡ true) xs
      → All (λ r. f r ≡ true) (map (λ x. (k, x)) xs)
  tagged k [] h = tt
  tagged k (x ∷ xs) h = (h.0, tagged k xs h.1)

  one_owned :
      (k : Text) (h p : Option Text) (xs : List Text)
      → All (λ x. f (k, x) ≡ true) xs
      → HelperIs f k h
      → All
          (λ r. f r ≡ true)
          (removals_of stays (record { key = k; helper_path = h; plan_path = p; paths = xs }))
  one_owned k h (some p) xs a b = tt
  one_owned k none none xs a b = tagged k xs a
  one_owned k (some y) none xs a b =
      (b, elim (Bool-cases (stays y)) [ inl s ↦ rw s tt | inr s ↦ rw s (tagged k xs a) ])

  all_owned :
      (ts : List Transaction) → All (Owns f) ts → All (λ r. f r ≡ true) (removals_from stays ts)
  all_owned [] h = tt
  all_owned (t ∷ ts) h =
      All-append (λ r. f r ≡ true) (removals_of stays t) (removals_from stays ts)
        (one_owned t.key t.helper_path t.plan_path t.paths h.0.others h.0.first) (all_owned ts h.1)

unfailed :
    (f : Test) (rs : List (Text × Text))
    → All (λ r. (f r || false) ≡ true) rs
    → All (λ r. f r ≡ true) rs
unfailed f [] h = tt
unfailed f (r ∷ rs) h = (ground arith, unfailed f rs h.1)

unless_planned :
    (q : Text) (b : Bool) (rs : List (Text × Text))
    → (b ≡ true → All (λ r. list_eq q r.0 ≡ false) rs)
    → All (λ r. (b && list_eq q r.0) ≡ false) rs
unless_planned q true rs h = h refl
unless_planned q false [] h = tt
unless_planned q false (r ∷ rs) h = (refl, unless_planned q false rs (λ e. ground arith))

-- The clean-up, whatever the listing and whichever helpers cannot be removed: it removes only files that
-- the listing has as artifacts, each with its transaction's prefix; and no file of a transaction whose plan
-- is in the listing, wherever it stands there.
pub cleanup_apply_artifacts-Spares :
    (stays : Text → Bool) (items : List Item) (q : Text)
    → All (λ r. listed items r ≡ true) (cleanup_apply_artifacts stays items)
      × All (λ r. (has_plan items q && list_eq q r.0) ≡ false) (cleanup_apply_artifacts stays items)
unfolding cleanup_apply_artifacts
cleanup_apply_artifacts-Spares stays items q = (
  unfailed (listed items) (removals_from stays (gather items [])) (
      all_owned stays (λ r. listed items r || false) (gather items [])
        (gather-Owns (λ r. false) items [] tt)),
  unless_planned q (has_plan items q) (removals_from stays (gather items []))
      (cleanup-has_plan stays q items),
)
