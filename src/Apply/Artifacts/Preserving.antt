-- ===== src/Apply/Artifacts/Preserving.antt =====
-- internal/updater/apply_windows.go: the clean-up leaves a transaction alone that has a plan.
use rig_exporter.Base.{
  All-append, ◌≡◌, inl, inr, refl, sym, ap, ◌∙◌, Bool, true, false, ◌&&◌, ◌||◌, Option, none, some,
  List, [], ◌∷◌, ◌++◌, map, arith, if◌then◌else◌, Bool-cases, All,
}
use rig_exporter.Base.Unicode.{list_eq, list_eq_sound, list_eq_refl}
use rig_exporter.Apply.{Text, target, stage, backup, helper, helper_ready, ready, journal}
use rig_exporter.Apply.Artifacts.{Kind, partial, of}
use rig_exporter.Apply.Artifacts.Cleanup.{
  Item, Transaction, filed, has_key, file_under, put, gather, removals_of, removals_from,
  cleanup_apply_artifacts,
}

abbrev pub is_plan : Kind → Bool
is_plan (of journal) = true
is_plan _ = false

-- Whether a plan with the prefix is among the files.
abbrev pub has_plan : List Item → Text → Bool
has_plan [] p = false
has_plan (i ∷ is) p = list_eq i.prefix p && is_plan i.kind || has_plan is p

abbrev is_known : Option Text → Bool
is_known none = false
is_known (some p) = true

-- The transactions know exactly the plans of a test, and one that has no key yet has no plan.
record Right (f : Text → Bool) (ts : List Transaction) : Type 0 where
  plans : All (λ t. is_known t.plan_path ≡ f t.key) ts
  absent : (p : Text) → has_key p ts ≡ false → f p ≡ false

abbrev with_item : Item → (Text → Bool) → Text → Bool
with_item i f p = list_eq i.prefix p && is_plan i.kind || f p

filed_key : (k : Kind) (x : Text) (t : Transaction) → (filed k x t).key ≡ t.key
filed_key partial x t = refl
filed_key (of target) x t = refl
filed_key (of stage) x t = refl
filed_key (of backup) x t = refl
filed_key (of helper) x t = refl
filed_key (of helper_ready) x t = refl
filed_key (of ready) x t = refl
filed_key (of journal) x t = refl

filed_plan :
    (k : Kind) (x : Text) (t : Transaction)
    → is_known (filed k x t).plan_path ≡ (is_plan k || is_known t.plan_path)
filed_plan partial x t = refl
filed_plan (of target) x t = refl
filed_plan (of stage) x t = refl
filed_plan (of backup) x t = refl
filed_plan (of helper) x t = refl
filed_plan (of helper_ready) x t = refl
filed_plan (of ready) x t = refl
filed_plan (of journal) x t = refl

module _ (i : Item) where
  under_key : (t : Transaction) → (file_under i t).key ≡ t.key
  under_key t = elim (Bool-cases (list_eq i.prefix t.key)) [
    | inl e ↦ rw e (filed_key i.kind i.path t)
    | inr e ↦ rw e
  ]

  under_plan :
      (t : Transaction)
      → is_known (file_under i t).plan_path
        ≡ (list_eq i.prefix t.key && is_plan i.kind || is_known t.plan_path)
  under_plan t = elim (Bool-cases (list_eq i.prefix t.key)) [
    | inl e ↦ rw e (filed_plan i.kind i.path t)
    | inr e ↦ rw e
  ]

  map_key : (p : Text) (ts : List Transaction) → has_key p (map (file_under i) ts) ≡ has_key p ts
  map_key p [] = refl
  map_key p (t ∷ ts) = rw (under_key t, map_key p ts)

  map_plans :
      (f : Text → Bool) (ts : List Transaction)
      → All (λ t. is_known t.plan_path ≡ f t.key) ts
      → All (λ t. is_known t.plan_path ≡ with_item i f t.key) (map (file_under i) ts)
  map_plans f [] h = tt
  map_plans f (t ∷ ts) h = (rw (under_plan t, under_key t, h.0), map_plans f ts h.1)

has_key_append :
    (p : Text) (ts us : List Transaction) → has_key p (ts ++ us) ≡ (has_key p ts || has_key p us)
has_key_append p [] us = refl
has_key_append p (t ∷ ts) us = rw (has_key_append p ts us) (ground arith)

-- A transaction without files.
abbrev empty_of : Text → Transaction
empty_of p = record { key = p; helper_path = none; plan_path = none; paths = [] }

first_false : (a b : Bool) → (a || b) ≡ false → a ≡ false
first_false false b h = refl
first_false true b h = h

other : (a b c : Bool) → a ≡ false → c ≡ false → (a && b || c) ≡ false
other a b c h k = rw (h, k)

-- A key that is there and one that is not are different.
apart :
    (p q : Text) (ts : List Transaction)
    → has_key p ts ≡ true
    → has_key q ts ≡ false
    → list_eq p q ≡ false
apart p q ts h k = elim (Bool-cases (list_eq p q)) [
  | inl e ↦ (let c = sym h ∙ (ap (λ x. has_key x ts) (list_eq_sound p q e) ∙ k) in ground arith)
  | inr e ↦ e
]

retested :
    (f g : Text → Bool) (ts : List Transaction)
    → ((p : Text) → f p ≡ g p)
    → All (λ t. is_known t.plan_path ≡ f t.key) ts
    → All (λ t. is_known t.plan_path ≡ g t.key) ts
retested f g [] h r = tt
retested f g (t ∷ ts) h r = (r.0 ∙ h t.key, retested f g ts h r.1)

known_cases :
    (f : Text → Bool) (p : Text) (ts : List Transaction) (known : Bool)
    → has_key p ts ≡ known
    → Right f ts
    → Right f (if known then ts else ts ++ empty_of p ∷ [])
      × (has_key p (if known then ts else ts ++ empty_of p ∷ []) ≡ true)
known_cases f p ts true e r = (r, e)
known_cases f p ts false e r = (
  record {
    plans =
        All-append (λ t. is_known t.plan_path ≡ f t.key) ts (empty_of p ∷ []) r.plans
          (sym (r.absent p e), tt);
    absent = λ q h. r.absent q (
        first_false (has_key q ts) (has_key q (empty_of p ∷ []))
          (sym (has_key_append q ts (empty_of p ∷ [])) ∙ h));
  },
  has_key_append p ts (empty_of p ∷ []) ∙ rw (list_eq_refl p) (ground arith),
)

put-Right :
    (f : Text → Bool) (i : Item) (ts : List Transaction)
    → Right f ts
    → Right (with_item i f) (put i ts)
unfolding put
put-Right f i ts r =
    let (k, there) = known_cases f i.prefix ts (has_key i.prefix ts) refl r in
    record {
      plans = map_plans i f _ k.plans;
      absent = λ p h.
          let away =
            sym (map_key i p (if has_key i.prefix ts then ts else ts ++ empty_of i.prefix ∷ []))
            ∙ h in
          other (list_eq i.prefix p) (is_plan i.kind) (f p)
            (apart i.prefix p (if has_key i.prefix ts then ts else ts ++ empty_of i.prefix ∷ [])
              there away)
            (k.absent p away);
    }

same_test :
    (f g : Text → Bool) (ts : List Transaction) → ((p : Text) → f p ≡ g p) → Right f ts → Right g ts
same_test f g ts h r = record {
  plans = retested f g ts h r.plans;
  absent = λ p e. sym (h p) ∙ r.absent p e;
}

gather-Right :
    (f : Text → Bool) (is : List Item) (ts : List Transaction)
    → Right f ts
    → Right (λ p. has_plan is p || f p) (gather is ts)
unfolding gather
gather-Right f [] ts r = r
gather-Right f (i ∷ is) ts r =
    same_test (λ p. has_plan is p || with_item i f p) (λ p. has_plan (i ∷ is) p || f p)
      (gather is (put i ts)) (λ p. ground arith)
      (gather-Right (with_item i f) is (put i ts) (put-Right f i ts r))

all_tagged :
    (q k : Text) (xs : List Text)
    → list_eq q k ≡ false
    → All (λ (r : Text × Text). list_eq q r.0 ≡ false) (map (λ x. (k, x)) xs)
all_tagged q k [] h = tt
all_tagged q k (x ∷ xs) h = (h, all_tagged q k xs h)

unlike : (f : Text → Bool) {q : Text} (k : Text) → f q ≡ true → f k ≡ false → list_eq q k ≡ false
unlike f {q} k h e = elim (Bool-cases (list_eq q k)) [
  | inl s ↦ (let c = sym h ∙ (ap f (list_eq_sound q k s) ∙ e) in ground arith)
  | inr s ↦ s
]

module _ (stays : Text → Bool) (q : Text) where
  abbrev Spared : Text × Text → Type 0
  Spared r = list_eq q r.0 ≡ false

  helper_spares :
      (k : Text) (h : Option Text) (xs : List Text)
      → list_eq q k ≡ false
      → All Spared (elim h [
        | none ↦ map (λ x. (k, x)) xs
        | some y ↦ (k, y) ∷ (if stays y then [] else map (λ x. (k, x)) xs)
      ])
  helper_spares k none xs e = all_tagged q k xs e
  helper_spares k (some y) xs e =
      (e, elim (Bool-cases (stays y)) [ inl s ↦ rw s tt | inr s ↦ rw s (all_tagged q k xs e) ])

  one_spares :
      (k : Text) (h p : Option Text) (xs : List Text)
      → (is_known p ≡ false → list_eq q k ≡ false)
      → All Spared
          (removals_of stays (record { key = k; helper_path = h; plan_path = p; paths = xs }))
  one_spares k h (some p) xs e = tt
  one_spares k h none xs e = helper_spares k h xs (e refl)

  all_spares :
      (f : Text → Bool) (ts : List Transaction)
      → f q ≡ true
      → All (λ t. is_known t.plan_path ≡ f t.key) ts
      → All Spared (removals_from stays ts)
  all_spares f [] h k = tt
  all_spares f (t ∷ ts) h k =
      All-append Spared (removals_of stays t) (removals_from stays ts)
        (one_spares t.key t.helper_path t.plan_path t.paths (λ e. unlike f t.key h (sym k.0 ∙ e)))
        (all_spares f ts h k.1)

  -- The clean-up, whichever helpers cannot be removed: it removes no file of a transaction whose plan is
  -- among the artifacts, wherever in the listing the plan stands.
  pub cleanup-has_plan :
      (items : List Item)
      → has_plan items q ≡ true
      → All (λ (r : Text × Text). list_eq q r.0 ≡ false) (cleanup_apply_artifacts stays items)
  unfolding cleanup_apply_artifacts
  cleanup-has_plan items h =
      all_spares (λ p. has_plan items p || false) (gather items []) (rw h)
        (gather-Right (λ p. false) items [] (record { plans = tt; absent = λ p e. refl })).plans
