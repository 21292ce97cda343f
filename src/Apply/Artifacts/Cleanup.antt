-- ===== src/Apply/Artifacts/Cleanup.antt =====
-- internal/updater/apply_windows.go: the clean-up of leftovers, cleanupApplyArtifactsWith. The map of
-- transactions is a list; Go goes through it in any order, and what is done with one does not depend on it.
use rig_exporter.Base.{
  Bool, false, ◌||◌, Option, none, some, List, [], ◌∷◌, ◌++◌, map, if◌then◌else◌,
}
use rig_exporter.Base.Unicode.{list_eq}
use rig_exporter.Apply.{Text, helper, journal}
use rig_exporter.Apply.Artifacts.{Kind, of}

-- A file that updateArtifact knows.
pub record Item : Type 0 where
  pub prefix : Text
  pub kind : Kind
  pub path : Text

pub record Transaction : Type 0 where
  pub key : Text
  pub helper_path : Option Text
  pub plan_path : Option Text
  pub paths : List Text

abbrev pub filed : Kind → Text → Transaction → Transaction
filed (of helper) path t = record t { helper_path = some path }
filed (of journal) path t = record t { plan_path = some path }
filed _ path t = record t { paths = t.paths ++ path ∷ [] }

abbrev pub has_key : Text → List Transaction → Bool
has_key p [] = false
has_key p (t ∷ ts) = list_eq p t.key || has_key p ts

abbrev pub file_under : Item → Transaction → Transaction
file_under i t = if list_eq i.prefix t.key then filed i.kind i.path t else t

-- One round of the first loop; there is one transaction of a key.
unfoldable pub put : Item → List Transaction → List Transaction
put i ts =
    let known =
      if has_key i.prefix ts
      then ts
      else ts ++ record { key = i.prefix; helper_path = none; plan_path = none; paths = [] } ∷ [] in
    map (file_under i) known

unfoldable pub gather : List Item → List Transaction → List Transaction
unfolding put
gather [] ts = ts
gather (i ∷ is) ts = gather is (put i ts)

-- The files of one transaction that are removed, or tried to be: those whose removal fails by `stays` too.
abbrev pub removals_of : (Text → Bool) → Transaction → List (Text × Text)
removals_of stays t = elim t.plan_path [
  | some p ↦ []
  | none ↦ elim t.helper_path [
    | none ↦ map (λ x. (t.key, x)) t.paths
    | some h ↦ (t.key, h) ∷ (if stays h then [] else map (λ x. (t.key, x)) t.paths)
  ]
]

abbrev pub removals_from : (Text → Bool) → List Transaction → List (Text × Text)
removals_from stays [] = []
removals_from stays (t ∷ ts) = removals_of stays t ++ removals_from stays ts

-- cleanupApplyArtifactsWith: each removal with the key of its transaction
unfoldable pub cleanup_apply_artifacts : (Text → Bool) → List Item → List (Text × Text)
unfolding gather
cleanup_apply_artifacts stays items = removals_from stays (gather items [])
