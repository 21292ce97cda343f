-- ===== src/Apply/Artifacts.antt =====
-- internal/updater/apply_windows.go: the names of a transaction's files. Names are byte strings without
-- their directory; strings.ToLower is a parameter. A slice out of bounds is a panic.
pub mod Naming
pub mod Cleanup
pub mod Preserving
pub mod Provenance
mod Tests
use rig_exporter.Base.{
  ℕ, ◌+◌, ◌-◌, Bool, true, false, ◌&&◌, ◌||◌, Option, none, some, List, [], ◌∷◌, ◌++◌, ltb, leb,
  ◌==◌, if◌then◌else◌, length, Outcome, ok, ◌>>=◌, ◌>>◌,
}
use rig_exporter.Base.Bytes.{slice}
use rig_exporter.Base.Text.{codes}
use mathlib.Core.List.{reverse}
use rig_exporter.Apply.{Text, File, target, stage, backup, helper, helper_ready, ready, journal}

abbrev pub has_prefix : Text → Text → Bool
has_prefix t [] = true
has_prefix [] (c ∷ p) = false
has_prefix (a ∷ t) (c ∷ p) = a == c && has_prefix t p

abbrev pub has_suffix : Text → Text → Bool
has_suffix t s = has_prefix (reverse t) (reverse s)

-- What an artifact is: the rest of a copy that was cut off, or one of the files.
pub data Kind : Type 0 where
  partial : Kind
  of : File → Kind

abbrev pub suffixes : List (Text × Kind)
suffixes =
    (codes "-helper.exe.partial", partial)
    ∷ (codes "-backup.exe.partial", partial)
    ∷ (codes "-stage.exe.partial", partial)
    ∷ (codes "-plan.json.partial", partial)
    ∷ (codes "-helper.exe", of helper)
    ∷ (codes "-backup.exe", of backup)
    ∷ (codes "-stage.exe", of stage)
    ∷ (codes "-helper-ready.json", of helper_ready)
    ∷ (codes "-ready.json", of ready)
    ∷ (codes "-plan.json", of journal)
    ∷ []

-- The suffix that scheduleApplyWithTimeouts gives to a file; the target has a name of its own.
abbrev pub suffix_of : File → Text
suffix_of target = []
suffix_of stage = codes "-stage.exe"
suffix_of backup = codes "-backup.exe"
suffix_of helper = codes "-helper.exe"
suffix_of helper_ready = codes "-helper-ready.json"
suffix_of ready = codes "-ready.json"
suffix_of journal = codes "-plan.json"

abbrev pub start_of : Text → Text
start_of stem = codes "." ++ (stem ++ codes "-update-")

abbrev pub artifact_name : Text → Text → File → Text
artifact_name stem token f = start_of stem ++ (token ++ suffix_of f)

abbrev pub is_hex : ℕ → Bool
is_hex c = leb 48 c && leb c 57 || leb 97 c && leb c 102 || leb 65 c && leb c 70

abbrev pub all_hex : Text → Bool
all_hex [] = true
all_hex (c ∷ t) = is_hex c && all_hex t

-- isUpdateToken
unfoldable pub is_update_token : Text → Bool
is_update_token t = length t == 24 && all_hex t

-- tokenBetween
unfoldable pub token_between : Text → Text → Text → Outcome (Unit {0}) (Option Text)
unfolding slice
token_between base start suffix =
    if ltb (length base) (length start + length suffix)
    then ok none
    else slice base (length start) (length base - length suffix) >>= λ t. ok (some t)

module _ (lower : Text → Text) where
  -- Behind the suffix that fits.
  abbrev pub accept : Text → Kind → Option Text → Outcome (Unit {0}) (Option (Text × Kind))
  accept start kind none = ok none
  accept start kind (some t) =
      if is_update_token t then ok (some (start ++ lower t, kind)) else ok none

  unfoldable pub try_suffixes :
      Text → Text → List (Text × Kind) → Outcome (Unit {0}) (Option (Text × Kind))
  unfolding token_between is_update_token
  try_suffixes base start [] = ok none
  try_suffixes base start ((s, k) ∷ rest) =
      let later = try_suffixes base start rest in
      if has_suffix (lower base) s then token_between base start s >>= accept start k else later

  -- updateArtifact, the prefix without the directory
  unfoldable pub update_artifact : Text → Text → Outcome (Unit {0}) (Option (Text × Kind))
  unfolding try_suffixes
  update_artifact base stem =
      if has_prefix (lower base) (lower (start_of stem))
      then try_suffixes base (start_of stem) suffixes
      else ok none

  abbrev pub accept_error : Option Text → Outcome (Unit {0}) (Option Text)
  accept_error none = ok none
  accept_error (some t) = if is_update_token t then ok (some (lower t)) else ok none

  -- applyErrorArtifact
  unfoldable pub apply_error_artifact : Text → Text → Outcome (Unit {0}) (Option Text)
  unfolding token_between is_update_token
  apply_error_artifact base stem =
      if has_prefix (lower base) (lower (start_of stem))
        && has_suffix (lower base) (codes "-plan.json.error.txt")
      then token_between base (start_of stem) (codes "-plan.json.error.txt") >>= accept_error
      else ok none
