-- ===== src/Config/Cleaning.antt =====
-- internal/config/config.go: what becomes of the lists of texts: `cleanIDs`, `cleanPingTargets` and the
-- drive letters. The map `seen` is the list of its keys.
use rig_exporter.Base.{
  ℕ, zero, suc, Bool, true, false, ◌&&◌, ◌||◌, List, [], ◌∷◌, ltb, ◌==◌, if◌then◌else◌,
}
use rig_exporter.Base.Unicode.{Unicode, list_eq}
use rig_exporter.Config.Trimming.{trim}

abbrev Text : Type 0
Text = List ℕ

abbrev pub member : Text → List Text → Bool
member t [] = false
member t (s ∷ ss) = list_eq t s || member t ss

-- a < b of the code's language, by bytes
abbrev pub text_leb : Text → Text → Bool
text_leb [] b = true
text_leb (c ∷ a) [] = false
text_leb (c ∷ a) (d ∷ b) = ltb c d || c == d && text_leb a b

-- sort.Strings
unfoldable pub insert_text : Text → List Text → List Text
insert_text t [] = t ∷ []
insert_text t (s ∷ ss) =
    let rest = insert_text t ss in if text_leb t s then t ∷ s ∷ ss else s ∷ rest

unfoldable pub sort_strings : List Text → List Text
unfolding insert_text
sort_strings [] = []
sort_strings (t ∷ ts) = insert_text t (sort_strings ts)

-- the loop of cleanIDs
unfoldable pub distinct_ids : Unicode → List Text → List Text → List Text
distinct_ids u seen [] = []
distinct_ids u seen (raw ∷ ids) =
    let id = u.trim_space raw in
    let drop_it = list_eq id [] || member id seen in
    let rest = distinct_ids u (if drop_it then seen else id ∷ seen) ids in
    if drop_it then rest else id ∷ rest

unfoldable pub clean_ids : Unicode → List Text → List Text
unfolding sort_strings distinct_ids
clean_ids u ids = sort_strings (distinct_ids u [] ids)

abbrev pub max_ping_targets : ℕ
max_ping_targets = 8

-- the loop of cleanPingTargets, with the number of targets that may still be added
unfoldable pub distinct_targets : Unicode → ℕ → List Text → List Text → List Text
distinct_targets u zero seen raws = []
distinct_targets u (suc room) seen [] = []
distinct_targets u (suc room) seen (raw ∷ raws) =
    let target = u.trim_space raw in
    let kept = distinct_targets u room (u.to_lower target ∷ seen) raws in
    let skipped = distinct_targets u (suc room) seen raws in
    if list_eq target [] || member (u.to_lower target) seen then skipped else target ∷ kept

unfoldable pub clean_ping_targets : Unicode → List Text → List Text
unfolding distinct_targets
clean_ping_targets u targets = distinct_targets u max_ping_targets [] targets

-- `:\/`
abbrev pub drive_marks : Text
drive_marks = 58 ∷ 92 ∷ 47 ∷ []

unfoldable pub drive_name : Unicode → Text → Text
unfolding trim
drive_name u drive = u.to_upper (trim drive_marks (u.trim_space drive))

unfoldable pub clean_drives : Unicode → List Text → List Text
unfolding drive_name
clean_drives u [] = []
clean_drives u (drive ∷ drives) =
    let rest = clean_drives u drives in
    let name = drive_name u drive in if list_eq name [] then rest else name ∷ rest
