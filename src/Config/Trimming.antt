-- ===== src/Config/Trimming.antt =====
-- strings.Trim and strings.TrimRight of Go's library, as internal/config/config.go uses them: with the
-- bytes of a set.
use rig_exporter.Base.{ℕ, Bool, false, ◌&&◌, ◌||◌, List, [], ◌∷◌, ◌==◌, if◌then◌else◌}
use rig_exporter.Base.Unicode.{list_eq}

abbrev Text : Type 0
Text = List ℕ

abbrev pub in_set : Text → ℕ → Bool
in_set [] c = false
in_set (d ∷ ds) c = c == d || in_set ds c

unfoldable pub trim_left : Text → Text → Text
trim_left cut [] = []
trim_left cut (c ∷ s) = let rest = trim_left cut s in if in_set cut c then rest else c ∷ s

unfoldable pub trim_right : Text → Text → Text
trim_right cut [] = []
trim_right cut (c ∷ s) =
    let rest = trim_right cut s in if in_set cut c && list_eq rest [] then [] else c ∷ rest

unfoldable pub trim : Text → Text → Text
unfolding trim_left trim_right
trim cut s = trim_right cut (trim_left cut s)
