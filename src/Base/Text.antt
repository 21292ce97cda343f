-- ===== src/Base/Text.antt =====
-- Literal texts as their bytes.
use Prim.Native.Char.{code}
use Prim.Native.Nat.{ℕ}
use Prim.Native.String.{String}
use mathlib.Core.List.{List, [], ◌∷◌}

-- The code points of a text: its bytes, for the ASCII literals that the models use.
abbrev pub codes : String → List ℕ
codes String.[] = []
codes (String.◌∷◌ c s) = code c ∷ codes s
