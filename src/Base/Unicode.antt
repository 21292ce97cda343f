-- ===== src/Base/Unicode.antt =====
-- What the program uses of Go's `strings` package that rests on the Unicode tables, as operations on
-- the bytes of a text: the tables are not part of the repository, and no theorem depends on them.
use rig_exporter.Base.Tests.{leb, ◌==◌, if◌then◌else◌, ==→eq, ==_refl}
use mathlib.Core.Path.{◌≡◌, refl}
use native.Mathlib.Omega.{arith}
use Prim.Native.Nat.{ℕ, ◌+◌, ◌-◌}
use mathlib.Core.Bool.{Bool, true, false, ◌&&◌, ◌||◌}
use mathlib.Core.List.{List, [], ◌∷◌, map}

pub record Unicode : Type 0 where
  -- strings.EqualFold
  pub equal_fold : List ℕ → List ℕ → Bool
  -- strings.TrimSpace
  pub trim_space : List ℕ → List ℕ
  -- strings.ToLower
  pub to_lower : List ℕ → List ℕ
  -- strings.ToUpper
  pub to_upper : List ℕ → List ℕ
  -- unicode.IsSpace, of a code point
  pub is_space : ℕ → Bool

abbrev pub list_eq : List ℕ → List ℕ → Bool
list_eq [] [] = true
list_eq (a ∷ as') (b ∷ bs) = a == b && list_eq as' bs
list_eq _ _ = false

abbrev pub lower : ℕ → ℕ
lower c = if leb 65 c && leb c 90 then c + 32 else c

abbrev upper : ℕ → ℕ
upper c = if leb 97 c && leb c 122 then c - 32 else c

-- Go's behaviour on ASCII text with no space at its ends, for the tests.
abbrev pub ascii : Unicode
ascii = record {
  equal_fold = λ a b. list_eq (map lower a) (map lower b);
  trim_space = λ a. a;
  to_lower = map lower;
  to_upper = map upper;
  is_space = λ c. c == 32 || leb 9 c && leb c 13;
}

pub list_eq_sound : (a b : List ℕ) → list_eq a b ≡ true → a ≡ b
list_eq_sound [] [] h = refl
list_eq_sound [] (d ∷ b) h = ground arith
list_eq_sound (c ∷ a) [] h = ground arith
list_eq_sound (c ∷ a) (d ∷ b) h = rw (==→eq c d (ground arith), list_eq_sound a b (ground arith))

pub list_eq_refl : (a : List ℕ) → list_eq a a ≡ true
list_eq_refl [] = refl
list_eq_refl (c ∷ a) = rw (==_refl c, list_eq_refl a)
