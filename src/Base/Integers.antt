-- ===== src/Base/Integers.antt =====
-- Go's `int`, over the native numbers, with its comparisons.
use rig_exporter.Base.Tests.{ltb}
use Prim.Native.Nat.{ℕ}
use mathlib.Core.Bool.{Bool, true, false}

-- `negsuc n` is -(n + 1).
pub data ℤ : Type 0 where
  pos : ℕ → ℤ
  negsuc : ℕ → ℤ

-- The number itself where it is not negative.
abbrev pub to_nat : ℤ → ℕ
to_nat (pos n) = n
to_nat (negsuc n) = 0

abbrev pub ltb_int : ℤ → ℤ → Bool
ltb_int (pos a) (pos b) = ltb a b
ltb_int (pos a) (negsuc b) = false
ltb_int (negsuc a) (pos b) = true
ltb_int (negsuc a) (negsuc b) = ltb b a
