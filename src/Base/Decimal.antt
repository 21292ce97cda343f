-- ===== src/Base/Decimal.antt =====
-- Decimal digits of a number, as bytes (strconv.Itoa and the verb %d, of a natural number).
use rig_exporter.Base.Tests.{ltb, if◌then◌else◌}
use Prim.Native.Nat.{ℕ, zero, suc, ◌+◌, ◌/◌, ◌%◌}
use mathlib.Core.List.{List, [], ◌∷◌, ◌++◌}

-- `fuel` digits at most
digits : ℕ → ℕ → List ℕ
digits zero n = []
digits (suc fuel) n =
    let rest = digits fuel (n / 10) in
    if ltb n 10 then (48 + n) ∷ [] else rest ++ (48 + n % 10) ∷ []

unfoldable pub itoa : ℕ → List ℕ
unfolding digits
itoa n = digits (n + 1) n
