-- ===== src/Base/Bytes.antt =====
-- Byte slices as lists of numbers, and Go's bounds-checked reads of them (encoding/binary's
-- LittleEndian, slicing, indexing). A read out of bounds is a run-time panic.
use rig_exporter.Base.Tests.{ltb, leb, if◌then◌else◌}
use rig_exporter.Base.Lists.{length, get_or, take, drop, All, length-take, length-drop}
use rig_exporter.Base.Ending.{Outcome, ok, panic}
use Prim.Native.Nat.{ℕ, zero, suc, ◌+◌, ◌-◌, ◌*◌, ◌≤◌, ◌<◌}
use mathlib.Core.Path.{◌≡◌}
use mathlib.Core.List.{List, [], ◌∷◌}
use native.Mathlib.Omega.{arith}

abbrev pub IsBytes : List ℕ → Type 0
IsBytes = All (λ c. c < 256)

-- The byte at an index, 0 past the end.
unfoldable pub byte : List ℕ → ℕ → ℕ
byte b i = get_or b i 0

unfoldable pub word16 : List ℕ → ℕ → ℕ
unfolding byte
word16 b i = byte b i + 256 * byte b (i + 1)

unfoldable pub word32 : List ℕ → ℕ → ℕ
unfolding byte
word32 b i = byte b i + 256 * byte b (i + 1) + 65536 * byte b (i + 2) + 16777216 * byte b (i + 3)

module _ {E : Type 0} where
  -- b[i]
  unfoldable pub at : List ℕ → ℕ → Outcome E ℕ
  unfolding byte
  at b i = if ltb i (length b) then ok (byte b i) else panic

  -- binary.LittleEndian.Uint16(b[i:])
  unfoldable pub uint16 : List ℕ → ℕ → Outcome E ℕ
  unfolding word16
  uint16 b i = if leb (i + 2) (length b) then ok (word16 b i) else panic

  -- binary.LittleEndian.Uint32(b[i:])
  unfoldable pub uint32 : List ℕ → ℕ → Outcome E ℕ
  unfolding word32
  uint32 b i = if leb (i + 4) (length b) then ok (word32 b i) else panic

  -- b[from:to], for a slice whose capacity is its length
  unfoldable pub slice : List ℕ → ℕ → ℕ → Outcome E (List ℕ)
  slice b from to =
      if leb from to
      then (if leb to (length b) then ok (take (to - from) (drop from b)) else panic)
      else panic

  pub at_ok : (b : List ℕ) (i : ℕ) → i < length b → at b i ≡ ok (byte b i)
  unfolding at
  at_ok b i h = ground arith

  pub uint16_ok : (b : List ℕ) (i : ℕ) → i + 2 ≤ length b → uint16 b i ≡ ok (word16 b i)
  unfolding uint16
  uint16_ok b i h = ground arith

  pub uint32_ok : (b : List ℕ) (i : ℕ) → i + 4 ≤ length b → uint32 b i ≡ ok (word32 b i)
  unfolding uint32
  uint32_ok b i h = ground arith

  pub slice_ok :
      (b : List ℕ) (from to : ℕ)
      → from ≤ to
      → to ≤ length b
      → slice b from to ≡ ok (take (to - from) (drop from b))
  unfolding slice
  slice_ok b from to h k = ground arith

pub length-slice :
    (b : List ℕ) (from to : ℕ)
    → from ≤ to
    → to ≤ length b
    → length (take (to - from) (drop from b)) ≡ to - from
length-slice b from to h k =
    omega (arith, length-take (to - from) (drop from b), length-drop from b)

-- A byte is below 256, and the words keep to their width.
pub byte-lt : (b : List ℕ) (i : ℕ) → IsBytes b → byte b i < 256
unfolding byte
byte-lt [] i h = omega arith
byte-lt (x ∷ b) zero h = h.0
byte-lt (x ∷ b) (suc i) h = byte-lt b i h.1

pub word16-lt : (b : List ℕ) (i : ℕ) → IsBytes b → word16 b i < 65536
unfolding word16
word16-lt b i h = omega (arith, byte-lt b i h, byte-lt b (i + 1) h)

pub word32-lt : (b : List ℕ) (i : ℕ) → IsBytes b → word32 b i < 4294967296
unfolding word32
word32-lt b i h =
    omega (arith, byte-lt b i h, byte-lt b (i + 1) h, byte-lt b (i + 2) h, byte-lt b (i + 3) h)
