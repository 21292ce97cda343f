-- ===== src/Afterburner/Size.antt =====
-- internal/hardware/afterburner/afterburner.go: what `MappingSize` promises.
use rig_exporter.Base.{ℕ, ◌+◌, ◌*◌, ◌≤◌, ◌≡◌, List, arith, length, ok, IsSafe}
use rig_exporter.Base.Bytes.{IsBytes, uint32, word32, word32-lt}
use rig_exporter.Afterburner.{
  signature, min_header_size, max_entries, max_entry_size, max_mapping, max_gpu_entries,
  gpu_entry_min_size, mapping_size,
}

-- What an accepted header holds.
pub record IsHeader (b : List ℕ) : Type 0 where
  pub long : min_header_size ≤ length b
  pub signed : word32 b 0 ≡ signature

module _ (b : List ℕ) (bytes : IsBytes b) {n : ℕ} (sized : mapping_size b ≡ ok n) where
  array_capped : (word32 b 12 ≤ max_entries) × (word32 b 16 ≤ max_entry_size)
  unfolding mapping_size uint32
  array_capped = ground arith

  product_capped : word32 b 12 * word32 b 16 ≤ 268435456
  product_capped = grind (arith, array_capped.0, array_capped.1)

  size_exact : n ≡ word32 b 8 + word32 b 12 * word32 b 16 + max_gpu_entries * gpu_entry_min_size
  unfolding mapping_size uint32
  size_exact = ground (arith, product_capped, word32-lt b 8 bytes)

  capped : n ≤ max_mapping
  unfolding mapping_size uint32
  capped = ground arith

  headed : IsHeader b
  unfolding mapping_size uint32
  headed = ground arith

-- A size that `mapping_size` returns for the bytes of a header comes from a signed header of at
-- least 20 bytes, is at most 64 MiB, and is exactly the header, the sensor array and 16 card
-- entries, none of the sums having wrapped.
pub mapping_size_exact :
    (b : List ℕ)
    → IsBytes b
    → {n : ℕ} → mapping_size b ≡ ok n
    → IsHeader b
      × (n ≤ max_mapping)
      × (n ≡ word32 b 8 + word32 b 12 * word32 b 16 + max_gpu_entries * gpu_entry_min_size)
mapping_size_exact b h s = (headed b h s, capped b h s, size_exact b h s)

pub mapping_size-IsSafe : (b : List ℕ) → IsSafe (mapping_size b)
unfolding mapping_size uint32
mapping_size-IsSafe b = ground arith
