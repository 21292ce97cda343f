-- ===== src/Rtss/Header.antt =====
-- internal/rtss/rtss.go: what `checkHeader` and `MappingSize` promise.
use rig_exporter.Base.{ℕ, ◌+◌, ◌*◌, ◌≤◌, ◌≡◌, List, length, arith, ok, IsSafe}
use rig_exporter.Base.Bytes.{IsBytes, uint32, word32, word32-lt}
use rig_exporter.Rtss.{
  signature, min_version, header_size, max_entries, max_entry_size, max_mapping, check_header,
  mapping_size,
}

-- What an accepted header holds.
pub record IsHeader (b : List ℕ) : Type 0 where
  pub long : header_size ≤ length b
  pub signed : word32 b 0 ≡ signature
  pub versioned : min_version ≤ word32 b 4

pub check_header-IsHeader : (b : List ℕ) → check_header b ≡ ok tt → IsHeader b
unfolding check_header uint32
check_header-IsHeader b h = ground arith

pub IsHeader-check_header : (b : List ℕ) → IsHeader b → check_header b ≡ ok tt
unfolding check_header uint32
IsHeader-check_header b h = ground arith

pub check_header-IsSafe : (b : List ℕ) → IsSafe (check_header b)
unfolding check_header uint32
check_header-IsSafe b = ground arith

pub mapping_size-IsSafe : (b : List ℕ) → IsSafe (mapping_size b)
unfolding mapping_size check_header uint32
mapping_size-IsSafe b = ground arith

module _ (b : List ℕ) (bytes : IsBytes b) {n : ℕ} (sized : mapping_size b ≡ ok n) where
  count_capped : word32 b 16 ≤ max_entries
  unfolding mapping_size check_header uint32
  count_capped = ground arith

  size_capped : word32 b 8 ≤ max_entry_size
  unfolding mapping_size check_header uint32
  size_capped = ground arith

  product_capped : word32 b 16 * word32 b 8 ≤ 536870912
  product_capped = grind (arith, count_capped, size_capped)

  covers : word32 b 12 + word32 b 16 * word32 b 8 ≤ n
  unfolding mapping_size check_header uint32
  covers = ground (arith, product_capped, word32-lt b 12 bytes)

  capped : (header_size ≤ n) × (n ≤ max_mapping)
  unfolding mapping_size check_header uint32
  capped = ground arith

  headed : IsHeader b
  unfolding mapping_size check_header uint32
  headed = ground arith

-- A size that `mapping_size` returns for the bytes of a header comes from an accepted header with
-- at most 8192 entries of at most 65536 bytes, lies between the header's 36 bytes and 256 MiB, and
-- reaches to the end of the last entry.
pub mapping_size_sound :
    (b : List ℕ)
    → IsBytes b
    → {n : ℕ} → mapping_size b ≡ ok n
    → IsHeader b
      × (word32 b 16 ≤ max_entries)
      × (word32 b 8 ≤ max_entry_size)
      × (header_size ≤ n)
      × (n ≤ max_mapping)
      × (word32 b 12 + word32 b 16 * word32 b 8 ≤ n)
mapping_size_sound b h s = (
  headed b h s,
  count_capped b h s,
  size_capped b h s,
  (capped b h s).0,
  (capped b h s).1,
  covers b h s,
)
