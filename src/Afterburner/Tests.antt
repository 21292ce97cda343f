-- ===== src/Afterburner/Tests.antt =====
-- Runs of the Afterburner parser and of the search on small inputs.
use rig_exporter.Base.{
  ℕ, ◌/◌, ◌%◌, ◌<◌, ◌≡◌, ◌≢◌, refl, none, some, List, [], ◌∷◌, ◌++◌, arith, replicate, ok,
  All-append, All-replicate,
}
use rig_exporter.Base.Bytes.{IsBytes, word32, uint32, slice}
use rig_exporter.Base.Text.{codes}
use rig_exporter.Base.Unicode.{ascii}
use rig_exporter.Afterburner.{
  Entry, Gpu, Snapshot, signature, mapping_size, parse, find, find_gpu, card_count, is_valid,
  c_string, before_nul, gpu_descriptor, gpu_descriptor_at, read_slots, parse_entry, parse_gpu,
  parse_gpus,
}
use rig_exporter.Afterburner.Size.{IsHeader}
use rig_exporter.Afterburner.Slots.{fitting}
use rig_exporter.Afterburner.Parsing.{parse-fitting}
use rig_exporter.Afterburner.Search.{find-append}

abbrev le32 : ℕ → List ℕ
le32 n = n % 256 ∷ n / 256 % 256 ∷ n / 65536 % 256 ∷ n / 16777216 % 256 ∷ []

-- a header of 32 bytes with a time stamp of 4 bytes, one sensor and one card
abbrev header_bytes : List ℕ
header_bytes =
    le32 signature
    ++ le32 0x20000
    ++ le32 32
    ++ le32 1
    ++ le32 1324
    ++ le32 7
    ++ le32 1
    ++ le32 1304

-- "GPU1 temperature", 45 °C
abbrev sensor_bytes : List ℕ
sensor_bytes = codes "GPU1 temperature" ++ replicate 1284 0 ++ le32 0x42340000 ++ replicate 20 0

-- the family GA102, the card RTX, 24 GiB
abbrev card_bytes : List ℕ
card_bytes =
    replicate 260 0
    ++ codes "GA102"
    ++ replicate 255 0
    ++ codes "RTX"
    ++ replicate 777 0
    ++ le32 25165824

abbrev block : List ℕ
block = header_bytes ++ sensor_bytes ++ card_bytes

abbrev warm : Entry
warm = record { source = codes "GPU1 temperature"; value = 0x42340000 }

abbrev card : Gpu
card = record { device = codes "RTX"; family = codes "GA102"; memory_mb = 24576 }

abbrev snapshot : Snapshot
snapshot = record { version = 0x20000; entries = warm ∷ []; gpus = card ∷ [] }

block_parses : parse ascii block ≡ ok snapshot
unfolding parse gpu_descriptor gpu_descriptor_at read_slots parse_entry parse_gpu parse_gpus uint32
    slice c_string before_nul
block_parses = refl

block_finds : find_gpu ascii snapshot 0 (codes "Temperature" ∷ []) ≡ some warm
unfolding find_gpu is_valid
block_finds = refl

-- An absent sensor holds the largest single, and is not reported.
absent_ignored :
    find_gpu ascii
      (record snapshot { entries = record warm { value = 0x7F7FFFFF } ∷ [] })
      0
      (codes "Temperature" ∷ [])
    ≡ none
unfolding find_gpu is_valid
absent_ignored = refl

block_cards : card_count snapshot ≡ 1
unfolding card_count
block_cards = refl

header_IsBytes : IsBytes header_bytes
header_IsBytes = omega arith

header_size : mapping_size header_bytes ≡ ok 22220
unfolding mapping_size uint32
header_size = refl

abbrev reading_bytes : List ℕ
reading_bytes = le32 0x42340000 ++ replicate 20 0

reading_IsBytes : IsBytes reading_bytes
reading_IsBytes = omega arith

name_IsBytes : IsBytes (codes "GPU1 temperature")
name_IsBytes = omega arith

zero_IsByte : ◌<◌ 0 256
zero_IsByte = omega arith

sensor_IsBytes : IsBytes sensor_bytes
sensor_IsBytes =
    All-append (λ c. c < 256) (codes "GPU1 temperature") (replicate 1284 0 ++ reading_bytes)
      name_IsBytes
      (All-append (λ c. c < 256) (replicate 1284 0) reading_bytes
        (All-replicate (λ c. c < 256) 1284 0 zero_IsByte) reading_IsBytes)

abbrev sensor_block : List ℕ
sensor_block = header_bytes ++ sensor_bytes

sensor_block-IsBytes : IsBytes sensor_block
sensor_block-IsBytes =
    All-append (λ c. c < 256) header_bytes sensor_bytes header_IsBytes sensor_IsBytes

sensor_block-IsHeader : IsHeader sensor_block
unfolding word32
sensor_block-IsHeader = omega arith

parse-fitting_example :
    parse ascii sensor_block ≡ ok (record { version = 0x20000; entries = warm ∷ []; gpus = [] })
unfolding word32 fitting c_string before_nul
parse-fitting_example = parse-fitting ascii sensor_block sensor_block-IsBytes sensor_block-IsHeader

abbrev wanted : List (List ℕ)
wanted = codes "GPU2 temperature" ∷ codes "gpu1 TEMPERATURE" ∷ []

wanted_found : find ascii (warm ∷ []) wanted ≡ some warm
unfolding find is_valid
wanted_found = refl

find-append_example :
    (find ascii (warm ∷ []) [] ≢ none → find ascii (warm ∷ []) wanted ≡ find ascii (warm ∷ []) [])
    × (find ascii (warm ∷ []) [] ≡ none
        → find ascii (warm ∷ []) wanted ≡ find ascii (warm ∷ []) wanted)
find-append_example = find-append ascii (warm ∷ []) [] wanted
