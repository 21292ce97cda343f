-- ===== src/Afterburner.antt =====
-- internal/hardware/afterburner/afterburner.go: the parser of MSI Afterburner's shared memory block
-- and the search for a sensor by name.
pub mod Size
pub mod Descriptor
pub mod Slots
pub mod Parsing
pub mod Search
mod Tests
use rig_exporter.Base.{
  [], ℕ, zero, suc, ◌+◌, ◌*◌, ◌/◌, ◌%◌, ◌^◌, Bool, not, ◌&&◌, ◌||◌, Option, none, some, List, ◌∷◌,
  ◌++◌, ltb, leb, ◌==◌, if◌then◌else◌, length, Outcome, ok, err, ◌>>=◌, ◌>>◌,
}
use rig_exporter.Base.Bytes.{uint32, slice}
use rig_exporter.Base.Unicode.{Unicode}
use rig_exporter.Base.Decimal.{itoa}
use rig_exporter.Base.Text.{codes}

abbrev pub signature : ℕ
signature = 0x4D41484D

abbrev pub min_header_size : ℕ
min_header_size = 20

abbrev pub entry_name_len : ℕ
entry_name_len = 260

abbrev pub off_entry_data : ℕ
off_entry_data = 1300

abbrev pub entry_min_size : ℕ
entry_min_size = 1324

abbrev pub off_gpu_family : ℕ
off_gpu_family = 260

abbrev pub off_gpu_device : ℕ
off_gpu_device = 520

abbrev pub off_gpu_mem_amount : ℕ
off_gpu_mem_amount = 1300

abbrev pub gpu_entry_min_size : ℕ
gpu_entry_min_size = 1304

abbrev pub max_entries : ℕ
max_entries = 4096

abbrev pub max_entry_size : ℕ
max_entry_size = 65536

abbrev pub max_gpu_entries : ℕ
max_gpu_entries = 16

abbrev pub max_gpu_entry_size : ℕ
max_gpu_entry_size = 65536

abbrev pub max_mapping : ℕ
max_mapping = 67108864

pub data Error : Type 0 where
  not_running access_denied truncated bad_signature : Error
  bad_header : ℕ → ℕ → ℕ → Error
  bad_size : ℕ → Error

-- `value` is the bit pattern of the IEEE 754 single that the block holds.
pub record Entry : Type 0 where
  pub source : List ℕ
  pub value : ℕ

-- not NaN, not infinite, and below the largest single, which marks an absent sensor
unfoldable pub is_valid : Entry → Bool
is_valid e = not (e.value / 2 ^ 23 % 256 == 255) && not (e.value == 0x7F7FFFFF)

pub record Gpu : Type 0 where
  pub device : List ℕ
  pub family : List ℕ
  pub memory_mb : ℕ

pub record Snapshot : Type 0 where
  pub version : ℕ
  pub entries : List Entry
  pub gpus : List Gpu

unfoldable pub mapping_size : List ℕ → Outcome Error ℕ
mapping_size header = if ltb (length header) min_header_size then err truncated else do
  sig ← uint32 header 0
  if not (sig == signature) then err bad_signature else do
    header_size ← uint32 header 8
    num_entries ← uint32 header 12
    entry_size ← uint32 header 16
    if ltb header_size min_header_size
          || ltb max_entries num_entries
          || ltb max_entry_size entry_size
        then err (bad_header header_size num_entries entry_size)
        else (let total =
              (header_size + num_entries * entry_size + max_gpu_entries * gpu_entry_min_size)
              % 2 ^ 64 in
            if ltb max_mapping total then err (bad_size total) else ok total)

-- One round of `gpuDescriptor`: `none` is its `continue` or a failed test.
unfoldable pub gpu_descriptor_at : List ℕ → ℕ → ℕ → Outcome Error (Option (ℕ × ℕ))
gpu_descriptor_at buf header_size time_width =
    let count_offset = 20 + time_width in
    let size_offset = count_offset + 4 in
    if ltb header_size (size_offset + 4) || ltb (length buf) (size_offset + 4) then ok none else do
      count ← uint32 buf count_offset
      size ← uint32 buf size_offset
      ok (
          if leb 1 count
            && leb count max_gpu_entries
            && leb gpu_entry_min_size size
            && leb size max_gpu_entry_size
          then some (count, size)
          else none)

-- The loop goes on only where the narrower time stamp gave nothing.
abbrev pub next_width :
    Option (ℕ × ℕ) → Outcome Error (Option (ℕ × ℕ)) → Outcome Error (Option (ℕ × ℕ))
next_width (some found) wider = ok (some found)
next_width none wider = wider

unfoldable pub gpu_descriptor : List ℕ → ℕ → Outcome Error (Option (ℕ × ℕ))
gpu_descriptor buf header_size = do
  narrow ← gpu_descriptor_at buf header_size 4
  next_width narrow (gpu_descriptor_at buf header_size 8)

unfoldable pub before_nul : List ℕ → List ℕ
before_nul [] = []
before_nul (c ∷ b) = if c == 0 then [] else c ∷ before_nul b

-- The form of both loops of `Parse`: `n` rounds left, at index `i`; each reads `need` bytes.
unfoldable pub read_slots :
    {A : Type 0}
    → (List ℕ → Outcome Error A)
    → ℕ
    → ℕ
    → ℕ
    → List ℕ
    → ℕ
    → ℕ
    → List A
    → Outcome Error (List A)
read_slots decode need zero i buf base size out = ok out
read_slots decode need (suc n) i buf base size out =
    let start = (base + i * size) % 2 ^ 64 in
    let stop = (start + need) % 2 ^ 64 in
    if ltb (length buf) stop then ok out else do
      b ← slice buf start stop
      entry ← decode b
      read_slots decode need n (i + 1) buf base size (out ++ entry ∷ [])

unfoldable pub numbered : ℕ → List (List ℕ) → List (List ℕ)
unfolding itoa
numbered index [] = []
numbered index (suffix ∷ suffixes) =
    (codes "GPU" ++ (itoa (index + 1) ++ (codes " " ++ suffix))) ∷ numbered index suffixes

unfoldable pub unnumbered : List (List ℕ) → List (List ℕ)
unnumbered [] = []
unnumbered (suffix ∷ suffixes) = (codes "GPU " ++ suffix) ∷ suffix ∷ unnumbered suffixes

module _ (u : Unicode) where
  unfoldable pub c_string : List ℕ → List ℕ
  c_string b = u.trim_space (before_nul b)

  unfoldable pub parse_entry : List ℕ → Outcome Error Entry
  parse_entry b = do
    source ← slice b 0 entry_name_len
    value ← uint32 b off_entry_data
    ok (record { source = c_string source; value = value })

  unfoldable pub parse_gpu : List ℕ → Outcome Error Gpu
  parse_gpu b = do
    device ← slice b off_gpu_device (off_gpu_device + entry_name_len)
    family ← slice b off_gpu_family (off_gpu_family + entry_name_len)
    memory ← uint32 b off_gpu_mem_amount
    ok (record { device = c_string device; family = c_string family; memory_mb = memory / 1024 })

  unfoldable pub parse_gpus : List ℕ → ℕ → Option (ℕ × ℕ) → Outcome Error (List Gpu)
  parse_gpus buf entries_end none = ok []
  parse_gpus buf entries_end (some (count, size)) =
      read_slots parse_gpu gpu_entry_min_size count 0 buf entries_end size []

  unfoldable pub parse : List ℕ → Outcome Error Snapshot
  parse buf = if ltb (length buf) min_header_size then err truncated else do
    sig ← uint32 buf 0
    if not (sig == signature) then err bad_signature else do
      version ← uint32 buf 4
      header_size ← uint32 buf 8
      num_entries ← uint32 buf 12
      entry_size ← uint32 buf 16
      if ltb header_size min_header_size
            || ltb entry_size entry_min_size
            || ltb max_entries num_entries
          then ok (record { version = version; entries = []; gpus = [] })
          else (do
            descriptor ← gpu_descriptor buf header_size
            entries ←
                read_slots parse_entry entry_min_size num_entries 0 buf header_size entry_size []
            gpus ← parse_gpus buf ((header_size + num_entries * entry_size) % 2 ^ 64) descriptor
            ok (record { version = version; entries = entries; gpus = gpus }))

  -- the inner loop of `Find`
  unfoldable pub find_one : List ℕ → List Entry → Option Entry
  find_one want [] = none
  find_one want (e ∷ es) =
      if is_valid e && u.equal_fold e.source want then some e else find_one want es

  unfoldable pub find : List Entry → List (List ℕ) → Option Entry
  unfolding find_one
  find es [] = none
  find es (want ∷ candidates) = elim (find_one want es) [
    | some e ↦ some e
    | none ↦ find es candidates
  ]

  unfoldable pub find_gpu : Snapshot → ℕ → List (List ℕ) → Option Entry
  unfolding find numbered unnumbered
  find_gpu s index suffixes = find s.entries (
      if leb (length s.gpus) 1
      then numbered index suffixes ++ unnumbered suffixes
      else numbered index suffixes)

unfoldable pub card_count : Snapshot → ℕ
card_count s =
    if ltb 0 (length s.gpus) then length s.gpus else if ltb 0 (length s.entries) then 1 else 0
