-- ===== src/Rtss/Tests.antt =====
-- Runs of the RTSS parser and of the choice of the entry on small inputs.
use rig_exporter.Base.{
  ℕ, ◌/◌, ◌%◌, ◌≡◌, ◌↔◌, refl, true, false, some, List, [], ◌∷◌, ◌++◌, arith, replicate, ok, err,
  IsSafe,
}
use rig_exporter.Base.Bytes.{IsBytes, word32, uint32, slice}
use rig_exporter.Rtss.{
  Error, Entry, check_header, mapping_size, parse, parse_entries, parse_entry, c_string, before_nul,
  base_name, select_active, newer, is_skipped, after, bad_signature, shut_down,
}
use rig_exporter.Rtss.Header.{IsHeader}
use rig_exporter.Rtss.Parsing.{occupied, parse-occupied, parse-check_header}
use rig_exporter.Rtss.Ticks.{after_exact}

abbrev le32 : ℕ → List ℕ
le32 n = n % 256 ∷ n / 256 % 256 ∷ n / 65536 % 256 ∷ n / 16777216 % 256 ∷ []

-- a header with one entry of 312 bytes at offset 36
abbrev header_bytes : List ℕ
header_bytes = le32 0x52545353 ++ le32 0x20007 ++ le32 312 ++ le32 36 ++ le32 1 ++ replicate 16 0

-- a.exe with process id 1234
abbrev entry_bytes : List ℕ
entry_bytes =
    le32 1234
    ++ (97 ∷ 46 ∷ 101 ∷ 120 ∷ 101 ∷ [])
    ++ replicate 255 0
    ++ le32 0
    ++ le32 1000
    ++ le32 2000
    ++ le32 60
    ++ le32 16667
    ++ replicate 24 0
    ++ le32 0

abbrev block : List ℕ
block = header_bytes ++ entry_bytes

abbrev game : Entry
game = record {
  process_id = 1234;
  path = 97 ∷ 46 ∷ 101 ∷ 120 ∷ 101 ∷ [];
  flags = 0;
  time0 = 1000;
  time1 = 2000;
  frames = 60;
  frame_time_us = 16667;
  stat_framerate_avg = 0;
}

abbrev plain : List ℕ → List ℕ
plain b = b

block-IsBytes : IsBytes block
block-IsBytes = omega arith

block_parses : parse plain block ≡ ok (record { version = 0x20007; entries = game ∷ [] })
unfolding parse check_header parse_entries parse_entry uint32 slice word32 c_string before_nul
block_parses = refl

block-IsHeader : IsHeader block
unfolding word32
block-IsHeader = omega arith

block_size : mapping_size block ≡ ok 348
unfolding mapping_size check_header uint32
block_size = refl

parse-occupied_example : parse plain block ≡ ok (record { version = 0x20007; entries = game ∷ [] })
unfolding word32 occupied c_string before_nul
parse-occupied_example = parse-occupied plain block block-IsBytes block-IsHeader

parse-check_header_example :
    IsSafe (parse plain block)
    × ((e : Error) → (parse plain block ≡ err e) ↔ (check_header block ≡ err e))
parse-check_header_example = parse-check_header plain block block-IsBytes

-- RTSS marks its block on shutdown; another owner of the name is refused with its signature.
closed_block :
    (check_header (le32 0xDEAD ++ replicate 32 0) ≡ err shut_down)
    × (check_header (replicate 36 1) ≡ err (bad_signature 0x1010101))
unfolding check_header uint32
closed_block = (refl, refl)

after_exact_example : (after 3 4294967294 ≡ true) × (after 4294967294 3 ≡ false)
after_exact_example = after_exact 4294967294 5 (omega arith) (omega arith)

abbrev browser : Entry
browser = record game { process_id = 99; time1 = 2500 }

abbrev hooked : List Entry
hooked = game ∷ browser ∷ []

hooked_front : select_active hooked 1234 2600 1000 ≡ some game
unfolding select_active newer is_skipped after
hooked_front = refl

hooked_latest : select_active hooked 0 2600 1000 ≡ some browser
unfolding select_active newer is_skipped after
hooked_latest = refl

-- "C:\games\a.exe" is named a.exe
base_name_test :
    base_name (record game { path = 67 ∷ 58 ∷ 92 ∷ 103 ∷ 92 ∷ 97 ∷ 46 ∷ 101 ∷ [] })
    ≡ 97 ∷ 46 ∷ 101 ∷ []
unfolding base_name
base_name_test = refl
