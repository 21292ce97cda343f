-- ===== src/Rtss.antt =====
-- internal/rtss/rtss.go: the parser of RTSS's shared memory block and the choice of the entry
-- whose frame rate is reported. The ANSI decoder of ansi_windows.go is a parameter.
pub mod Header
pub mod Parsing
pub mod Ticks
pub mod Active
pub mod Latest
mod Tests
use rig_exporter.Base.{
  [], ℕ, zero, suc, ◌+◌, ◌-◌, ◌*◌, ◌%◌, ◌^◌, Bool, not, ◌&&◌, ◌||◌, Option, none, some, List, ◌∷◌,
  ◌++◌, length, ltb, ◌==◌, if◌then◌else◌, Outcome, ok, err, ◌>>=◌, ◌>>◌,
}
use rig_exporter.Base.Bytes.{uint32, slice}

abbrev pub signature : ℕ
signature = 0x52545353

abbrev pub signature_dead : ℕ
signature_dead = 0xDEAD

abbrev pub min_version : ℕ
min_version = 0x20000

abbrev pub header_size : ℕ
header_size = 36

abbrev pub entry_min_size : ℕ
entry_min_size = 312

abbrev pub name_len : ℕ
name_len = 260

abbrev pub max_entries : ℕ
max_entries = 8192

abbrev pub max_entry_size : ℕ
max_entry_size = 65536

abbrev pub max_mapping : ℕ
max_mapping = 268435456

pub data Error : Type 0 where
  not_running shut_down access_denied truncated : Error
  bad_signature : ℕ → Error
  unsupported_version : ℕ → Error
  implausible_array : ℕ → ℕ → Error
  implausible_mapping : ℕ → Error

pub record Entry : Type 0 where
  pub process_id : ℕ
  pub path : List ℕ
  pub flags : ℕ
  pub time0 : ℕ
  pub time1 : ℕ
  pub frames : ℕ
  pub frame_time_us : ℕ
  pub stat_framerate_avg : ℕ

pub record Snapshot : Type 0 where
  pub version : ℕ
  pub entries : List Entry

unfoldable pub check_header : List ℕ → Outcome Error (Unit {0})
check_header header = if ltb (length header) header_size then err truncated else do
  sig ← uint32 header 0
  if sig == signature
      then (do
        version ← uint32 header 4
        if ltb version min_version then err (unsupported_version version) else ok tt)
      else if sig == signature_dead
      then err shut_down
      else err (bad_signature sig)

-- `total` is a uint64
unfoldable pub mapping_size : List ℕ → Outcome Error ℕ
mapping_size header = do
  check_header header
  entry_size ← uint32 header 8
  arr_offset ← uint32 header 12
  arr_count ← uint32 header 16
  if ltb max_entry_size entry_size || ltb max_entries arr_count
      then err (implausible_array arr_count entry_size)
      else (let total = (arr_offset + arr_count * entry_size % 2 ^ 64) % 2 ^ 64 in
          let total' = if ltb total header_size then header_size else total in
          if ltb max_mapping total' then err (implausible_mapping total') else ok total')

-- the bytes before the first NUL
unfoldable pub before_nul : List ℕ → List ℕ
before_nul [] = []
before_nul (c ∷ b) = if c == 0 then [] else c ∷ before_nul b

-- strings.LastIndexAny(p, `\/`) and the slice behind it: what follows the last separator
unfoldable pub after_separator : List ℕ → List ℕ → List ℕ
after_separator name [] = name
after_separator name (c ∷ p) = after_separator (if c == 92 || c == 47 then p else name) p

unfoldable pub base_name : Entry → List ℕ
unfolding after_separator
base_name e = after_separator e.path e.path

module _ (decode_ansi : List ℕ → List ℕ) where
  unfoldable pub c_string : List ℕ → List ℕ
  c_string b = decode_ansi (before_nul b)

  unfoldable pub parse_entry : List ℕ → Outcome Error Entry
  parse_entry b = do
    process_id ← uint32 b 0
    name ← slice b 4 (4 + name_len)
    flags ← uint32 b 264
    time0 ← uint32 b 268
    time1 ← uint32 b 272
    frames ← uint32 b 276
    frame_time ← uint32 b 280
    average ← uint32 b 308
    ok (record {
      process_id = process_id;
      path = c_string name;
      flags = flags;
      time0 = time0;
      time1 = time1;
      frames = frames;
      frame_time_us = frame_time;
      stat_framerate_avg = average;
    })

  -- the loop of `Parse`: `n` rounds left, at index `i`
  unfoldable pub parse_entries : ℕ → ℕ → List ℕ → ℕ → ℕ → List Entry → Outcome Error (List Entry)
  parse_entries zero i buf arr_offset entry_size entries = ok entries
  parse_entries (suc n) i buf arr_offset entry_size entries =
      let start = (arr_offset + i * entry_size % 2 ^ 64) % 2 ^ 64 in
      let stop = (start + entry_min_size) % 2 ^ 64 in
      if ltb (length buf) stop then ok entries else do
        b ← slice buf start stop
        entry ← parse_entry b
        parse_entries n (i + 1) buf arr_offset entry_size
            (if entry.process_id == 0 then entries else entries ++ entry ∷ [])

  unfoldable pub parse : List ℕ → Outcome Error Snapshot
  parse buf = do
    check_header buf
    version ← uint32 buf 4
    entry_size ← uint32 buf 8
    arr_offset ← uint32 buf 12
    arr_count ← uint32 buf 16
    if ltb entry_size entry_min_size || arr_count == 0 || ltb max_entries arr_count
        then ok (record { version = version; entries = [] })
        else (do
          entries ← parse_entries arr_count 0 buf arr_offset entry_size []
          ok (record { version = version; entries = entries }))

-- uint32 arithmetic wraps
unfoldable pub age_ms : ℕ → ℕ → ℕ
age_ms now then' = let d = (now + 2 ^ 32 - then') % 2 ^ 32 in if ltb (2 ^ 31) d then 0 else d

unfoldable pub after : ℕ → ℕ → Bool
after a b = ltb ((a + 2 ^ 32 - b) % 2 ^ 32) (2 ^ 31) && not (a == b)

-- the two `continue` guards of the loop
unfoldable pub is_stale : Entry → ℕ → ℕ → Bool
unfolding age_ms
is_stale e now max_age = ltb 0 max_age && ltb max_age (age_ms now e.time1)

unfoldable pub is_skipped : Entry → ℕ → ℕ → Bool
unfolding is_stale
is_skipped e now max_age = e.process_id == 0 || e.time1 == 0 || is_stale e now max_age

unfoldable pub newer : Entry → Option Entry → Option Entry
newer e none = some e
newer e (some best) = if after e.time1 best.time1 then some e else some best

-- `best` and `found` of the loop are one `Option`
unfoldable pub select_from : Option Entry → List Entry → ℕ → ℕ → ℕ → Option Entry
select_from best [] foreground now max_age = best
select_from best (e ∷ es) foreground now max_age =
    let next =
      select_from (if is_skipped e now max_age then best else newer e best) es foreground now
        max_age in
    if not (is_skipped e now max_age) && (not (foreground == 0) && e.process_id == foreground)
    then some e
    else next

unfoldable pub select_active : List Entry → ℕ → ℕ → ℕ → Option Entry
unfolding select_from
select_active entries foreground now max_age = select_from none entries foreground now max_age
