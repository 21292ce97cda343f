-- ===== src/Smbios.antt =====
-- internal/hardware/ram/smbios.go: the memory modules that the firmware's SMBIOS table describes. The
-- reads are bounds-checked, a read out of bounds is a panic, and so is a loop that does not end.
pub mod Table
pub mod Walk
pub mod Modules
pub mod Summing
pub mod Totals
mod Tests
use rig_exporter.Base.{
  [], ℕ, ◌+◌, ◌/◌, ◌%◌, ◌^◌, ◌&&◌, ◌||◌, Option, none, some, List, ◌∷◌, ◌++◌, ltb, leb, ◌==◌,
  if◌then◌else◌, length, Outcome, ok, err, ◌>>=◌,
}
use rig_exporter.Base.Bytes.{at, uint16, uint32}
use rig_exporter.Base.Unicode.{Unicode, list_eq}
use rig_exporter.Base.Text.{codes}
unfoldable pub use Table.*

-- The four meanings of the size field, `none` where no module is reported.
unfoldable pub module_size : List ℕ → Outcome Error (Option ℕ)
unfolding uint16 uint32
module_size formatted = uint16 formatted device_size >>= λ size.
    if size == 0
    then ok none
    else if size == 65535
    then ok none
    else if size == 32767
    then (if ltb (length formatted) (device_extended_size + 4)
        then ok none
        else (uint32 formatted device_extended_size >>= λ extended. ok (some extended)))
    else if ltb 0 (size / 32768 % 2)
    then ok (some (size % 32768 / 1024))
    else ok (some size)

unfoldable pub field_text : (Text → Text) → Structure → ℕ → Outcome Error Text
unfolding at text
field_text clean s index =
    if ltb index (length s.formatted)
    then (at s.formatted index >>= λ reference. ok (clean (text s reference)))
    else ok []

unfoldable pub configured_field : List ℕ → Outcome Error ℕ
unfolding uint16
configured_field formatted =
    if leb (device_configured_speed + 2) (length formatted)
    then uint16 formatted device_configured_speed
    else ok 0

module _ (unicode : Unicode) where
  -- Drops the placeholders that firmware writes.
  unfoldable pub meaningful : Text → Text
  meaningful value =
      let trimmed = unicode.trim_space value in
      let low = unicode.to_lower trimmed in
      if list_eq low []
        || list_eq low (codes "unknown")
        || list_eq low (codes "not specified")
        || list_eq low (codes "none")
        || list_eq low (codes "to be filled by o.e.m.")
        || list_eq low (codes "undefined")
      then []
      else trimmed

  unfoldable pub describe : Structure → ℕ → Outcome Error (Option Module)
  unfolding at text memory_type_name uint16 field_text configured_field
  describe s size = at s.formatted device_locator >>= λ locator.
      at s.formatted device_bank_locator >>= λ bank. at s.formatted device_memory_type >>= λ kind.
      uint16 s.formatted device_speed >>= λ rated.
      field_text meaningful s device_manufacturer >>= λ manufacturer.
      field_text meaningful s device_part_number >>= λ part_number.
      configured_field s.formatted >>= λ configured. ok (
        some (record {
          locator = text s locator;
          bank = text s bank;
          size_mb = size;
          kind = memory_type_name kind;
          configured_speed = if configured == 0 then rated else configured;
          rated_speed = rated;
          manufacturer = manufacturer;
          part_number = part_number;
        }))

  unfoldable pub parse_module : Structure → Outcome Error (Option Module)
  unfolding module_size describe
  parse_module s =
      if ltb (length s.formatted) device_minimum_length
      then ok none
      else (module_size s.formatted >>= λ size. elim size [
        | none ↦ ok none
        | some n ↦ if n == 0 then ok none else describe s n
      ])

  unfoldable pub add_structure : Info → Structure → Outcome Error Info
  unfolding uint16 parse_module
  add_structure info s =
      if s.kind == 16
      then (if leb array_minimum_length (length s.formatted)
          then (uint16 s.formatted array_number_of_devices >>= λ n.
              ok (record info { slots = info.slots + n }))
          else ok info)
      else if s.kind == 17
      then (parse_module s >>= λ found. elim found [
        | none ↦ ok info
        | some m ↦ ok (record info { modules = info.modules ++ m ∷ [] })
      ])
      else ok info

  unfoldable pub add_structures : Info → List Structure → Outcome Error Info
  unfolding add_structure
  add_structures info [] = ok info
  add_structures info (s ∷ ss) = add_structure info s >>= λ next. add_structures next ss

-- One module in the totals; TotalMB is a uint64.
unfoldable pub add_module : Info → Module → Info
add_module info m = record info {
  total_mb = (info.total_mb + m.size_mb) % 2 ^ 64;
  rated_speed = if ltb info.rated_speed m.rated_speed then m.rated_speed else info.rated_speed;
  configured_speed =
      if ltb 0 m.configured_speed
        && (info.configured_speed == 0 || ltb m.configured_speed info.configured_speed)
      then m.configured_speed
      else info.configured_speed;
  kind = elim info.kind [ [] ↦ m.kind | c ∷ cs ↦ c ∷ cs ];
}

unfoldable pub add_modules : Info → List Module → Info
unfolding add_module
add_modules info [] = info
add_modules info (m ∷ ms) = add_modules (add_module info m) ms

unfoldable pub settle_slots : Info → Info
settle_slots info =
    if ltb info.slots (length info.modules)
    then record info { slots = length info.modules }
    else info

abbrev pub no_info : Info
no_info = record {
  modules = [];
  slots = 0;
  total_mb = 0;
  configured_speed = 0;
  rated_speed = 0;
  kind = [];
}

unfoldable pub total : Info → Outcome Error Info
unfolding add_modules settle_slots
total info =
    if length info.modules == 0
    then err no_memory_info
    else ok (settle_slots (add_modules info info.modules))

unfoldable pub parse : Unicode → List ℕ → Outcome Error Info
unfolding structures add_structures total
parse unicode table =
    structures table >>= λ ss. add_structures unicode no_info ss >>= λ info. total info
