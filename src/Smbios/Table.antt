-- ===== src/Smbios/Table.antt =====
-- internal/hardware/ram/smbios.go: the constants, the records of the table, and the walk over it.
use rig_exporter.Base.{
  [], ℕ, zero, suc, ◌+◌, ◌-◌, ◌&&◌, ◌||◌, List, ◌∷◌, ◌++◌, ltb, leb, ◌==◌, if◌then◌else◌, length,
  get_or, Outcome, ok, panic, ◌>>=◌,
}
use rig_exporter.Base.Bytes.{at, slice}
use rig_exporter.Base.Decimal.{itoa}
use rig_exporter.Base.Text.{codes}

abbrev pub Text : Type 0
Text = List ℕ

abbrev pub device_size : ℕ
device_size = 12

abbrev pub device_locator : ℕ
device_locator = 16

abbrev pub device_bank_locator : ℕ
device_bank_locator = 17

abbrev pub device_memory_type : ℕ
device_memory_type = 18

abbrev pub device_speed : ℕ
device_speed = 21

abbrev pub device_manufacturer : ℕ
device_manufacturer = 23

abbrev pub device_part_number : ℕ
device_part_number = 26

abbrev pub device_extended_size : ℕ
device_extended_size = 28

abbrev pub device_configured_speed : ℕ
device_configured_speed = 32

abbrev pub device_minimum_length : ℕ
device_minimum_length = 23

abbrev pub array_number_of_devices : ℕ
array_number_of_devices = 13

abbrev pub array_minimum_length : ℕ
array_minimum_length = 15

pub data Error : Type 0 where
  no_memory_info : Error

pub record Module : Type 0 where
  pub locator : Text
  pub bank : Text
  pub size_mb : ℕ
  pub kind : Text
  pub configured_speed : ℕ
  pub rated_speed : ℕ
  pub manufacturer : Text
  pub part_number : Text

pub record Info : Type 0 where
  pub modules : List Module
  pub slots : ℕ
  pub total_mb : ℕ
  pub configured_speed : ℕ
  pub rated_speed : ℕ
  pub kind : Text

pub record Structure : Type 0 where
  pub kind : ℕ
  pub formatted : List ℕ
  pub strings : List Text

abbrev pub memory_types : List (ℕ × Text)
memory_types =
    (15, codes "SDRAM")
    ∷ (18, codes "DDR")
    ∷ (19, codes "DDR2")
    ∷ (24, codes "DDR3")
    ∷ (26, codes "DDR4")
    ∷ (27, codes "LPDDR")
    ∷ (28, codes "LPDDR2")
    ∷ (29, codes "LPDDR3")
    ∷ (30, codes "LPDDR4")
    ∷ (34, codes "DDR5")
    ∷ (35, codes "LPDDR5")
    ∷ []

-- The first name listed for a type, or the type's number.
unfoldable pub type_name : List (ℕ × Text) → ℕ → Text
type_name [] value = codes "Type " ++ itoa value
type_name ((key, name) ∷ rest) value = if key == value then name else type_name rest value

unfoldable pub memory_type_name : ℕ → Text
unfolding type_name
memory_type_name = type_name memory_types

-- The bank and the locator, which together tell two slots apart.
unfoldable pub slot : Module → Text
slot m =
    if ltb 0 (length m.bank) && ltb 0 (length m.locator)
    then m.bank ++ codes " " ++ m.locator
    else if ltb 0 (length m.locator)
    then m.locator
    else m.bank

-- A string reference; index 0 means no string.
unfoldable pub text : Structure → ℕ → Text
text s index =
    if index == 0 || ltb (length s.strings) index then [] else get_or s.strings (index - 1) []

-- The strings from `i` on, the current one from `start`, and the offset behind them.
unfoldable pub read_from : ℕ → List ℕ → ℕ → ℕ → Outcome Error (List Text × ℕ)
unfolding at slice
read_from zero table start i = panic
read_from (suc fuel) table start i =
    let same = read_from fuel table start (i + 1) in
    let another = read_from fuel table (i + 1) (i + 1) in
    if ltb i (length table)
    then (at table i >>= λ c.
        if c == 0
        then (slice table start i >>= λ found.
            if ltb (i + 1) (length table)
            then (at table (i + 1) >>= λ d.
                if d == 0
                then ok (found ∷ [], i + 2)
                else (another >>= λ (rest, next). ok (found ∷ rest, next)))
            else (another >>= λ (rest, next). ok (found ∷ rest, next)))
        else same)
    else ok ([], length table)

unfoldable pub read_strings : List ℕ → ℕ → Outcome Error (List Text × ℕ)
unfolding read_from at
read_strings table offset =
    let strings = read_from (length table + 1) table offset offset in
    if ltb (offset + 1) (length table)
    then (at table offset >>= λ c.
        at table (offset + 1) >>= λ d. if c == 0 && d == 0 then ok ([], offset + 2) else strings)
    else strings

-- `length` is the second byte of the record; an end-of-table record or one that does not fit ends the walk.
unfoldable pub structures_from : ℕ → List ℕ → ℕ → Outcome Error (List Structure)
unfolding at slice read_strings
structures_from zero table offset = panic
structures_from (suc fuel) table offset =
    if leb (offset + 4) (length table)
    then (at table offset >>= λ kind. at table (offset + 1) >>= λ len.
        if ltb len 4 || ltb (length table) (offset + len)
        then ok []
        else if kind == 127
        then ok []
        else (slice table offset (offset + len) >>= λ formatted.
            read_strings table (offset + len) >>= λ (strings, next).
            (let s : Structure = record { kind = kind; formatted = formatted; strings = strings } in
              if leb next offset
              then ok (s ∷ [])
              else (structures_from fuel table next >>= λ rest. ok (s ∷ rest)))))
    else ok []

unfoldable pub structures : List ℕ → Outcome Error (List Structure)
unfolding structures_from
structures table = structures_from (length table + 1) table 0
