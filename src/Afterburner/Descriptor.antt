-- ===== src/Afterburner/Descriptor.antt =====
-- internal/hardware/afterburner/afterburner.go: `gpuDescriptor` against the two widths of the time stamp.
use rig_exporter.Base.{
  ℕ, ◌+◌, ◌≤◌, ◌≡◌, refl, ◌&&◌, Option, none, some, List, arith, leb, if◌then◌else◌, length, ok,
}
use rig_exporter.Base.Bytes.{uint32, word32}
use rig_exporter.Afterburner.{
  gpu_entry_min_size, max_gpu_entries, max_gpu_entry_size, next_width, gpu_descriptor,
  gpu_descriptor_at,
}

-- The card array's length and entry size, read behind a time stamp of the given width, if plausible.
abbrev cards_at : List ℕ → ℕ → ℕ → Option (ℕ × ℕ)
cards_at buf header_size time_width =
    let count = word32 buf (20 + time_width) in
    let size = word32 buf (20 + time_width + 4) in
    if leb (28 + time_width) header_size
      && leb (28 + time_width) (length buf)
      && leb 1 count
      && leb count max_gpu_entries
      && leb gpu_entry_min_size size
      && leb size max_gpu_entry_size
    then some (count, size)
    else none

abbrev first_of_two : Option (ℕ × ℕ) → Option (ℕ × ℕ) → Option (ℕ × ℕ)
first_of_two (some found) other = some found
first_of_two none other = other

abbrev pub cards : List ℕ → ℕ → Option (ℕ × ℕ)
cards buf header_size = first_of_two (cards_at buf header_size 4) (cards_at buf header_size 8)

gpu_descriptor_at_lem :
    (buf : List ℕ) (header_size time_width : ℕ)
    → gpu_descriptor_at buf header_size time_width ≡ ok (cards_at buf header_size time_width)
unfolding gpu_descriptor_at uint32
gpu_descriptor_at_lem buf header_size time_width = ground arith

next_width_lem :
    (narrow wide : Option (ℕ × ℕ)) → next_width narrow (ok wide) ≡ ok (first_of_two narrow wide)
next_width_lem (some found) wide = refl
next_width_lem none wide = refl

pub gpu_descriptor_lem :
    (buf : List ℕ) (header_size : ℕ) → gpu_descriptor buf header_size ≡ ok (cards buf header_size)
unfolding gpu_descriptor
gpu_descriptor_lem buf header_size =
    rw (gpu_descriptor_at_lem buf header_size 4, gpu_descriptor_at_lem buf header_size 8)
      (next_width_lem (cards_at buf header_size 4) (cards_at buf header_size 8))

cards_at_plausible :
    (buf : List ℕ) (header_size time_width count size : ℕ)
    → cards_at buf header_size time_width ≡ some (count, size)
    → (count ≤ max_gpu_entries) × (size ≤ max_gpu_entry_size)
cards_at_plausible buf header_size time_width count size h = ground arith

pub cards_plausible :
    (buf : List ℕ) (header_size count size : ℕ)
    → cards buf header_size ≡ some (count, size)
    → (count ≤ max_gpu_entries) × (size ≤ max_gpu_entry_size)
cards_plausible buf header_size count size h =
    first_plausible (cards_at buf header_size 4) (cards_at buf header_size 8) h
      (cards_at_plausible buf header_size 4 count size)
      (cards_at_plausible buf header_size 8 count size)
  where
    first_plausible :
        (a b : Option (ℕ × ℕ))
        → first_of_two a b ≡ some (count, size)
        → (a ≡ some (count, size) → (count ≤ max_gpu_entries) × (size ≤ max_gpu_entry_size))
        → (b ≡ some (count, size) → (count ≤ max_gpu_entries) × (size ≤ max_gpu_entry_size))
        → (count ≤ max_gpu_entries) × (size ≤ max_gpu_entry_size)
    first_plausible none b h f g = g h
    first_plausible (some x) b h f g = f h
