-- ===== src/Memory.antt =====
-- refemu/src/memory.rs: four regions, byte-addressable and little-endian, with a read-only text
-- region inside RAM.
pub mod Watch
pub mod Access
pub mod Slices
pub mod Bytes
pub mod Valid
pub mod Frame
pub mod Same
pub mod Laws
use click_doom.Base.{
  ℕ, zero, suc, ◌+◌, ◌-◌, ◌*◌, ◌/◌, ◌%◌, ◌^◌, min, Bool, true, false, not, ◌&&◌, ◌||◌, Option, none,
  some, List, [], ◌∷◌, ◌++◌, ltb, leb, ◌==◌, if◌then◌else◌, length, get_elem?, take, drop,
  replicate, Outcome, ok, err, panic,
}
use click_doom.Spec.Map.{MemoryMap, Region, ram, mmio, framebuffer, palette, classify}
use click_doom.Mmio.{MmioExit, Devices, read_device, write_device, or_panic}
use Watch.{WriteWatch, new_watch, record_store}

pub data MemFault : Type 0 where
  bad_addr : ℕ → MemFault
  misaligned : ℕ → ℕ → MemFault
  self_modify : ℕ → MemFault
  exit : ℕ → MemFault

pub data LoadError : Type 0 where
  below_ram : ℕ → ℕ → LoadError
  too_large : ℕ → ℕ → ℕ → LoadError

pub record Memory : Type 0 where
  pub map : MemoryMap
  pub ram_bytes : List ℕ
  pub framebuffer_bytes : List ℕ
  pub palette_bytes : List ℕ
  pub devices : Devices
  pub text : Option (ℕ × ℕ)
  pub watch : Option WriteWatch

unfoldable pub new_memory : MemoryMap → Devices → Memory
new_memory map devices = record {
  map = map;
  ram_bytes = replicate map.ram_size 0;
  framebuffer_bytes = replicate map.framebuffer_size 0;
  palette_bytes = replicate map.palette_size 0;
  devices = devices;
  text = none;
  watch = none;
}

unfoldable pub watch_writes : Memory → List Region → Memory
watch_writes m regions = record m { watch = some (new_watch m.map regions) }

unfoldable pub set_text_region : Memory → Option (ℕ × ℕ) → Memory
set_text_region m region = record m { text = region }

-- `xs[at..at + ys.len()].copy_from_slice(ys)` where the range is in bounds; `overlay` is at 0.
abbrev pub overlay {ℓ} : {A : Type ℓ} → List A → List A → List A
overlay xs [] = xs
overlay [] (y ∷ ys) = []
overlay (x ∷ xs) (y ∷ ys) = y ∷ overlay xs ys

abbrev pub overwrite {ℓ} : {A : Type ℓ} → List A → ℕ → List A → List A
overwrite xs zero ys = overlay xs ys
overwrite [] (suc at) ys = []
overwrite (x ∷ xs) (suc at) ys = x ∷ overwrite xs at ys

-- `none` is the panic of a range out of bounds.
unfoldable pub copy_from_slice {ℓ} : {A : Type ℓ} → List A → ℕ → List A → Option (List A)
copy_from_slice xs at ys =
    if leb (at + length ys) (length xs) then some (overwrite xs at ys) else none

unfoldable pub load_image : Memory → List ℕ → ℕ → Outcome LoadError (Unit {0}) × Memory
load_image m image load_addr =
    if ltb load_addr m.map.ram_base
    then (err (below_ram load_addr m.map.ram_base), m)
    else let at = load_addr - m.map.ram_base in
      if leb (at + length image) (length m.ram_bytes)
      then (ok tt, record m { ram_bytes = overwrite m.ram_bytes at image })
      else (err (too_large load_addr (length image) m.map.ram_size), m)

-- One round of the loop of `restore_regions`: as much of `from` as fits, then zeros.
abbrev pub restore_region : List ℕ → List ℕ → List ℕ
restore_region into from =
    let n = min (length from) (length into) in take n from ++ replicate (length into - n) 0

unfoldable pub restore_regions : Memory → List ℕ → List ℕ → List ℕ → Memory
restore_regions m ram_from framebuffer_from palette_from = record m {
  ram_bytes = restore_region m.ram_bytes ram_from;
  framebuffer_bytes = restore_region m.framebuffer_bytes framebuffer_from;
  palette_bytes = restore_region m.palette_bytes palette_from;
}

-- `check_align`, true where it fails.
abbrev pub is_misaligned : ℕ → ℕ → Bool
is_misaligned addr width = ltb 1 width && not (addr % width == 0)

-- Whether `[addr, addr + width)` touches the read-only region.
abbrev pub in_text : Option (ℕ × ℕ) → ℕ → ℕ → Bool
in_text none addr width = false
in_text (some (start, end)) addr width = not (leb (addr + width) start || leb end addr)

abbrev pub from_le_bytes : List ℕ → ℕ
from_le_bytes [] = 0
from_le_bytes (b ∷ bs) = b + 256 * from_le_bytes bs

abbrev pub to_le_bytes : ℕ → List ℕ
to_le_bytes v = v % 256 ∷ v / 256 % 256 ∷ v / 65536 % 256 ∷ v / 16777216 % 256 ∷ []

-- The bytes `xs[at]`, …, `xs[at + n - 1]`; `none` is the panic of an index out of bounds.
unfoldable pub bytes_at {ℓ} : {A : Type ℓ} → List A → ℕ → ℕ → Option (List A)
bytes_at xs at n = if leb (at + n) (length xs) then some (take n (drop at xs)) else none

abbrev pub decoded_le : Option (List ℕ) → Option ℕ
decoded_le none = none
decoded_le (some bs) = some (from_le_bytes bs)

-- Any other width is the `unreachable!`, which panics.
unfoldable pub read_le : List ℕ → ℕ → ℕ → Option ℕ
unfolding bytes_at
read_le xs offset width =
    if width == 1 || width == 2 || width == 4 then decoded_le (bytes_at xs offset width) else none

-- `&le[..width]` panics above 4.
unfoldable pub write_le : List ℕ → ℕ → ℕ → ℕ → Option (List ℕ)
unfolding copy_from_slice
write_le xs offset width value =
    if leb width 4 then copy_from_slice xs offset (take width (to_le_bytes value)) else none
