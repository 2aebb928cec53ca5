-- ===== src/Spec/Map.antt =====
-- spec/src/map.rs: the memory map, the device registers' offsets and the classification of an
-- access. Addresses are `u32`; the sums of the source are taken in `u64`, where they do not wrap.
pub mod Laws
use click_doom.Base.{
  ℕ, ◌+◌, ◌-◌, ◌*◌, ◌^◌, Bool, true, false, ◌&&◌, Option, none, some, List, [], ◌∷◌, bit_or, leb,
  if◌then◌else◌,
}
use click_doom.Word.{from_bool, ◌<<<◌}

abbrev pub ram_base : ℕ
ram_base = 0x8000_0000

abbrev pub ram_size : ℕ
ram_size = 24 * 1024 * 1024

abbrev pub mmio_base : ℕ
mmio_base = 0x1000_0000

abbrev pub mmio_size : ℕ
mmio_size = 4 * 1024

abbrev pub framebuffer_base : ℕ
framebuffer_base = 0x1100_0000

abbrev pub framebuffer_size : ℕ
framebuffer_size = 64_000

abbrev pub palette_base : ℕ
palette_base = 0x1101_0000

abbrev pub palette_size : ℕ
palette_size = 768

abbrev pub ipms_default : ℕ
ipms_default = 10_000

-- The offsets of `mod mmio`.
abbrev pub ticks_ms : ℕ
ticks_ms = 0x00

abbrev pub keyq : ℕ
keyq = 0x04

abbrev pub exit : ℕ
exit = 0x08

abbrev pub putchar : ℕ
putchar = 0x0C

abbrev pub frame_commit : ℕ
frame_commit = 0x10

-- A key event as `KEYQ` returns it.
abbrev pub key_event : Bool → ℕ → ℕ
key_event pressed doomkey = bit_or (from_bool pressed <<< 8) doomkey

pub data Region : Type 0 where
  ram mmio framebuffer palette : Region

-- The bases and sizes that `MemoryMap::bounds` pairs.
pub record MemoryMap : Type 0 where
  pub ram_base : ℕ
  pub ram_size : ℕ
  pub mmio_base : ℕ
  pub mmio_size : ℕ
  pub framebuffer_base : ℕ
  pub framebuffer_size : ℕ
  pub palette_base : ℕ
  pub palette_size : ℕ

unfoldable pub clickdoom : MemoryMap
clickdoom = record {
  ram_base = ram_base;
  ram_size = ram_size;
  mmio_base = mmio_base;
  mmio_size = mmio_size;
  framebuffer_base = framebuffer_base;
  framebuffer_size = framebuffer_size;
  palette_base = palette_base;
  palette_size = palette_size;
}

unfoldable pub with_ram_size : MemoryMap → ℕ → MemoryMap
with_ram_size m n = record m { ram_size = n }

abbrev pub bounds : MemoryMap → Region → ℕ × ℕ
bounds m ram = (m.ram_base, m.ram_size)
bounds m mmio = (m.mmio_base, m.mmio_size)
bounds m framebuffer = (m.framebuffer_base, m.framebuffer_size)
bounds m palette = (m.palette_base, m.palette_size)

abbrev pub regions : List Region
regions = ram ∷ mmio ∷ framebuffer ∷ palette ∷ []

-- The loop of `classify`: the first region that holds `[addr, addr + width)`, and the offset.
unfoldable pub classify_in : MemoryMap → List Region → ℕ → ℕ → Option (Region × ℕ)
classify_in m [] addr width = none
classify_in m (region ∷ rest) addr width =
    let (base, size) = bounds m region in
    let later = classify_in m rest addr width in
    if leb base addr && leb (addr + width) (base + size) then some (region, addr - base) else later

unfoldable pub classify : MemoryMap → ℕ → ℕ → Option (Region × ℕ)
unfolding classify_in
classify m addr width = classify_in m regions addr width
