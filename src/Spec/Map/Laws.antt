-- ===== src/Spec/Map/Laws.antt =====
-- What `MemoryMap::classify` finds.
use click_doom.Base.{ℕ, ◌+◌, ◌-◌, ◌≤◌, ◌<◌, ◌≡◌, none, some, arith}
use click_doom.Spec.Map.{
  MemoryMap, Region, ram, mmio, framebuffer, palette, bounds, classify, clickdoom,
}

-- The access `[addr, addr + width)` lies inside the region.
abbrev pub Holds : MemoryMap → Region → ℕ → ℕ → Type 0
Holds m region addr width =
    let (base, size) = bounds m region in (base ≤ addr) × (addr + width ≤ base + size)

-- What `classify` returns is a region that holds the whole access, with the offset from its base,
-- and the access ends within the region's size.
pub classify-Holds :
    (m : MemoryMap) (addr width : ℕ) (region : Region) (offset : ℕ)
    → classify m addr width ≡ some (region, offset)
    → Holds m region addr width
      × ((bounds m region).0 + offset ≡ addr)
      × (offset + width ≤ (bounds m region).1)
unfolding classify
classify-Holds m addr width ram offset h = ground arith
classify-Holds m addr width mmio offset h = ground arith
classify-Holds m addr width framebuffer offset h = ground arith
classify-Holds m addr width palette offset h = ground arith

-- `classify` gives nothing only when no region holds the access.
pub classify-none :
    (m : MemoryMap) (addr width : ℕ)
    → classify m addr width ≡ none
    → (region : Region) → ¬ Holds m region addr width
unfolding classify
classify-none m addr width h ram = λ k. ground arith
classify-none m addr width h mmio = λ k. ground arith
classify-none m addr width h framebuffer = λ k. ground arith
classify-none m addr width h palette = λ k. ground arith

-- On the shipped map the regions do not meet, so an access of at least one byte that a region
-- holds is classified as that region, with its offset.
pub classify-clickdoom :
    (region : Region) (addr width : ℕ)
    → 0 < width
    → Holds clickdoom region addr width
    → classify clickdoom addr width ≡ some (region, addr - (bounds clickdoom region).0)
unfolding classify clickdoom
classify-clickdoom ram addr width pos h = ground arith
classify-clickdoom mmio addr width pos h = ground arith
classify-clickdoom framebuffer addr width pos h = ground arith
classify-clickdoom palette addr width pos h = ground arith
