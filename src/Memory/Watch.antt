-- ===== src/Memory/Watch.antt =====
-- `WriteWatch` of refemu/src/memory.rs: which words a run wrote, and how many stores landed.
-- A bitset is a list of `u64`. The store counts are not cut to `u64`: each
-- store that is counted belongs to an instruction, and the count of those is a `u64`.
use click_doom.Base.{
  ℕ, zero, suc, ◌+◌, ◌-◌, ◌/◌, ◌%◌, ◌^◌, Option, none, some, List, [], ◌∷◌, bit_or, get_or, set,
  replicate,
}
use click_doom.Spec.Map.{MemoryMap, Region, ram, mmio, framebuffer, palette, bounds}

pub record WriteWatch : Type 0 where
  pub words : List (Option (List ℕ))
  pub stores : List ℕ

abbrev pub region_index : Region → ℕ
region_index ram = 0
region_index mmio = 1
region_index framebuffer = 2
region_index palette = 3

abbrev pub div_ceil : ℕ → ℕ → ℕ
div_ceil a b = (a + b - 1) / b

-- The loop of `new` over the regions that are watched.
unfoldable pub watched : MemoryMap → List Region → List (Option (List ℕ)) → List (Option (List ℕ))
watched m [] words = words
watched m (r ∷ rs) words =
    let count = div_ceil (bounds m r).1 4 in
    watched m rs (set words (region_index r) (some (replicate (div_ceil count 64) 0)))

unfoldable pub new_watch : MemoryMap → List Region → WriteWatch
unfolding watched
new_watch m regions = record {
  words = watched m regions (replicate 4 none);
  stores = replicate 4 0;
}

-- `bits.get_mut(word / 64)`: a word past the end is passed over.
abbrev pub set_bit : List ℕ → ℕ → List ℕ
set_bit bits word = set bits (word / 64) (bit_or (get_or bits (word / 64) 0) (2 ^ (word % 64)))

-- The loop over the `n` words from `word`.
unfoldable pub set_bits : List ℕ → ℕ → ℕ → List ℕ
set_bits bits word zero = bits
set_bits bits word (suc n) = set_bits (set_bit bits word) (word + 1) n

abbrev pub recorded : Option (List ℕ) → ℕ → ℕ → Option (List ℕ)
recorded none first count = none
recorded (some bits) first count = some (set_bits bits first count)

-- `record`. A store has at least one byte.
unfoldable pub record_store : WriteWatch → Region → ℕ → ℕ → WriteWatch
unfolding set_bits
record_store w region offset width =
    let at = region_index region in
    let first = offset / 4 in
    let last = (offset + width - 1) / 4 in
    record {
      words = set w.words at (recorded (get_or w.words at none) first (last + 1 - first));
      stores = set w.stores at (get_or w.stores at 0 + 1);
    }

-- `count_ones` of a `u64`, over its bits.
unfoldable pub count_ones : ℕ → ℕ → ℕ
count_ones zero x = 0
count_ones (suc bits) x = x % 2 + count_ones bits (x / 2)

unfoldable pub total_ones : List ℕ → ℕ
unfolding count_ones
total_ones [] = 0
total_ones (x ∷ xs) = count_ones 64 x + total_ones xs

unfoldable pub words_written : WriteWatch → Region → MemoryMap → Option (ℕ × ℕ)
unfolding total_ones
words_written w region m = elim (get_or w.words (region_index region) none) [
  | none ↦ none
  | some bits ↦ some (total_ones bits, div_ceil (bounds m region).1 4)
]

abbrev pub stores_of : WriteWatch → Region → ℕ
stores_of w region = get_or w.stores (region_index region) 0
