-- ===== src/Predecode.antt =====
-- refemu/src/predecode.rs: decoded instructions, kept for the read-only text region.
pub mod Laws
use click_doom.Base.{
  ℕ, zero, suc, ◌+◌, ◌-◌, ◌*◌, ◌/◌, ◌%◌, Bool, not, ◌||◌, Option, none, some, List, [], ◌∷◌, ltb,
  leb, ◌==◌, if◌then◌else◌, length, get_elem?, Outcome, ok, err, panic,
}
use click_doom.Word.{wrapping_sub}
use click_doom.Memory.{Memory, read_le}
use click_doom.Decode.{Instruction, decode}

pub record Entry : Type 0 where
  pub insn : Instruction
  pub word : ℕ

pub record DecodeCache : Type 0 where
  pub base : ℕ
  pub entries : List Entry

-- One round of the loop, before the entries that follow: an index out of bounds panics.
abbrev pub push_entry : Option ℕ → Option (List Entry) → Option (List Entry)
push_entry none rest = none
push_entry (some word) none = none
push_entry (some word) (some rest) = some (record { insn = decode word; word = word } ∷ rest)

-- The entries of `count` words from byte `at` of RAM.
unfoldable pub entries_from : List ℕ → ℕ → ℕ → Option (List Entry)
entries_from ram at zero = some []
entries_from ram at (suc count) = push_entry (read_le ram at 4) (entries_from ram (at + 4) count)

abbrev pub built : ℕ → Option (List Entry) → Outcome (Unit {0}) DecodeCache
built start none = panic
built start (some entries) = ok (record { base = start; entries = entries })

-- `err` is the `None` of a region that the cache cannot cover.
unfoldable pub build : Memory → ℕ → ℕ → Outcome (Unit {0}) DecodeCache
unfolding entries_from
build m start end =
    if leb end start || not (start % 4 == 0) || not (end % 4 == 0)
    then err tt
    else if ltb start m.map.ram_base || ltb (m.map.ram_base + m.map.ram_size) end
    then err tt
    else built start (entries_from m.ram_bytes (start - m.map.ram_base) ((end - start) / 4))

unfoldable pub get : DecodeCache → ℕ → Option Entry
get cache pc =
    let delta = wrapping_sub pc cache.base in
    if delta % 4 == 0 then get_elem? cache.entries (delta / 4) else none
