-- ===== src/Exec/Cache.antt =====
-- The decode cache stays true while the machine runs: a store cannot change the text region.
use click_doom.Base.{
  ℕ, zero, suc, ◌+◌, ◌-◌, ◌*◌, ◌/◌, ◌^◌, ◌≤◌, ◌≡◌, ◌⊎◌, inl, inr, refl, ◌∙◌, ap, subst, Option,
  none, some, List, arith, false,
}
use click_doom.Spec.Map.{ram}
use click_doom.Spec.Map.Laws.{classify-Holds}
use click_doom.Memory.{Memory, overwrite, in_text}
use click_doom.Memory.Bytes.{IsWidth, IsWidth-le, stored, read_le-overwrite}
use click_doom.Memory.Access.{read, write}
use click_doom.Memory.Valid.{IsValid}
use click_doom.Memory.Frame.{Stores, kept, put, write-Stores}
use click_doom.Memory.Same.{SameMap, write-SameMap, read-SameStored}
use click_doom.Predecode.{DecodeCache, entries_from}
use click_doom.Predecode.Laws.{Covers}

-- The cache, if there is one, holds the decoded words of the declared text region.
pub record Matches (m : Memory) (k : DecodeCache) : Type 0 where
  pub start : ℕ
  pub end : ℕ
  pub declared : m.text ≡ some (start, end)
  pub fits : end ≤ 2 ^ 32
  pub covers : Covers m start end k

abbrev pub CacheMatches : Memory → Option DecodeCache → Type 0
CacheMatches m none = Unit
CacheMatches m (some k) = Matches m k

-- The entries do not depend on bytes outside their words.
entries_from-overwrite :
    (xs : List ℕ) (offset w v at n : ℕ)
    → w ≤ 4
    → (at + 4 * n ≤ offset) ⊎ (offset + w ≤ at)
    → entries_from (overwrite xs offset (stored w v)) at n ≡ entries_from xs at n
unfolding entries_from
entries_from-overwrite xs offset w v at zero h apart = refl
entries_from-overwrite xs offset w v at (suc n) h (inl before) = rw (
  read_le-overwrite xs offset w v at 4 h (inl (omega arith)),
  entries_from-overwrite xs offset w v (at + 4) n h (inl (omega arith)),
)
entries_from-overwrite xs offset w v at (suc n) h (inr after) = rw (
  read_le-overwrite xs offset w v at 4 h (inr after),
  entries_from-overwrite xs offset w v (at + 4) n h (inr (omega arith)),
)

-- A memory with the same map and text region, whose text words are the same.
Matches-move :
    (m m' : Memory) (k : DecodeCache)
    → SameMap m m'
    → ((start end : ℕ)
        → m.text ≡ some (start, end)
        → Covers m start end k
        → entries_from m'.ram_bytes (start - m.map.ram_base) ((end - start) / 4)
          ≡ entries_from m.ram_bytes (start - m.map.ram_base) ((end - start) / 4))
    → Matches m k
    → Matches m' k
Matches-move m m' k (map, text) words h = record {
  start = h.start;
  end = h.end;
  declared = text ∙ h.declared;
  fits = h.fits;
  covers = record {
    above = rw map h.covers.above;
    below = rw map h.covers.below;
    ordered = h.covers.ordered;
    start_aligned = h.covers.start_aligned;
    end_aligned = h.covers.end_aligned;
    base = h.covers.base;
    filled = rw map (words h.start h.end h.declared h.covers ∙ h.covers.filled);
  };
}

outside_region :
    (start end addr width : ℕ)
    → in_text (some (start, end)) addr width ≡ false
    → (addr + width ≤ start) ⊎ (end ≤ addr)
outside_region start end addr width h = ground arith

module _ (m : Memory) (addr width value icount : ℕ) (valid : IsValid m) (w : IsWidth width) where
  entries-write :
      (start end : ℕ) (k : DecodeCache) (xs : List ℕ)
      → m.text ≡ some (start, end)
      → Covers m start end k
      → Stores m addr width value ram xs
      → entries_from xs (start - m.map.ram_base) ((end - start) / 4)
        ≡ entries_from m.ram_bytes (start - m.map.ram_base) ((end - start) / 4)
  entries-write start end k xs text c (kept e) =
      ap (λ b. entries_from b (start - m.map.ram_base) ((end - start) / 4)) e
  entries-write start end k xs text c (put offset found outside e) =
      ap (λ b. entries_from b (start - m.map.ram_base) ((end - start) / 4)) e
      ∙ entries_from-overwrite m.ram_bytes offset width value (start - m.map.ram_base)
          ((end - start) / 4) (IsWidth-le width w) apart
    where
      place : m.map.ram_base + offset ≡ addr
      place = (classify-Holds m.map addr width ram offset found).1

      apart :
          (start - m.map.ram_base + 4 * ((end - start) / 4) ≤ offset)
          ⊎ (offset + width ≤ start - m.map.ram_base)
      apart = side (
          outside_region start end addr width
            (subst (λ t. in_text t addr width ≡ false) text (outside refl)))
        where
          side :
              (addr + width ≤ start) ⊎ (end ≤ addr)
              → (start - m.map.ram_base + 4 * ((end - start) / 4) ≤ offset)
                ⊎ (offset + width ≤ start - m.map.ram_base)
          side (inl before) = inr (omega (arith, place))
          side (inr after) = inl (omega (arith, place))

  pub write-CacheMatches :
      (cache : Option DecodeCache)
      → CacheMatches m cache
      → CacheMatches (write m addr width value icount).1 cache
  write-CacheMatches none h = tt
  write-CacheMatches (some k) h =
      Matches-move m (write m addr width value icount).1 k (write-SameMap m addr width value icount)
        (λ start end text c.
          entries-write start end k _ text c (write-Stores m addr width value icount valid w ram))
        h

pub read-CacheMatches :
    (m : Memory) (addr width icount : ℕ) (cache : Option DecodeCache)
    → CacheMatches m cache
    → CacheMatches (read m addr width icount).1 cache
read-CacheMatches m addr width icount none h = tt
read-CacheMatches m addr width icount (some k) h =
    let e = read-SameStored m addr width icount in
    Matches-move m (read m addr width icount).1 k (ap (λ x. x.map) e, ap (λ x. x.text) e)
      (λ start end text c.
        ap (λ x. entries_from x.ram_bytes (start - m.map.ram_base) ((end - start) / 4)) e)
      h
