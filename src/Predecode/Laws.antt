-- ===== src/Predecode/Laws.antt =====
-- What a cache that `build` made holds: the words of the region, decoded.
use click_doom.Base.{
  ℕ, zero, suc, ◌+◌, ◌-◌, ◌*◌, ◌/◌, ◌%◌, ◌^◌, ◌≤◌, ◌<◌, ◌≡◌, refl, sym, subst, true, not, ◌||◌,
  Option, none, some, List, ◌∷◌, arith, leb, ltb, ◌==◌, get_elem?, ok, if_both, ==_iff,
}
use click_doom.Word.{wrapping_sub}
use click_doom.Memory.{Memory, read_le}
use click_doom.Decode.{decode}
use click_doom.Predecode.{Entry, DecodeCache, push_entry, entries_from, built, build, get}

-- An entry is the word at `at`, and what the decoder makes of it.
pub record IsEntry (ram : List ℕ) (at : ℕ) (e : Entry) : Type 0 where
  pub in_ram : read_le ram at 4 ≡ some e.word
  pub decoded : e.insn ≡ decode e.word

push_entry-some :
    (w : Option ℕ) (rest : Option (List Entry)) (es : List Entry)
    → push_entry w rest ≡ some es
    → (v : ℕ) × (tail : List Entry) × (w ≡ some v)
      × (rest ≡ some tail)
      × (es ≡ record { insn = decode v; word = v } ∷ tail)
push_entry-some none rest es h = absurd (cc h)
push_entry-some (some v) none es h = absurd (cc h)
push_entry-some (some v) (some tail) es h = (v, tail, refl, refl, cc h)

some-path {ℓ} : {A : Type ℓ} {a b : A} → some a ≡ some b → a ≡ b
some-path h = cc h

entries_from-get :
    (ram : List ℕ) (at n : ℕ) (es : List Entry) (j : ℕ) (e : Entry)
    → entries_from ram at n ≡ some es
    → get_elem? es j ≡ some e
    → (j < n) × IsEntry ram (at + 4 * j) e
unfolding entries_from
entries_from-get ram at zero es j e h g =
    let none_there : none ≡ some e = subst (λ xs. get_elem? xs j ≡ some e) (sym (some-path h)) g in
    absurd (cc none_there)
entries_from-get ram at (suc n) es zero e h g =
    let (v, tail, w, rest, shape) =
      push_entry-some (read_le ram at 4) (entries_from ram (at + 4) n) es h in
    let first : record { insn = decode v; word = v } ≡ e =
      some-path (subst (λ xs. get_elem? xs 0 ≡ some e) shape g) in
    let here : IsEntry ram at e =
      subst (IsEntry ram at) first (record { in_ram = w; decoded = refl }) in
    (omega arith, subst (λ a. IsEntry ram a e) (omega arith) here)
entries_from-get ram at (suc n) es (suc j) e h g =
    let (v, tail, w, rest, shape) =
      push_entry-some (read_le ram at 4) (entries_from ram (at + 4) n) es h in
    let later =
      entries_from-get ram (at + 4) n tail j e rest
        (subst (λ xs. get_elem? xs (suc j) ≡ some e) shape g) in
    (omega (arith, later.0), subst (λ a. IsEntry ram a e) (omega arith) later.1)

-- The region of a cache: inside RAM and in whole words.
pub record Covers (m : Memory) (start end : ℕ) (k : DecodeCache) : Type 0 where
  pub above : m.map.ram_base ≤ start
  pub below : end ≤ m.map.ram_base + m.map.ram_size
  pub ordered : start < end
  pub start_aligned : start % 4 ≡ 0
  pub end_aligned : end % 4 ≡ 0
  pub base : k.base ≡ start
  pub filled :
      entries_from m.ram_bytes (start - m.map.ram_base) ((end - start) / 4) ≡ some k.entries

built-ok :
    (start : ℕ) (es : Option (List Entry)) (k : DecodeCache)
    → built start es ≡ ok k
    → (k.base ≡ start) × (es ≡ some k.entries)
built-ok start none k h = absurd (cc h)
built-ok start (some es) k h = ground arith

pub build-Covers :
    (m : Memory) (start end : ℕ) (k : DecodeCache) → build m start end ≡ ok k → Covers m start end k
unfolding build
build-Covers m start end k =
    if_both (λ r. r ≡ ok k → Covers m start end k)
      (leb end start || not (start % 4 == 0) || not (end % 4 == 0)) (λ _ h. absurd (cc h))
      λ shape.
        if_both (λ r. r ≡ ok k → Covers m start end k)
          (ltb start m.map.ram_base || ltb (m.map.ram_base + m.map.ram_size) end)
          (λ _ h. absurd (cc h))
          λ inside h.
            let (base, filled) = built-ok start _ k h in
            record {
              above = ground arith;
              below = ground arith;
              ordered = ground arith;
              start_aligned = ground arith;
              end_aligned = ground arith;
              base = base;
              filled = filled;
            }

-- Where the cache that `build` made answers, the program counter is aligned and in the region, and
-- the entry is the word that RAM holds there, with what the decoder makes of it.
pub get-IsEntry :
    (m : Memory) (start end pc : ℕ) (k : DecodeCache) (e : Entry)
    → Covers m start end k
    → end ≤ 2 ^ 32
    → pc < 2 ^ 32
    → get k pc ≡ some e
    → (start ≤ pc) × (pc + 4 ≤ end) × (pc % 4 ≡ 0) × IsEntry m.ram_bytes (pc - m.map.ram_base) e
unfolding get
get-IsEntry m start end pc k e c fits word =
    if_both (λ r. r ≡ some e → Found) (delta % 4 == 0) found (λ _ g. absurd (cc g))
  where
    delta : ℕ
    delta = wrapping_sub pc k.base

    Found : Type 0
    Found =
        (start ≤ pc) × (pc + 4 ≤ end) × (pc % 4 ≡ 0) × IsEntry m.ram_bytes (pc - m.map.ram_base) e

    found : (delta % 4 == 0) ≡ true → get_elem? k.entries (delta / 4) ≡ some e → Found
    found aligned g =
        let (below, entry) =
          entries_from-get m.ram_bytes (start - m.map.ram_base) ((end - start) / 4) k.entries
            (delta / 4) e c.filled g in
        let whole : delta % 4 ≡ 0 = (==_iff (delta % 4) 0).0 aligned in
        let place : start - m.map.ram_base + 4 * (delta / 4) ≡ pc - m.map.ram_base = omega arith in
        (omega arith, omega arith, omega arith, subst (λ a. IsEntry m.ram_bytes a e) place entry)
