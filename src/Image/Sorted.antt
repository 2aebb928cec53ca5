-- ===== src/Image/Sorted.antt =====
-- The sorts of refemu/src/image.rs put their lists in order and keep what holds of each element.
use click_doom.Base.{ℕ, ◌≤◌, ◌≡◌, ◌≢◌, refl, true, false, List, [], ◌∷◌, arith, leb, if_both, All}
use click_doom.Image.{Segment, Symbol}
use click_doom.Image.Elf.{
  insert_segment, sort_segments, bytes_leb, symbol_leb, insert_symbol, sort_symbols,
}

-- A list in which each element is related to the next.
unfoldable pub Ordered : {A : Type 0} → (A → A → Type 0) → List A → Type 0
Ordered R [] = Unit
Ordered R (x ∷ []) = Unit
Ordered R (x ∷ y ∷ ys) = R x y × Ordered R (y ∷ ys)

abbrev pub ByAddress : List Segment → Type 0
ByAddress = Ordered (λ s t. s.vaddr ≤ t.vaddr)

abbrev pub SymbolsInOrder : List Symbol → Type 0
SymbolsInOrder = Ordered (λ s t. symbol_leb s t ≡ true)

-- An insertion below `s`, where `s` is below what is inserted.
insert_segment_below :
    (s x : Segment) (xs : List Segment)
    → s.vaddr ≤ x.vaddr
    → ByAddress (s ∷ xs)
    → ByAddress (insert_segment x xs)
    → ByAddress (s ∷ insert_segment x xs)
unfolding Ordered
insert_segment_below s x [] le h i = (le, tt)
insert_segment_below s x (t ∷ ts) le h i =
    if_both (λ l. ByAddress l → ByAddress (s ∷ l)) (leb x.vaddr t.vaddr) (λ _ j. (le, j))
      (λ _ j. (h.0, j)) i

ByAddress-tail : (s : Segment) (xs : List Segment) → ByAddress (s ∷ xs) → ByAddress xs
unfolding Ordered
ByAddress-tail s [] h = tt
ByAddress-tail s (t ∷ ts) h = h.1

insert_segment-ByAddress :
    (x : Segment) (xs : List Segment) → ByAddress xs → ByAddress (insert_segment x xs)
unfolding Ordered
insert_segment-ByAddress x [] h = tt
insert_segment-ByAddress x (t ∷ ts) h =
    let rest = insert_segment-ByAddress x ts (ByAddress-tail t ts h) in
    if_both ByAddress (leb x.vaddr t.vaddr) (λ below. (ground (arith, below), h))
      (λ above. insert_segment_below t x ts (ground (arith, above)) h rest)

pub sort_segments-ByAddress : (xs : List Segment) → ByAddress (sort_segments xs)
unfolding Ordered
sort_segments-ByAddress [] = tt
sort_segments-ByAddress (x ∷ xs) =
    insert_segment-ByAddress x (sort_segments xs) (sort_segments-ByAddress xs)

insert_segment-All :
    (P : Segment → Type 0) (x : Segment) (xs : List Segment)
    → P x
    → All P xs
    → All P (insert_segment x xs)
insert_segment-All P x [] p h = (p, tt)
insert_segment-All P x (t ∷ ts) p h =
    if_both (All P) (leb x.vaddr t.vaddr) (λ _. (p, h))
      (λ _. (h.0, insert_segment-All P x ts p h.1))

pub sort_segments-All :
    (P : Segment → Type 0) (xs : List Segment) → All P xs → All P (sort_segments xs)
sort_segments-All P [] h = tt
sort_segments-All P (x ∷ xs) h =
    insert_segment-All P x (sort_segments xs) h.0 (sort_segments-All P xs h.1)

insert_segment-cons : (x : Segment) (xs : List Segment) → insert_segment x xs ≢ []
insert_segment-cons x [] e = cc e
insert_segment-cons x (t ∷ ts) e =
    if_both (λ l. l ≢ []) (leb x.vaddr t.vaddr) (λ _ k. cc k) (λ _ k. cc k) e

pub sort_segments-cons : (x : Segment) (xs : List Segment) → sort_segments (x ∷ xs) ≢ []
sort_segments-cons x xs = insert_segment-cons x (sort_segments xs)

bytes_leb-total : (xs ys : List ℕ) → bytes_leb xs ys ≡ false → bytes_leb ys xs ≡ true
bytes_leb-total [] ys h = absurd (cc h)
bytes_leb-total (x ∷ xs) [] h = refl
bytes_leb-total (x ∷ xs) (y ∷ ys) h = ground (arith, h, bytes_leb-total xs ys)

symbol_leb-total : (s t : Symbol) → symbol_leb s t ≡ false → symbol_leb t s ≡ true
symbol_leb-total s t h = ground (arith, h, bytes_leb-total s.name t.name)

insert_symbol_below :
    (s x : Symbol) (xs : List Symbol)
    → symbol_leb s x ≡ true
    → SymbolsInOrder (s ∷ xs)
    → SymbolsInOrder (insert_symbol x xs)
    → SymbolsInOrder (s ∷ insert_symbol x xs)
unfolding Ordered
insert_symbol_below s x [] le h i = (le, tt)
insert_symbol_below s x (t ∷ ts) le h i =
    if_both (λ l. SymbolsInOrder l → SymbolsInOrder (s ∷ l)) (symbol_leb x t) (λ _ j. (le, j))
      (λ _ j. (h.0, j)) i

SymbolsInOrder-tail : (s : Symbol) (xs : List Symbol) → SymbolsInOrder (s ∷ xs) → SymbolsInOrder xs
unfolding Ordered
SymbolsInOrder-tail s [] h = tt
SymbolsInOrder-tail s (t ∷ ts) h = h.1

insert_symbol-SymbolsInOrder :
    (x : Symbol) (xs : List Symbol) → SymbolsInOrder xs → SymbolsInOrder (insert_symbol x xs)
unfolding Ordered
insert_symbol-SymbolsInOrder x [] h = tt
insert_symbol-SymbolsInOrder x (t ∷ ts) h =
    let rest = insert_symbol-SymbolsInOrder x ts (SymbolsInOrder-tail t ts h) in
    if_both SymbolsInOrder (symbol_leb x t) (λ below. (below, h))
      (λ above. insert_symbol_below t x ts (symbol_leb-total x t above) h rest)

pub sort_symbols-SymbolsInOrder : (xs : List Symbol) → SymbolsInOrder (sort_symbols xs)
unfolding Ordered
sort_symbols-SymbolsInOrder [] = tt
sort_symbols-SymbolsInOrder (x ∷ xs) =
    insert_symbol-SymbolsInOrder x (sort_symbols xs) (sort_symbols-SymbolsInOrder xs)
