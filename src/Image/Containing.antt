-- ===== src/Image/Containing.antt =====
-- `function_containing` of refemu/src/image.rs: the lookup of the function around an address.
use click_doom.Base.{
  ℕ, ◌+◌, ◌^◌, ◌≤◌, ◌<◌, ◌≡◌, ◌≢◌, sym, ap, ◌∙◌, subst, true, ◌⊎◌, inl, inr, Option, none, some,
  List, [], ◌∷◌, arith, ltb, leb, if_both, if◌then◌else◌, refl,
}
use click_doom.Word.{wrapping_sub}
use click_doom.Image.{
  Symbol, is_function, up_to, later_or, last_function, covering, function_containing,
}
use click_doom.Image.Elf.{symbol_leb}
use click_doom.Image.Sorted.{Ordered, SymbolsInOrder}

-- A function of the table that covers the address.
abbrev pub Among : Symbol → List Symbol → Type 0
Among s [] = ⊥
Among s (t ∷ ts) = (s ≡ t) ⊎ Among s ts

Among-up_to :
    (addr : ℕ) (s : Symbol) (xs : List Symbol)
    → Among s (up_to addr xs)
    → Among s xs × (s.addr ≤ addr)
Among-up_to addr s [] h = absurd h
Among-up_to addr s (t ∷ ts) h =
    if_both (λ l. Among s l → Among s (t ∷ ts) × (s.addr ≤ addr)) (leb t.addr addr)
      (λ low a. elim a [
        | inl e ↦ (inl e, subst (λ x. x.addr ≤ addr) (sym e) (ground (arith, low)))
        | inr k ↦ (inr (Among-up_to addr s ts k).0, (Among-up_to addr s ts k).1)
      ])
      (λ _ a. absurd a) h

last_function-Among :
    (s : Symbol) (xs : List Symbol)
    → last_function xs ≡ some s
    → Among s xs × (is_function s.kind ≡ true)
last_function-Among s [] h = absurd (cc h)
last_function-Among s (t ∷ ts) h = later (last_function ts) (last_function-Among s ts) h
  where
    later :
        (o : Option Symbol)
        → (o ≡ some s → Among s ts × (is_function s.kind ≡ true))
        → later_or o (if is_function t.kind then some t else none) ≡ some s
        → Among s (t ∷ ts) × (is_function s.kind ≡ true)
    later (some x) ih h = (inr (ih h).0, (ih h).1)
    later none ih h =
        if_both (λ o. o ≡ some s → Among s (t ∷ ts) × (is_function s.kind ≡ true))
          (is_function t.kind)
          (λ f e.
            let same : t ≡ s = cc e in
            (inl (sym same), subst (λ x. is_function x.kind ≡ true) same f))
          (λ _ e. absurd (cc e)) h

-- Each symbol starts at or below all that follow it.
abbrev ByStart : List Symbol → Type 0
ByStart [] = Unit
ByStart (s ∷ ss) = ((t : Symbol) → Among t ss → s.addr ≤ t.addr) × ByStart ss

symbol_leb-addr : (s t : Symbol) → symbol_leb s t ≡ true → s.addr ≤ t.addr
symbol_leb-addr s t h = ground arith

ByStart-cons :
    (s u : Symbol) (ss : List Symbol) → s.addr ≤ u.addr → ByStart (u ∷ ss) → ByStart (s ∷ u ∷ ss)
ByStart-cons s u ss le h = ((λ t a. below t a), h)
  where
    below : (t : Symbol) → Among t (u ∷ ss) → s.addr ≤ t.addr
    below t (inl e) = subst (λ x. s.addr ≤ x.addr) (sym e) le
    below t (inr a) = omega (arith, le, h.0 t a)

InOrder-ByStart : (ss : List Symbol) → SymbolsInOrder ss → ByStart ss
unfolding Ordered
InOrder-ByStart [] h = tt
InOrder-ByStart (s ∷ []) h = ((λ t a. absurd a), tt)
InOrder-ByStart (s ∷ u ∷ ss) h =
    ByStart-cons s u ss (symbol_leb-addr s u h.0) (InOrder-ByStart (u ∷ ss) h.1)

up_to-ByStart : (addr : ℕ) (ss : List Symbol) → ByStart ss → ByStart (up_to addr ss)
up_to-ByStart addr [] h = tt
up_to-ByStart addr (s ∷ ss) h =
    if_both ByStart (leb s.addr addr)
      (λ _. ((λ t a. h.0 t (Among-up_to addr t ss a).0), up_to-ByStart addr ss h.1)) (λ _. tt)

-- A symbol that starts at or below the address is in the part that the partition keeps.
Among-below :
    (addr : ℕ) (t : Symbol) (ss : List Symbol)
    → ByStart ss
    → Among t ss
    → t.addr ≤ addr
    → Among t (up_to addr ss)
Among-below addr t [] h a le = a
Among-below addr t (s ∷ ss) h (inl e) le =
    if_both (Among t) (leb s.addr addr) (λ _. inl e)
      (λ above. absurd (ground (arith, above, le, ap (λ (x : Symbol). x.addr) e)))
Among-below addr t (s ∷ ss) h (inr a) le =
    if_both (Among t) (leb s.addr addr) (λ _. inr (Among-below addr t ss h.1 a le))
      (λ above. absurd (ground (arith, above, le, h.0 t a)))

last_function-none :
    (t : Symbol) (ss : List Symbol)
    → last_function ss ≡ none
    → Among t ss
    → is_function t.kind ≡ true
    → ⊥
last_function-none t [] e a f = a
last_function-none t (s ∷ ss) e a f = split (last_function ss) (last_function-none t ss) e a
  where
    split :
        (o : Option Symbol)
        → (o ≡ none → Among t ss → is_function t.kind ≡ true → ⊥)
        → later_or o (if is_function s.kind then some s else none) ≡ none
        → Among t (s ∷ ss)
        → ⊥
    split (some x) ih e a = cc e
    split none ih e (inr a) = ih refl a f
    split none ih e (inl same) =
        if_both (λ o. o ≢ none) (is_function s.kind) (λ _ k. cc k)
          (λ no _. cc (sym (subst (λ x. is_function x.kind ≡ true) same f) ∙ no)) e

-- The function that is found last starts at or above every other.
last_function-last :
    (s : Symbol) (ss : List Symbol)
    → ByStart ss
    → last_function ss ≡ some s
    → (t : Symbol) → Among t ss
    → is_function t.kind ≡ true
    → t.addr ≤ s.addr
last_function-last s [] h e t a f = absurd a
last_function-last s (u ∷ us) h e t a f =
    split (last_function us) refl (λ q b. last_function-last s us h.1 q t b f) e a
  where
    split :
        (o : Option Symbol)
        → last_function us ≡ o
        → (last_function us ≡ some s → Among t us → t.addr ≤ s.addr)
        → later_or o (if is_function u.kind then some u else none) ≡ some s
        → Among t (u ∷ us)
        → t.addr ≤ s.addr
    split (some x) q ih e (inr a) = ih (q ∙ e) a
    split (some x) q ih e (inl same) =
        subst (λ y. y.addr ≤ s.addr) (sym same) (h.0 s (last_function-Among s us (q ∙ e)).0)
    split none q ih e (inr a) = absurd (last_function-none t us q a f)
    split none q ih e (inl same) =
        if_both (λ o. o ≡ some s → t.addr ≤ s.addr) (is_function u.kind)
          (λ _ k.
            let here : u ≡ s = cc k in omega (arith, ap (λ (x : Symbol). x.addr) (same ∙ here)))
          (λ _ k. absurd (cc k)) e

-- The symbol is the nearest function of the table at or below the address, which is in its body.
abbrev pub Contains : List Symbol → ℕ → Symbol → Type 0
Contains symbols addr s =
    Among s symbols
    × (is_function s.kind ≡ true)
    × (s.addr ≤ addr)
    × (addr < s.addr + s.size)
    × ((t : Symbol) → Among t symbols → is_function t.kind ≡ true → t.addr ≤ addr → t.addr ≤ s.addr)

-- In a table in the order that the loader sorts it into, a symbol that `function_containing` gives is
-- a function of the table with the address in its body, and no function of the table starts between
-- the two.
pub function_containing-Contains :
    (symbols : List Symbol) (addr : ℕ) (s : Symbol)
    → SymbolsInOrder symbols
    → addr < 2 ^ 32
    → function_containing symbols addr ≡ some s
    → Contains symbols addr s
unfolding function_containing
function_containing-Contains symbols addr s order fits h =
    covered (last_function (up_to addr symbols)) refl h
  where
    sorted : ByStart symbols
    sorted = InOrder-ByStart symbols order

    covered :
        (o : Option Symbol)
        → last_function (up_to addr symbols) ≡ o
        → covering addr o ≡ some s
        → Contains symbols addr s
    covered none e h = absurd (cc h)
    covered (some t) e h =
        if_both (λ o. o ≡ some s → Contains symbols addr s) (ltb (wrapping_sub addr t.addr) t.size)
          (λ near k.
            let same : t ≡ s = cc k in
            let (among, kind) = last_function-Among s (up_to addr symbols) (e ∙ ap some same) in
            let (there, low) = Among-up_to addr s symbols among in
            let near2 : ltb (wrapping_sub addr s.addr) s.size ≡ true =
              subst (λ x. ltb (wrapping_sub addr x.addr) x.size ≡ true) same near in
            (
              there,
              kind,
              low,
              ground (arith, near2, low, fits),
              λ u a f b.
                  last_function-last s (up_to addr symbols) (up_to-ByStart addr symbols sorted)
                    (e ∙ ap some same) u (Among-below addr u symbols sorted a b) f,
            ))
          (λ _ k. absurd (cc k)) h
