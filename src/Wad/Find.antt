-- ===== src/Wad/Find.antt =====
-- What `Wad::find` of native/src/wad/mod.rs promises: the last lump of a name.
use click_doom.Base.{
  ◌≡◌, ◌≢◌, ◌∙◌, refl, sym, ap, ap₂, subst, true, false, Option, none, some, List, [], ◌∷◌, ◌++◌,
  arith, if_both, All,
}
use click_doom.Wad.{Name, Lump, bytes_eq, later_or, find}

-- Byte strings are equal exactly when the comparison says so.
bytes_eq-true : (a b : Name) → bytes_eq a b ≡ true → a ≡ b
bytes_eq-true [] [] h = refl
bytes_eq-true [] (y ∷ ys) h = absurd (cc h)
bytes_eq-true (x ∷ xs) [] h = absurd (cc h)
bytes_eq-true (x ∷ xs) (y ∷ ys) h =
    let first : x ≡ y = ground arith in
    let rest : bytes_eq xs ys ≡ true = ground arith in
    ap₂ (λ z zs. z ∷ zs) first (bytes_eq-true xs ys rest)

bytes_eq_refl : (a : Name) → bytes_eq a a ≡ true
bytes_eq_refl [] = refl
bytes_eq_refl (x ∷ xs) = ground (arith, bytes_eq_refl xs)

bytes_eq-false : (a b : Name) → bytes_eq a b ≡ false → a ≢ b
bytes_eq-false a b h e =
    let same : bytes_eq a b ≡ true = subst (λ c. bytes_eq a c ≡ true) e (bytes_eq_refl a) in
    cc (sym h ∙ same)

-- What a search gives: a lump with the lumps before and behind it, or nothing.
unfoldable pub Found : List Lump → Name → Option Lump → Type 0
Found lumps name none = All (λ l. l.name ≢ name) lumps
Found lumps name (some l) =
    (before : List Lump) × (after : List Lump) × (lumps ≡ before ++ (l ∷ after))
    × (l.name ≡ name)
    × All (λ k. k.name ≢ name) after

later_or-Found :
    (lump : Lump) (lumps : List Lump) (name : Name) (o : Option Lump)
    → Found lumps name o
    → Found (lump ∷ lumps) name (later_or lump (bytes_eq lump.name name) o)
unfolding Found
later_or-Found lump lumps name (some l) (before, after, split, same, none_later) =
    (lump ∷ before, after, ap (λ ls. lump ∷ ls) split, same, none_later)
later_or-Found lump lumps name none h =
    if_both (Found (lump ∷ lumps) name) (bytes_eq lump.name name)
      (λ e. ([], lumps, refl, bytes_eq-true lump.name name e, h))
      (λ e. (bytes_eq-false lump.name name e, h))

-- `find` gives the last lump of the name: the lump has it, and no lump behind it does; where `find`
-- gives nothing, no lump has the name.
pub find-Found : (lumps : List Lump) (name : Name) → Found lumps name (find lumps name)
unfolding find Found
find-Found [] name = tt
find-Found (lump ∷ lumps) name =
    later_or-Found lump lumps name (find lumps name) (find-Found lumps name)
