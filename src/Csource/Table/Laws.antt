-- ===== src/Csource/Table/Laws.antt =====
-- Equality of texts, and the lookups of native/src/csource/symbols.rs.
use click_doom.Base.{◌≡◌, refl, ap, ap₂, true, [], ◌∷◌, arith}
use click_doom.Csource.{Text}
use click_doom.Csource.Table.{text_eq}

pub text_eq_eq : (xs ys : Text) → text_eq xs ys ≡ true → xs ≡ ys
text_eq_eq [] [] h = refl
text_eq_eq [] (y ∷ ys) h = absurd (cc h)
text_eq_eq (x ∷ xs) [] h = absurd (cc h)
text_eq_eq (x ∷ xs) (y ∷ ys) h =
    let rest : text_eq xs ys ≡ true = ground (arith, h) in
    ap₂ (λ a l. a ∷ l) (ground (arith, h)) (text_eq_eq xs ys rest)

pub text_eq_refl : (xs : Text) → text_eq xs xs ≡ true
text_eq_refl [] = refl
text_eq_refl (x ∷ xs) = ground (arith, text_eq_refl xs)

pub text_eq_left : (a b c : Text) → text_eq a b ≡ true → text_eq a c ≡ text_eq b c
text_eq_left a b c h = ap (λ x. text_eq x c) (text_eq_eq a b h)

pub text_eq_right : (a b c : Text) → text_eq b c ≡ true → text_eq a b ≡ text_eq a c
text_eq_right a b c h = ap (text_eq a) (text_eq_eq b c h)
