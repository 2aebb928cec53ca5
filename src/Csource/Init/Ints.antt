-- ===== src/Csource/Init/Ints.antt =====
-- The rows and the struct shapes of native/src/csource/init.rs.
use click_doom.Base.{
  ℕ, zero, suc, ◌≡◌, ◌↔◌, refl, sym, ap, ap₂, ◌∙◌, true, List, [], ◌∷◌, arith, if_both, length,
  length-replicate, Outcome, ok, err, panic,
}
use click_doom.Csource.{Text, Tok, Stop, and_then}
use click_doom.Csource.Table.Laws.{text_eq_eq, text_eq_refl}
use click_doom.Csource.Init.{
  Ctx, Node, leaf, braced, Nodes, no_nodes, node, list, int_value, push_int, ints_of, ints,
}
use click_doom.Csource.Init.Structs.{names_eq, same_fields, struct_fields, check_struct}

unfoldable pub HasLength : ℕ → Outcome Stop (List ℕ) → Type 0
HasLength n (ok xs) = length xs ≡ n
HasLength n (err e) = Unit
HasLength n panic = Unit

push_int-HasLength :
    (n v : ℕ) (r : Outcome Stop (List ℕ))
    → HasLength n r
    → HasLength (suc n) (and_then r (push_int v))
unfolding HasLength
push_int-HasLength n v (ok xs) h = ap suc h
push_int-HasLength n v (err e) h = tt
push_int-HasLength n v panic h = tt

int_then-HasLength :
    (n : ℕ) (r : Outcome Stop ℕ) (rest : Outcome Stop (List ℕ))
    → HasLength n rest
    → HasLength (suc n) (and_then r (λ v. and_then rest (push_int v)))
unfolding HasLength
int_then-HasLength n (ok v) rest h = push_int-HasLength n v rest h
int_then-HasLength n (err e) rest h = tt
int_then-HasLength n panic rest h = tt

ints_of-HasLength : (ctx : Ctx) (n : ℕ) (items : Nodes) → HasLength n (ints_of ctx n items)
unfolding HasLength ints_of
ints_of-HasLength ctx zero items = refl
ints_of-HasLength ctx (suc n) no_nodes = ap suc (length-replicate n 0)
ints_of-HasLength ctx (suc n) (node i items) =
    int_then-HasLength n (int_value ctx i) (ints_of ctx n items) (ints_of-HasLength ctx n items)

-- A row that `ints` gives has the arity asked for, whether the braced list is shorter or longer.
pub ints-HasLength : (ctx : Ctx) (n : Node) (arity : ℕ) → HasLength arity (ints ctx n arity)
unfolding HasLength ints list
ints-HasLength ctx (braced line items) arity = ints_of-HasLength ctx arity items
ints-HasLength ctx (leaf line toks) arity = tt

names_eq_eq : (xs ys : List Text) → names_eq xs ys ≡ true → xs ≡ ys
names_eq_eq [] [] h = refl
names_eq_eq [] (y ∷ ys) h = absurd (cc h)
names_eq_eq (x ∷ xs) [] h = absurd (cc h)
names_eq_eq (x ∷ xs) (y ∷ ys) h =
    let rest : names_eq xs ys ≡ true = ground (arith, h) in
    ap₂ (λ a l. a ∷ l) (text_eq_eq x y (ground (arith, h))) (names_eq_eq xs ys rest)

names_eq_refl : (xs : List Text) → names_eq xs xs ≡ true
names_eq_refl [] = refl
names_eq_refl (x ∷ xs) = ground (arith, text_eq_refl x, names_eq_refl xs)

same_names : (xs ys : List Text) → xs ≡ ys → names_eq xs ys ≡ true
same_names xs ys h = ap (names_eq xs) (sym h) ∙ names_eq_refl xs

same_fields-ok :
    (ctx : Ctx) (name : Text) (fields : List Text) (r : Outcome Stop (List Text))
    → (and_then r (same_fields ctx name fields) ≡ ok tt) ↔ (r ≡ ok fields)
same_fields-ok ctx name fields (ok actual) = (
  if_both (λ r. r ≡ ok tt → ◌≡◌ {A = Outcome Stop (List Text)} (ok actual) (ok fields))
      (names_eq actual fields) (λ q _. ap ok (names_eq_eq actual fields q)) (λ _ e. absurd (cc e)),
  λ e.
      if_both (λ r. r ≡ ok tt) (names_eq actual fields) (λ _. refl)
        (λ differ. absurd (cc (differ, same_names actual fields (cc e)))),
)
same_fields-ok ctx name fields (err e) = ((λ h. absurd (cc h)), (λ h. absurd (cc h)))
same_fields-ok ctx name fields panic = ((λ h. absurd (cc h)), (λ h. absurd (cc h)))

-- `check_struct` accepts a struct exactly where its fields are those expected, in their order.
pub check_struct-ok :
    (ctx : Ctx) (toks : List Tok) (name : Text) (fields : List Text)
    → (check_struct ctx toks name fields ≡ ok tt) ↔ (struct_fields ctx toks name ≡ ok fields)
unfolding check_struct
check_struct-ok ctx toks name fields = same_fields-ok ctx name fields (struct_fields ctx toks name)
