-- ===== src/Csource/Expr/Laws.antt =====
-- The parser of native/src/csource/expr.rs against the grammar.
use click_doom.Base.{
  ℕ, zero, suc, ◌≤◌, ◌<◌, ◌^◌, ◌≡◌, refl, sym, ap, ◌∙◌, subst, Option, none, some, List, [], ◌∷◌,
  ◌++◌, arith, if_both, if◌then◌else◌, length, get_elem?, ok, err, panic,
}
use click_doom.Csource.{
  Text, Token, ident, int, str, punct, directive, Tok, stopped, no_fuel, and_then,
}
use click_doom.Csource.Table.{Symbols, text_eq, get}
use click_doom.Csource.Table.Laws.{text_eq_eq}
use click_doom.Csource.Expr.{
  minus, sign_of, precedence, Parsed, named, close_paren, fail_at, value_at,
}
use click_doom.Csource.Expr.Grammar.{Derives, number, name, parens}
use mathlib.Core.List.{append_assoc}

pub index_some_lt :
    {A : Type 0} (xs : List A) (i : ℕ) (a : A) → get_elem? xs i ≡ some a → i < length xs
index_some_lt [] i a h = absurd (cc h)
index_some_lt (x ∷ xs) zero a h = omega arith
index_some_lt (x ∷ xs) (suc i) a h = omega (arith, index_some_lt xs i a h)

pub index_none_le : {A : Type 0} (xs : List A) (i : ℕ) → get_elem? xs i ≡ none → length xs ≤ i
index_none_le [] i h = omega arith
index_none_le (x ∷ xs) zero h = absurd (cc h)
index_none_le (x ∷ xs) (suc i) h = omega (arith, index_none_le xs i h)

module _ (symbols : Symbols) where
  -- A `-` stands before an operand whose value is the smallest number.
  abbrev pub Overflows : List Tok → Type 0
  Overflows ts =
      (pre : List Tok) × (t : Tok) × (used : List Tok) × (rest : List Tok) × (level : ℕ) × (ts
        ≡ pre ++ (t ∷ (used ++ rest)))
      × (sign_of t.token ≡ some minus)
      × Derives symbols level used (2 ^ 63)

  -- The tokens read are an expression of the level with the value given. A panic is an overflow of
  -- `-`, and the fuel does not run out.
  unfoldable pub Parses : ℕ → List Tok → Parsed → Type 0
  Parses level ts (ok (v, rest)) =
      (used : List Tok) × (1 ≤ length used) × (ts ≡ used ++ rest) × Derives symbols level used v
  Parses level ts (err (stopped e)) = Unit
  Parses level ts (err no_fuel) = ⊥
  Parses level ts panic = Overflows ts

  abbrev pub ParsesBelow : ℕ → ℕ → (List Tok → Parsed) → Type 0
  ParsesBelow level bound p = (us : List Tok) → length us < bound → Parses level us (p us)

  Overflows-append : (pre ts : List Tok) → Overflows ts → Overflows (pre ++ ts)
  Overflows-append pre ts (pre2, t, used, rest, level, e, s, d) = (
    pre ++ pre2,
    t,
    used,
    rest,
    level,
    ap (λ l. pre ++ l) e ∙ sym (append_assoc pre pre2 (t ∷ (used ++ rest))),
    s,
    d,
  )

  pub Parses-and_then :
      (level level2 : ℕ) (ts0 pre ts : List Tok) (r : Parsed) (f : ℕ × List Tok → Parsed)
      → ts0 ≡ pre ++ ts
      → Parses level ts r
      → ((v : ℕ) (rest used : List Tok)
          → 1 ≤ length used
          → ts ≡ used ++ rest
          → Derives symbols level used v
          → Parses level2 ts0 (f (v, rest)))
      → Parses level2 ts0 (and_then r f)
  unfolding Parses
  Parses-and_then level level2 ts0 pre ts (ok (v, rest)) f e (used, more, e2, d) next =
      next v rest used more e2 d
  Parses-and_then level level2 ts0 pre ts (err (stopped x)) f e h next = tt
  Parses-and_then level level2 ts0 pre ts (err no_fuel) f e h next = h
  Parses-and_then level level2 ts0 pre ts panic f e h next =
      subst Overflows (sym e) (Overflows-append pre ts h)

  module _ (file : Text) (last : ℕ) where
    named-Parses :
        (level : ℕ) (t : Tok) (ts : List Tok) (n : Text) (o : Option ℕ)
        → get_elem? precedence level ≡ none
        → t.token ≡ ident n
        → get symbols n ≡ o
        → Parses level (t ∷ ts) (named file last symbols n t.line ts o)
    unfolding Parses
    named-Parses level t ts n none l e g = tt
    named-Parses level t ts n (some v) l e g = (t ∷ [], omega arith, refl, name level t n v l e g)

    close_paren-Parses :
        (level : ℕ) (t : Tok) (used rest : List Tok) (v : ℕ)
        → get_elem? precedence level ≡ none
        → t.token ≡ punct (b'(' ∷ [])
        → Derives symbols 0 used v
        → Parses level (t ∷ (used ++ rest)) (close_paren file last symbols (v, rest))
    unfolding Parses
    close_paren-Parses level t used [] v l e d = tt
    close_paren-Parses level t used (c ∷ rest) v l e d = closing c.token refl
      where
        closing :
            (k : Token)
            → c.token ≡ k
            → Parses level (t ∷ (used ++ (c ∷ rest))) (elim k [
              | punct p ↦
                  if text_eq p (b')' ∷ [])
                  then ok (v, rest)
                  else fail_at file last symbols c "a closing parenthesis"
              | _ ↦ fail_at file last symbols c "a closing parenthesis"
            ])
        closing (ident n) s = tt
        closing (int n) s = tt
        closing (str n) s = tt
        closing (directive n) s = tt
        closing (punct p) s =
            if_both (Parses level (t ∷ (used ++ (c ∷ rest)))) (text_eq p (b')' ∷ []))
              (λ q.
                let same = text_eq_eq p (b')' ∷ []) q in
                (
                  t ∷ (used ++ (c ∷ [])),
                  omega arith,
                  ap (λ l. t ∷ l) (sym (append_assoc used (c ∷ []) rest)),
                  parens level t c used v l e (s ∙ ap punct same) d,
                ))
              (λ _. tt)

    pub value_at-Parses :
        (level : ℕ) (inner : List Tok → Parsed) (t : Tok) (k : Token) (ts : List Tok)
        → get_elem? precedence level ≡ none
        → ParsesBelow 0 (suc (length ts)) inner
        → t.token ≡ k
        → Parses level (t ∷ ts) (value_at file last symbols inner t k ts)
    unfolding Parses
    value_at-Parses level inner t (int v) ts l h e =
        (t ∷ [], omega arith, refl, number level t v l e)
    value_at-Parses level inner t (ident n) ts l h e =
        named-Parses level t ts n (get symbols n) l e refl
    value_at-Parses level inner t (str s) ts l h e = tt
    value_at-Parses level inner t (directive s) ts l h e = tt
    value_at-Parses level inner t (punct p) ts l h e =
        if_both (Parses level (t ∷ ts)) (text_eq p (b'(' ∷ []))
          (λ q.
            Parses-and_then 0 level (t ∷ ts) (t ∷ []) ts (inner ts) (close_paren file last symbols)
              refl (h ts (omega arith))
              (λ v rest used more e2 d.
                subst (λ us. Parses level (t ∷ us) (close_paren file last symbols (v, rest)))
                  (sym e2)
                  (close_paren-Parses level t used rest v l
                    (e ∙ ap punct (text_eq_eq p (b'(' ∷ []) q)) d)))
          (λ _. tt)
