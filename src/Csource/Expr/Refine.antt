-- ===== src/Csource/Expr/Refine.antt =====
-- `eval` of native/src/csource/expr.rs gives the value of the grammar.
use click_doom.Base.{
  ℕ, zero, suc, ◌+◌, ◌*◌, ◌≤◌, ◌<◌, ◌^◌, ◌≡◌, refl, sym, ap, ◌∙◌, subst, Option, none, some, List,
  [], ◌∷◌, ◌++◌, arith, ◌==◌, if_both, length, get_elem?, length-append, Outcome, ok, err, panic,
  append-nil, snoc-append,
}
use click_doom.Csource.{Text, Tok, Stop, stopped, no_fuel, and_then}
use click_doom.Csource.Table.{Symbols}
use click_doom.Csource.Expr.{
  Sign, minus, plus, tilde, bang, sign_of, operator_of, apply, precedence, Parsed, signed_value,
  last_line, primary, unary_step, unary, operators_step, operators, binary_step, binary,
  all_consumed, eval,
}
use click_doom.Csource.Expr.Grammar.{Signs, Derives, up, operation, signed}
use mathlib.Core.List.{append_assoc}
use click_doom.Csource.Expr.Laws.{
  index_some_lt, index_none_le, Overflows, Parses, ParsesBelow, Parses-and_then, value_at-Parses,
}

module _ (symbols : Symbols) where
  signed_value-Parses :
      (level : ℕ) (t : Tok) (sign : Sign) (ts used rest : List Tok) (v : ℕ)
      → get_elem? precedence level ≡ none
      → sign_of t.token ≡ some sign
      → ts ≡ used ++ rest
      → Derives symbols level used v
      → Parses symbols level (t ∷ ts) (signed_value sign (v, rest))
  unfolding Parses Signs
  signed_value-Parses level t plus ts used rest v l s e d =
      (t ∷ used, omega arith, ap (λ us. t ∷ us) e, signed level used t plus v v l s d refl)
  signed_value-Parses level t tilde ts used rest v l s e d =
      (t ∷ used, omega arith, ap (λ us. t ∷ us) e, signed level used t tilde v _ l s d refl)
  signed_value-Parses level t bang ts used rest v l s e d =
      (t ∷ used, omega arith, ap (λ us. t ∷ us) e, signed level used t bang v _ l s d refl)
  signed_value-Parses level t minus ts used rest v l s e d =
      if_both (Parses symbols level (t ∷ ts)) (v == 2 ^ 63)
        (λ smallest. (
          [],
          t,
          used,
          rest,
          level,
          ap (λ us. t ∷ us) e,
          s,
          subst (Derives symbols level used) (ground (arith, smallest)) d,
        ))
        (λ other. (
          t ∷ used,
          omega arith,
          ap (λ us. t ∷ us) e,
          signed level used t minus v _ l s d
              ((λ same. absurd (ground (arith, other, same))), refl),
        ))

  module _ (file : Text) (last : ℕ) where
    primary-Parses :
        (level : ℕ) (inner : List Tok → Parsed) (ts : List Tok)
        → get_elem? precedence level ≡ none
        → ParsesBelow symbols 0 (length ts) inner
        → Parses symbols level ts (primary file last symbols inner ts)
    unfolding Parses
    primary-Parses level inner [] l h = tt
    primary-Parses level inner (t ∷ ts) l h =
        value_at-Parses symbols file last level inner t t.token ts l h refl

    unary_step-Parses :
        (level : ℕ) (inner again : List Tok → Parsed) (t : Tok) (ts : List Tok) (o : Option Sign)
        → get_elem? precedence level ≡ none
        → ParsesBelow symbols 0 (suc (length ts)) inner
        → Parses symbols level ts (again ts)
        → sign_of t.token ≡ o
        → Parses symbols level (t ∷ ts) (unary_step file last symbols inner again t ts o)
    unary_step-Parses level inner again t ts none l h next e =
        primary-Parses level inner (t ∷ ts) l h
    unary_step-Parses level inner again t ts (some sign) l h next e =
        Parses-and_then symbols level level (t ∷ ts) (t ∷ []) ts (again ts) (signed_value sign) refl
          next (λ v rest used more e2 d. signed_value-Parses level t sign ts used rest v l e e2 d)

    unary-Parses :
        (n level : ℕ) (inner : List Tok → Parsed) (ts : List Tok)
        → get_elem? precedence level ≡ none
        → length ts < n
        → ParsesBelow symbols 0 (length ts) inner
        → Parses symbols level ts (unary file last symbols n inner ts)
    unfolding unary
    unary-Parses zero level inner ts l fuel h = absurd (omega arith)
    unary-Parses (suc n) level inner [] l fuel h = primary-Parses level inner [] l h
    unary-Parses (suc n) level inner (t ∷ ts) l fuel h =
        unary_step-Parses level inner (unary file last symbols n inner) t ts (sign_of t.token) l h
          (unary-Parses n level inner ts l (omega arith) (λ us below. h us (omega arith))) refl

    operators-Parses :
        (n level : ℕ) (operand : List Tok → Parsed) (ops : List Text) (ts used rest : List Tok)
        (v : ℕ)
        → get_elem? precedence level ≡ some ops
        → length rest < n
        → ParsesBelow symbols (suc level) (length ts) operand
        → 1 ≤ length used
        → ts ≡ used ++ rest
        → Derives symbols level used v
        → Parses symbols level ts (operators file last symbols n operand ops v rest)
    unfolding Parses operators
    operators-Parses zero level operand ops ts used rest v l fuel h more e d = absurd (omega arith)
    operators-Parses (suc n) level operand ops ts used [] v l fuel h more e d = (used, more, e, d)
    operators-Parses (suc n) level operand ops ts used (t ∷ rest) v l fuel h more e d =
        next (operator_of ops t.token) refl (operators-Parses n)
      where
        pre : List Tok
        pre = used ++ (t ∷ [])

        split : ts ≡ pre ++ rest
        split = e ∙ sym (snoc-append used t rest)

        sizes : length ts ≡ length used + suc (length rest)
        sizes = ap length e ∙ length-append used (t ∷ rest)

        next :
            (o : Option Text)
            → operator_of ops t.token ≡ o
            → ((level : ℕ) (operand : List Tok → Parsed) (ops : List Text) (ts used rest : List Tok)
                  (v : ℕ)
                → get_elem? precedence level ≡ some ops
                → length rest < n
                → ParsesBelow symbols (suc level) (length ts) operand
                → 1 ≤ length used
                → ts ≡ used ++ rest
                → Derives symbols level used v
                → Parses symbols level ts (operators file last symbols n operand ops v rest))
            → Parses symbols level ts (
                operators_step file last symbols operand
                  (operators file last symbols n operand ops)
                  v
                  t
                  rest
                  o)
        next none eo loop = (used, more, e, d)
        next (some op) eo loop =
            Parses-and_then symbols (suc level) level ts pre rest (operand rest)
              (λ r. operators file last symbols n operand ops (apply op v (r.0)) (r.1)) split
              (h rest (omega (arith, sizes)))
              (λ w rest2 used2 more2 e2 d2.
                let size : length rest ≡ length used2 + length rest2 =
                  ap length e2 ∙ length-append used2 rest2 in
                loop level operand ops ts (used ++ (t ∷ used2)) rest2 (apply op v w) l
                  (omega (arith, size)) h (omega (arith, length-append used (t ∷ used2)))
                  (e ∙ ap (λ us. used ++ (t ∷ us)) e2 ∙ sym (append_assoc used (t ∷ used2) rest2))
                  (operation level ops used used2 t op v w l eo d d2))

    binary_step-Parses :
        (n level : ℕ) (again : ℕ → List Tok → Parsed) (ts : List Tok) (o : Option (List Text))
        → level ≤ 6
        → 7 * length ts + 6 ≤ n + level
        → ((l : ℕ) (us : List Tok)
            → l ≤ 6
            → 7 * length us + 7 ≤ n + l
            → Parses symbols l us (again l us))
        → get_elem? precedence level ≡ o
        → Parses symbols level ts (binary_step file last symbols again level ts o)
    binary_step-Parses n level again ts none top fuel h e =
        let high : 6 ≤ level = index_none_le precedence level e in
        unary-Parses (suc (length ts)) level (again 0) ts e (omega arith)
          (λ us below. h 0 us (omega arith) (omega arith))
    binary_step-Parses n level again ts (some ops) top fuel h e =
        let low : level < 6 = index_some_lt precedence level ops e in
        Parses-and_then symbols (suc level) level ts [] ts (again (suc level) ts)
          (λ r.
            operators file last symbols (suc (length (r.1))) (again (suc level)) ops (r.0) (r.1))
          refl (h (suc level) ts (omega arith) (omega arith))
          (λ v rest used more e2 d.
            operators-Parses (suc (length rest)) level (again (suc level)) ops ts used rest v e
              (omega arith) (λ us below. h (suc level) us (omega arith) (omega arith)) more e2
              (up level ops used v e d))

    binary-Parses :
        (n level : ℕ) (ts : List Tok)
        → level ≤ 6
        → 7 * length ts + 7 ≤ n + level
        → Parses symbols level ts (binary file last symbols n level ts)
    unfolding binary
    binary-Parses zero level ts top fuel = absurd (omega arith)
    binary-Parses (suc n) level ts top fuel =
        binary_step-Parses n level (binary file last symbols n) ts (get_elem? precedence level) top
          (omega arith) (binary-Parses n) refl

-- What `eval` gives for a list of tokens: a value that the grammar derives from all of them, an error,
-- or the overflow of a `-`. The fuel does not run out.
unfoldable pub Evaluates : Symbols → List Tok → Outcome Stop ℕ → Type 0
Evaluates symbols toks (ok v) = Derives symbols 0 toks v
Evaluates symbols toks (err (stopped e)) = Unit
Evaluates symbols toks (err no_fuel) = ⊥
Evaluates symbols toks panic = Overflows symbols toks

consumed-Evaluates :
    (symbols : Symbols) (file : Text) (last : ℕ) (toks : List Tok) (r : Parsed)
    → Parses symbols 0 toks r
    → Evaluates symbols toks (and_then r (all_consumed file last symbols))
unfolding Parses Evaluates
consumed-Evaluates symbols file last toks (ok (v, [])) (used, more, e, d) =
    subst (λ us. Derives symbols 0 us v) (sym (e ∙ append-nil used)) d
consumed-Evaluates symbols file last toks (ok (v, t ∷ ts)) h = tt
consumed-Evaluates symbols file last toks (err (stopped e)) h = tt
consumed-Evaluates symbols file last toks (err no_fuel) h = h
consumed-Evaluates symbols file last toks panic h = h

-- `eval` ends on every list of tokens. A value it gives is that of a derivation of the whole list in
-- the grammar, whose operators and their levels are the code's and group to the left; it panics only
-- where a `-` stands before an operand that is the smallest number.
pub eval-Evaluates :
    (file : Text) (toks : List Tok) (symbols : Symbols)
    → Evaluates symbols toks (eval file toks symbols)
unfolding eval
eval-Evaluates file toks symbols =
    consumed-Evaluates symbols file (last_line toks) toks
      (binary file (last_line toks) symbols (7 * length toks + 7) 0 toks)
      (binary-Parses symbols file (last_line toks) (7 * length toks + 7) 0 toks (omega arith)
        (omega arith))
