-- ===== src/Csource/Expr/Grammar.antt =====
-- The grammar of constant expressions and its values, beside the parser of native/src/csource/expr.rs:
-- six levels of operators that group to the left, then signs, then numbers, names and parentheses.
use click_doom.Base.{
  ℕ, suc, ◌-◌, ◌%◌, ◌^◌, ◌≡◌, ◌≢◌, none, some, List, [], ◌∷◌, ◌++◌, ◌==◌, if◌then◌else◌, get_elem?,
}
use click_doom.Csource.{Text, ident, int, punct, Tok}
use click_doom.Csource.Table.{Symbols, get}
use click_doom.Csource.Expr.{
  Sign, minus, plus, tilde, bang, sign_of, operator_of, apply, precedence,
}

-- What a sign makes of a value; `-` is not for the smallest number.
unfoldable pub Signs : Sign → ℕ → ℕ → Type 0
Signs minus v w = (v ≢ 2 ^ 63) × (w ≡ (2 ^ 64 - v) % 2 ^ 64)
Signs plus v w = w ≡ v
Signs tilde v w = w ≡ 2 ^ 64 - 1 - v
Signs bang v w = w ≡ (if v == 0 then 1 else 0)

-- `Derives symbols level ts v`: the tokens are an expression of the level, and its value is `v`.
pub data Derives (symbols : Symbols) : ℕ → List Tok → ℕ → Type 0 where
  up :
      (level : ℕ) (ops : List Text) (ts : List Tok) (v : ℕ)
      → get_elem? precedence level ≡ some ops
      → Derives symbols (suc level) ts v
      → Derives symbols level ts v
  operation :
      (level : ℕ) (ops : List Text) (ts us : List Tok) (t : Tok) (op : Text) (v w : ℕ)
      → get_elem? precedence level ≡ some ops
      → operator_of ops t.token ≡ some op
      → Derives symbols level ts v
      → Derives symbols (suc level) us w
      → Derives symbols level (ts ++ (t ∷ us)) (apply op v w)
  signed :
      (level : ℕ) (ts : List Tok) (t : Tok) (sign : Sign) (v w : ℕ)
      → get_elem? precedence level ≡ none
      → sign_of t.token ≡ some sign
      → Derives symbols level ts v
      → Signs sign v w
      → Derives symbols level (t ∷ ts) w
  number :
      (level : ℕ) (t : Tok) (v : ℕ)
      → get_elem? precedence level ≡ none
      → t.token ≡ int v
      → Derives symbols level (t ∷ []) v
  name :
      (level : ℕ) (t : Tok) (n : Text) (v : ℕ)
      → get_elem? precedence level ≡ none
      → t.token ≡ ident n
      → get symbols n ≡ some v
      → Derives symbols level (t ∷ []) v
  parens :
      (level : ℕ) (open_paren close_paren : Tok) (ts : List Tok) (v : ℕ)
      → get_elem? precedence level ≡ none
      → open_paren.token ≡ punct (b'(' ∷ [])
      → close_paren.token ≡ punct (b')' ∷ [])
      → Derives symbols 0 ts v
      → Derives symbols level (open_paren ∷ (ts ++ (close_paren ∷ []))) v
