-- ===== src/Csource/Expr.antt =====
-- native/src/csource/expr.rs: the evaluation of a constant expression. An `i64` is its bit pattern. The
-- parser's cursor is the list of the tokens left. `-` of the smallest number panics, as it does where
-- the build checks for overflow. The loops take fuel: `eval` gives seven for each token, and seven.
pub mod Grammar
pub mod Laws
pub mod Refine
use click_doom.Base.{
  ℕ, zero, suc, ◌+◌, ◌-◌, ◌*◌, ◌/◌, ◌%◌, ◌^◌, Bool, true, false, ◌&&◌, ◌||◌, Option, none, some,
  List, [], ◌∷◌, bit_and, bit_or, bit_xor, ltb, ◌==◌, if◌then◌else◌, length, get_elem?, Outcome, ok,
  err, panic,
}
use click_doom.Base.Int.{ℤ, pos, negsuc, shr_ℤ, div_ℤ, rem_ℤ}
use click_doom.Csource.{
  Text, Token, ident, int, str, punct, directive, Tok, found, Found, end_of_expression, CError,
  unknown_symbol, expected, ambiguous, Stop, stopped, no_fuel, and_then,
}
use click_doom.Csource.Table.{Symbols, text_eq, contains, get, is_ambiguous}
use Prim.Native.String.{String}

abbrev pub signed64 : ℕ → ℤ
signed64 w = if ltb w (2 ^ 63) then pos w else negsuc (2 ^ 64 - 1 - w)

abbrev pub to_u64 : ℤ → ℕ
to_u64 (pos n) = n % 2 ^ 64
to_u64 (negsuc n) = 2 ^ 64 - 1 - n % 2 ^ 64

-- `checked_div` and `checked_rem`, with 0 for `none`.
abbrev pub has_no_quotient : ℕ → ℕ → Bool
has_no_quotient left right = right == 0 || left == 2 ^ 63 && right == 2 ^ 64 - 1

abbrev pub quotient : ℕ → ℕ → ℕ
quotient left right =
    if has_no_quotient left right then 0 else to_u64 (div_ℤ (signed64 left) (signed64 right))

abbrev pub remainder : ℕ → ℕ → ℕ
remainder left right =
    if has_no_quotient left right then 0 else to_u64 (rem_ℤ (signed64 left) (signed64 right))

-- `wrapping_shl` and `wrapping_shr` take the amount, a `u32`, modulo 64.
abbrev pub shift_amount : ℕ → ℕ
shift_amount right = right % 2 ^ 32 % 64

unfoldable pub apply : Text → ℕ → ℕ → ℕ
apply op left right =
    if text_eq op (b'|' ∷ [])
    then bit_or left right
    else if text_eq op (b'^' ∷ [])
    then bit_xor left right
    else if text_eq op (b'&' ∷ [])
    then bit_and left right
    else if text_eq op (b'<' ∷ b'<' ∷ [])
    then left * 2 ^ shift_amount right % 2 ^ 64
    else if text_eq op (b'>' ∷ b'>' ∷ [])
    then to_u64 (shr_ℤ (signed64 left) (shift_amount right))
    else if text_eq op (b'+' ∷ [])
    then (left + right) % 2 ^ 64
    else if text_eq op (b'-' ∷ [])
    then (left + 2 ^ 64 - right) % 2 ^ 64
    else if text_eq op (b'*' ∷ [])
    then left * right % 2 ^ 64
    else if text_eq op (b'/' ∷ [])
    then quotient left right
    else remainder left right

abbrev pub precedence : List (List Text)
precedence =
    ((b'|' ∷ []) ∷ [])
    ∷ ((b'^' ∷ []) ∷ [])
    ∷ ((b'&' ∷ []) ∷ [])
    ∷ ((b'<' ∷ b'<' ∷ []) ∷ (b'>' ∷ b'>' ∷ []) ∷ [])
    ∷ ((b'+' ∷ []) ∷ (b'-' ∷ []) ∷ [])
    ∷ ((b'*' ∷ []) ∷ (b'/' ∷ []) ∷ (b'%' ∷ []) ∷ [])
    ∷ []

-- A value and the tokens left after it.
abbrev pub Parsed : Type 0
Parsed = Outcome Stop (ℕ × List Tok)

abbrev pub negate : ℕ → List Tok → Parsed
negate v ts = if v == 2 ^ 63 then panic else ok ((2 ^ 64 - v) % 2 ^ 64, ts)

-- The sign of a `-`, `+`, `~` or `!`.
pub data Sign : Type 0 where
  minus plus tilde bang : Sign

abbrev pub sign_of_text : Text → Option Sign
sign_of_text p =
    if text_eq p (b'-' ∷ [])
    then some minus
    else if text_eq p (b'+' ∷ [])
    then some plus
    else if text_eq p (b'~' ∷ [])
    then some tilde
    else if text_eq p (b'!' ∷ [])
    then some bang
    else none

abbrev pub sign_of : Token → Option Sign
sign_of (punct p) = sign_of_text p
sign_of _ = none

abbrev pub signed_value : Sign → ℕ × List Tok → Parsed
signed_value minus (v, ts) = negate v ts
signed_value plus (v, ts) = ok (v, ts)
signed_value tilde (v, ts) = ok (2 ^ 64 - 1 - v, ts)
signed_value bang (v, ts) = ok (if v == 0 then 1 else 0, ts)

-- The operator at the cursor, if it is one of the level's.
abbrev pub operator_of : List Text → Token → Option Text
operator_of ops (punct p) = if contains p ops then some p else none
operator_of ops _ = none

-- `line` past the last token: that token's, or 0 where there is none.
abbrev pub last_line : List Tok → ℕ
last_line [] = 0
last_line (t ∷ []) = t.line
last_line (t ∷ u ∷ us) = last_line (u ∷ us)

module _ (file : Text) (last : ℕ) (symbols : Symbols) where
  abbrev pub fail_at : Tok → String → Parsed
  fail_at t want = err (stopped (expected file t.line want (found t.token)))

  abbrev pub fail_end : String → Parsed
  fail_end want = err (stopped (expected file last want end_of_expression))

  abbrev pub named : Text → ℕ → List Tok → Option ℕ → Parsed
  named name line ts (some v) = ok (v, ts)
  named name line ts none = err (
      stopped (
        if is_ambiguous symbols name
        then ambiguous file line name
        else unknown_symbol file line name))

  abbrev pub close_paren : ℕ × List Tok → Parsed
  close_paren (v, []) = fail_end "a closing parenthesis"
  close_paren (v, t ∷ ts) = elim (t.token) [
    | punct p ↦ if text_eq p (b')' ∷ []) then ok (v, ts) else fail_at t "a closing parenthesis"
    | _ ↦ fail_at t "a closing parenthesis"
  ]

  abbrev pub value_at : (List Tok → Parsed) → Tok → Token → List Tok → Parsed
  value_at inner t (int v) ts = ok (v, ts)
  value_at inner t (ident name) ts = named name t.line ts (get symbols name)
  value_at inner t (punct p) ts =
      if text_eq p (b'(' ∷ []) then and_then (inner ts) close_paren else fail_at t "a value"
  value_at inner t (str s) ts = fail_at t "a value"
  value_at inner t (directive s) ts = fail_at t "a value"

  abbrev pub primary : (List Tok → Parsed) → List Tok → Parsed
  primary inner [] = fail_end "a value"
  primary inner (t ∷ ts) = value_at inner t t.token ts

  abbrev pub unary_step :
      (List Tok → Parsed) → (List Tok → Parsed) → Tok → List Tok → Option Sign → Parsed
  unary_step inner again t ts none = primary inner (t ∷ ts)
  unary_step inner again t ts (some sign) = and_then (again ts) (signed_value sign)

  unfoldable pub unary : ℕ → (List Tok → Parsed) → List Tok → Parsed
  unary zero inner ts = err no_fuel
  unary (suc n) inner [] = primary inner []
  unary (suc n) inner (t ∷ ts) = unary_step inner (unary n inner) t ts (sign_of t.token)

  -- The `while` of `binary`, at the level whose operands `operand` reads.
  abbrev pub operators_step :
      (List Tok → Parsed) → (ℕ → List Tok → Parsed) → ℕ → Tok → List Tok → Option Text → Parsed
  operators_step operand again left t ts none = ok (left, t ∷ ts)
  operators_step operand again left t ts (some op) =
      and_then (operand ts) (λ r. again (apply op left (r.0)) (r.1))

  unfoldable pub operators : ℕ → (List Tok → Parsed) → List Text → ℕ → List Tok → Parsed
  operators zero operand ops left ts = err no_fuel
  operators (suc n) operand ops left [] = ok (left, [])
  operators (suc n) operand ops left (t ∷ ts) =
      operators_step operand (operators n operand ops) left t ts (operator_of ops t.token)

  abbrev pub binary_step : (ℕ → List Tok → Parsed) → ℕ → List Tok → Option (List Text) → Parsed
  binary_step again level ts none = unary (suc (length ts)) (again 0) ts
  binary_step again level ts (some ops) =
      and_then (again (suc level) ts)
        (λ r. operators (suc (length (r.1))) (again (suc level)) ops (r.0) (r.1))

  unfoldable pub binary : ℕ → ℕ → List Tok → Parsed
  binary zero level ts = err no_fuel
  binary (suc n) level ts = binary_step (binary n) level ts (get_elem? precedence level)

  abbrev pub all_consumed : ℕ × List Tok → Outcome Stop ℕ
  all_consumed (v, []) = ok v
  all_consumed (v, t ∷ ts) =
      err (stopped (expected file t.line "the end of the expression" (found t.token)))

unfoldable pub eval : Text → List Tok → Symbols → Outcome Stop ℕ
eval file toks symbols =
    and_then (binary file (last_line toks) symbols (7 * length toks + 7) 0 toks)
      (all_consumed file (last_line toks) symbols)
