-- ===== src/Csource/Symbols.antt =====
-- native/src/csource/symbols.rs: collecting definitions and evaluating them. `absorb` and its loops take
-- the number of tokens left, and one, as fuel; `resolve` one more than the definitions that wait. The
-- state that an error leaves behind is not kept. The depth of brackets is not cut to 32 bits, and one
-- past the largest number panics, as it does where the build checks for overflow.
pub mod Laws
pub mod Absorbed
pub mod Enums
pub mod Resolve
use click_doom.Base.{
  ℕ, zero, suc, ◌+◌, ◌-◌, ◌%◌, ◌^◌, Bool, true, false, not, ◌&&◌, ◌||◌, Option, none, some, List,
  [], ◌∷◌, ◌++◌, ltb, ◌==◌, if◌then◌else◌, length, take, drop, Outcome, ok, err, panic,
}
use click_doom.Base.Int.{ℤ, pos, negsuc, ◌+ℤ◌}
use click_doom.Csource.{
  Text, Token, ident, int, str, punct, directive, Tok, Stop, stopped, no_fuel, and_then,
}
use click_doom.Csource.Chars.{span, is_name_char, strip_prefix, starts_with, trim, trim_start}
use click_doom.Csource.Lex.{lex}
use click_doom.Csource.Table.{
  Pending, define, value, after, first, Symbols, text_eq, contains, get, is_ambiguous,
}
use click_doom.Csource.Expr.{eval}

-- `Symbols::new`: only `NULL`.
unfoldable pub new : Symbols
new = record { values = ((b'N' ∷ b'U' ∷ b'L' ∷ b'L' ∷ []), 0) ∷ []; ambiguous = []; pending = [] }

abbrev pub push_pending : Text → Pending → Symbols → Symbols
push_pending name definition s = record {
  values = s.values;
  ambiguous = s.ambiguous;
  pending = s.pending ++ ((name, definition) ∷ []);
}

abbrev pub is_empty : Text → Bool
is_empty [] = true
is_empty (x ∷ xs) = false

-- `define `, with its space.
abbrev pub define_word : Text
define_word = b'd' ∷ b'e' ∷ b'f' ∷ b'i' ∷ b'n' ∷ b'e' ∷ b' ' ∷ []

abbrev pub push_define : Text → Text → Text → Symbols → Symbols
push_define file name tail s =
    if is_empty name || starts_with (b'(' ∷ []) tail || is_empty (trim tail)
    then s
    else push_pending name (define file (trim tail)) s

abbrev pub define_line : Text → Option Text → Symbols → Symbols
define_line file none s = s
define_line file (some rest) s =
    let body = trim_start rest in
    let n = span is_name_char body in push_define file (take n body) (drop n body) s

unfoldable pub absorb_define : Text → Text → Symbols → Symbols
absorb_define file body s = define_line file (strip_prefix define_word body) s

-- `skip_to_separator`, as the number of tokens it steps over.
abbrev pub opens : Token → Bool
opens (punct p) = text_eq p (b'(' ∷ []) || text_eq p (b'[' ∷ []) || text_eq p (b'{' ∷ [])
opens _ = false

abbrev pub closes : Token → Bool
closes (punct p) = text_eq p (b')' ∷ []) || text_eq p (b']' ∷ [])
closes _ = false

abbrev pub is_punct : Text → Token → Bool
is_punct sign (punct p) = text_eq p sign
is_punct sign _ = false

abbrev pub is_zero : ℤ → Bool
is_zero (pos n) = n == 0
is_zero (negsuc n) = false

abbrev pub skip_to_separator : ℤ → List Tok → ℕ
skip_to_separator depth [] = 0
skip_to_separator depth (t ∷ ts) =
    let deeper = skip_to_separator (depth +ℤ pos 1) ts in
    let shallower = skip_to_separator (depth +ℤ negsuc 0) ts in
    let level = skip_to_separator depth ts in
    if opens t.token
    then suc deeper
    else if closes t.token
    then suc shallower
    else if is_punct (b'}' ∷ []) t.token && is_zero depth
    then 0
    else if is_punct (b'}' ∷ []) t.token
    then suc shallower
    else if is_punct (b',' ∷ []) t.token && is_zero depth
    then 0
    else suc level

abbrev pub next_is : Text → List Tok → Bool
next_is sign [] = false
next_is sign (t ∷ ts) = is_punct sign t.token

-- The enumerators after the brace: each pushes its definition. The slice of the tokens of a value
-- panics past their end.
abbrev pub after_previous : Option Text → Pending
after_previous none = first
after_previous (some before) = after before

abbrev pub skip_comma : List Tok → List Tok
skip_comma ts = if next_is (b',' ∷ []) ts then drop 1 ts else ts

abbrev pub name_of : Token → Option Text
name_of (ident n) = some n
name_of _ = none

abbrev pub enumerator :
    Text
    → Text
    → Option Text
    → Symbols
    → List Tok
    → (Option Text → Symbols → List Tok → Outcome Stop (Symbols × List Tok))
    → Outcome Stop (Symbols × List Tok)
enumerator file n previous s ts again =
    let toks = drop 1 ts in
    let k = skip_to_separator (pos 0) toks in
    if next_is (b'=' ∷ []) ts
    then if ltb (length toks) k
      then panic
      else again (some n) (push_pending n (value file (take k toks)) s) (skip_comma (drop k toks))
    else again (some n) (push_pending n (after_previous previous) s) (skip_comma ts)

abbrev pub enumerator_step :
    Text
    → Option Text
    → Symbols
    → Option Text
    → List Tok
    → (Option Text → Symbols → List Tok → Outcome Stop (Symbols × List Tok))
    → Outcome Stop (Symbols × List Tok)
enumerator_step file previous s none ts again = ok (s, ts)
enumerator_step file previous s (some n) ts again = enumerator file n previous s ts again

unfoldable pub enumerators :
    ℕ → Text → Option Text → Symbols → List Tok → Outcome Stop (Symbols × List Tok)
enumerators zero file previous s ts = err no_fuel
enumerators (suc n) file previous s [] = ok (s, [])
enumerators (suc n) file previous s (t ∷ ts) =
    enumerator_step file previous s (name_of t.token) ts (enumerators n file)

abbrev pub skip_tag : List Tok → List Tok
skip_tag [] = []
skip_tag (t ∷ ts) = elim (name_of t.token) [ none ↦ t ∷ ts | some n ↦ ts ]

unfoldable pub absorb_enum : Text → Symbols → List Tok → Outcome Stop (Symbols × List Tok)
absorb_enum file s toks =
    let ts = skip_tag toks in
    if next_is (b'{' ∷ []) ts
    then enumerators (suc (length (drop 1 ts))) file none s (drop 1 ts)
    else ok (s, ts)

abbrev pub enum_word : Text
enum_word = b'e' ∷ b'n' ∷ b'u' ∷ b'm' ∷ []

abbrev pub absorb_step :
    Text
    → Symbols
    → Token
    → List Tok
    → (Symbols → List Tok → Outcome Stop Symbols)
    → Outcome Stop Symbols
absorb_step file s (directive body) ts again = again (absorb_define file body s) ts
absorb_step file s (ident n) ts again =
    if text_eq n enum_word
    then and_then (absorb_enum file s ts) (λ r. again (r.0) (r.1))
    else again s ts
absorb_step file s (int v) ts again = again s ts
absorb_step file s (str v) ts again = again s ts
absorb_step file s (punct p) ts again = again s ts

unfoldable pub absorb_loop : ℕ → Text → Symbols → List Tok → Outcome Stop Symbols
absorb_loop zero file s ts = err no_fuel
absorb_loop (suc n) file s [] = ok s
absorb_loop (suc n) file s (t ∷ ts) = absorb_step file s t.token ts (absorb_loop n file)

unfoldable pub absorb : Text → List Tok → Symbols → Outcome Stop Symbols
absorb file toks s = absorb_loop (suc (length toks)) file s toks

-- `evaluate`.
abbrev pub ok_or_none : Outcome Stop ℕ → Outcome Stop (Option ℕ)
ok_or_none (ok v) = ok (some v)
ok_or_none (err (stopped e)) = ok none
ok_or_none (err no_fuel) = err no_fuel
ok_or_none panic = panic

abbrev pub one_past : Option ℕ → Outcome Stop (Option ℕ)
one_past none = ok none
one_past (some v) = if v == 2 ^ 63 - 1 then panic else ok (some ((v + 1) % 2 ^ 64))

unfoldable pub evaluate : Symbols → Pending → Outcome Stop (Option ℕ)
evaluate s first = ok (some 0)
evaluate s (after before) = one_past (get s before)
evaluate s (value file toks) = ok_or_none (eval file toks s)
evaluate s (define file body) = and_then (lex file body) (λ toks. ok_or_none (eval file toks s))

-- `insert` and `remove` of a map.
abbrev pub insert : Text → ℕ → List (Text × ℕ) → List (Text × ℕ)
insert name v [] = (name, v) ∷ []
insert name v ((key, w) ∷ rest) =
    let later = insert name v rest in if text_eq name key then (key, v) ∷ rest else (key, w) ∷ later

abbrev pub remove : Text → List (Text × ℕ) → List (Text × ℕ)
remove name [] = []
remove name ((key, w) ∷ rest) =
    let later = remove name rest in if text_eq name key then later else (key, w) ∷ later

abbrev pub differs : ℕ → Option ℕ → Bool
differs v none = false
differs v (some first_value) = not (first_value == v)

unfoldable pub define_name : Text → ℕ → Symbols → Symbols
define_name name v s =
    if is_ambiguous s name
    then s
    else if differs v (get s name)
    then record {
      values = remove name (insert name v s.values);
      ambiguous = name ∷ s.ambiguous;
      pending = s.pending;
    }
    else record { values = insert name v s.values; ambiguous = s.ambiguous; pending = s.pending }

-- One round of `resolve`: the table, how many definitions it evaluated, and the others.
abbrev pub Round : Type 0
Round = Symbols × ℕ × List (Text × Pending)

abbrev pub defer : Text × Pending → Round → Round
defer p (s, resolved, deferred) = (s, resolved, p ∷ deferred)

abbrev pub count_one : Round → Round
count_one (s, resolved, deferred) = (s, suc resolved, deferred)

abbrev pub round_step :
    Text → Pending → Symbols → (Symbols → Outcome Stop Round) → Option ℕ → Outcome Stop Round
round_step name definition s rest none = and_then (rest s) (λ r. ok (defer (name, definition) r))
round_step name definition s rest (some v) =
    and_then (rest (define_name name v s)) (λ r. ok (count_one r))

unfoldable pub round : List (Text × Pending) → Symbols → Outcome Stop Round
round [] s = ok (s, 0, [])
round ((name, definition) ∷ rest) s =
    and_then (evaluate s definition) (round_step name definition s (round rest))

abbrev pub with_pending : List (Text × Pending) → Symbols → Symbols
with_pending ps s = record { values = s.values; ambiguous = s.ambiguous; pending = ps }

abbrev pub after_round : (Symbols → Outcome Stop Symbols) → Round → Outcome Stop Symbols
after_round again (s, resolved, deferred) =
    if resolved == 0 then ok s else again (with_pending deferred s)

abbrev pub resolve_step :
    Symbols → (Symbols → Outcome Stop Symbols) → List (Text × Pending) → Outcome Stop Symbols
resolve_step s again [] = ok s
resolve_step s again (p ∷ ps) = and_then (round (p ∷ ps) (with_pending [] s)) (after_round again)

unfoldable pub resolve_loop : ℕ → Symbols → Outcome Stop Symbols
resolve_loop zero s = err no_fuel
resolve_loop (suc n) s = resolve_step s (resolve_loop n) s.pending

unfoldable pub resolve : Symbols → Outcome Stop Symbols
resolve s = resolve_loop (suc (length s.pending)) s
