-- ===== src/Csource/Lex.antt =====
-- native/src/csource/lex.rs: the lexer. The line, a `u32`, wraps as a release build lets it. Each loop
-- takes fuel: one more than the characters left is enough.
pub mod Moving
pub mod Searches
pub mod Spelling
pub mod Laws
pub mod Literals
pub mod Tokens
use click_doom.Base.{
  ℕ, zero, suc, ◌+◌, ◌-◌, ◌^◌, ◌%◌, Bool, true, false, not, ◌&&◌, ◌||◌, Option, none, some, List,
  [], ◌∷◌, ◌++◌, ltb, ◌==◌, if◌then◌else◌, length, take, drop, Outcome, ok, err, panic,
}
use click_doom.Csource.{
  Text, Token, ident, int, str, punct, directive, Tok, CError, unterminated, bad_number, Stop,
  stopped, no_fuel, and_then,
}
use click_doom.Csource.Chars.{
  is_whitespace, is_ascii_digit, is_ascii_alphabetic, is_ascii_alphanumeric, is_name_char, span,
  starts_with, find_text, strip_prefix, trim_end_matches, trim, strip_last, newlines, first_byte,
  from_str_radix,
}
use Prim.Native.String.{String}

pub record Cursor : Type 0 where
  pub rest : Text
  pub line : ℕ

abbrev pub Scan : Type 0 → Type 0
Scan A = Outcome Stop A

abbrev pub digraphs : List Text
digraphs =
    (b'<' ∷ b'<' ∷ [])
    ∷ (b'>' ∷ b'>' ∷ [])
    ∷ (b'<' ∷ b'=' ∷ [])
    ∷ (b'>' ∷ b'=' ∷ [])
    ∷ (b'=' ∷ b'=' ∷ [])
    ∷ (b'!' ∷ b'=' ∷ [])
    ∷ (b'&' ∷ b'&' ∷ [])
    ∷ (b'|' ∷ b'|' ∷ [])
    ∷ []

abbrev pub first_of : Text → Option ℕ
first_of [] = none
first_of (c ∷ cs) = some (first_byte c)

abbrev pub peek : Cursor → Option ℕ
peek c = first_of c.rest

-- `bump` over whole characters.
unfoldable pub bump : ℕ → Cursor → Cursor
bump n c = record { rest = drop n c.rest; line = (c.line + newlines (take n c.rest)) % 2 ^ 32 }

-- `bump(1)` is over one byte: the slice panics inside a character and past the end.
unfoldable pub bump_byte : Cursor → Scan Cursor
bump_byte c = elim (c.rest) [ [] ↦ panic | b ∷ bs ↦ if ltb b 0x80 then ok (bump 1 c) else panic ]

abbrev pub fail {ℓ} : {A : Type ℓ} → Text → Cursor → String → Outcome Stop A
fail file c what = err (stopped (unterminated file c.line what))

abbrev pub or_fail : Text → Cursor → String → Option ℕ → Scan ℕ
or_fail file c what none = fail file c what
or_fail file c what (some b) = ok b

abbrev pub not_newline : ℕ → Bool
not_newline c = not (c == 10)

abbrev pub after_comment : Text → Cursor → (Cursor → Scan Cursor) → Option ℕ → Scan Cursor
after_comment file c again none = fail file c "comment"
after_comment file c again (some n) = again (bump (n + 4) c)

abbrev pub trivia_step : Text → Cursor → (Cursor → Scan Cursor) → Scan Cursor
trivia_step file c again =
    let spaces = span is_whitespace c.rest in
    if ltb 0 spaces
    then again (bump spaces c)
    else if starts_with (b'/' ∷ b'/' ∷ []) c.rest
    then again (bump (span not_newline c.rest) c)
    else if starts_with (b'/' ∷ b'*' ∷ []) c.rest
    then after_comment file c again (find_text (b'*' ∷ b'/' ∷ []) (drop 2 c.rest))
    else ok c

unfoldable pub skip_trivia : ℕ → Text → Cursor → Scan Cursor
skip_trivia zero file c = err no_fuel
skip_trivia (suc n) file c = trivia_step file c (skip_trivia n file)

-- A preprocessor line, after its `#`.
abbrev pub after_line :
    Text
    → Text
    → Cursor
    → (Text → Cursor → Scan (Text × Cursor))
    → Option Text
    → Scan (Text × Cursor)
after_line body line c again none = ok (body ++ line, c)
after_line body line c again (some head) =
    again (body ++ head ++ (b' ' ∷ [])) (bump (if ltb 0 (length c.rest) then 1 else 0) c)

abbrev pub directive_step :
    Text → Cursor → (Text → Cursor → Scan (Text × Cursor)) → Scan (Text × Cursor)
directive_step body c again =
    let n = span not_newline c.rest in
    if ltb 0 (length c.rest)
    then after_line body (take n c.rest) (bump n c) again (strip_last b'\\' (take n c.rest))
    else ok (body, c)

unfoldable pub directive_body : ℕ → Text → Cursor → Scan (Text × Cursor)
directive_body zero body c = err no_fuel
directive_body (suc n) body c = directive_step body c (directive_body n)

unfoldable pub read_directive : Cursor → Scan (Token × Cursor)
read_directive c = and_then (bump_byte c) (λ c1.
    and_then (directive_body (suc (length c1.rest)) [] c1) (λ r. ok (directive (trim (r.0)), r.1)))

unfoldable pub read_ident : Cursor → Token × Cursor
read_ident c = let n = span is_name_char c.rest in (ident (take n c.rest), bump n c)

-- A number: the digits without their suffix, after `0x` or `0X` in base 16.
abbrev pub is_suffix : ℕ → Bool
is_suffix c = c == b'u' || c == b'U' || c == b'l' || c == b'L'

abbrev pub or_else : Option Text → Option Text → Option Text
or_else none y = y
or_else (some x) y = some x

abbrev pub number_of : Text → Option Text → Option ℕ
number_of digits none = from_str_radix 10 (2 ^ 63 - 1) digits
number_of digits (some hex) = from_str_radix 16 (2 ^ 64 - 1) hex

abbrev pub number_value : Text → Option ℕ
number_value text =
    let digits = trim_end_matches is_suffix text in
    number_of digits
      (or_else (strip_prefix (b'0' ∷ b'x' ∷ []) digits) (strip_prefix (b'0' ∷ b'X' ∷ []) digits))

abbrev pub int_or_error : Text → ℕ → Text → Cursor → Option ℕ → Scan (Token × Cursor)
int_or_error file line text c none = err (stopped (bad_number file line text))
int_or_error file line text c (some v) = ok (int v, c)

unfoldable pub read_number : Text → Cursor → Scan (Token × Cursor)
read_number file c =
    let n = span is_ascii_alphanumeric c.rest in
    int_or_error file c.line (take n c.rest) (bump n c) (number_value (take n c.rest))

abbrev pub unescape : ℕ → ℕ
unescape b =
    if b == b'0'
    then 0
    else if b == b'n'
    then 10
    else if b == b't'
    then 9
    else if b == b'r'
    then 13
    else b

-- The escape after a backslash: its byte, and the cursor on it.
unfoldable pub escape : Text → Cursor → Scan (ℕ × Cursor)
escape file c =
    and_then (bump_byte c)
      (λ c1. and_then (or_fail file c1 "escape" (peek c1)) (λ e. ok (unescape e, c1)))

abbrev pub head_of : Cursor → Text
head_of c = take 1 c.rest

abbrev pub string_step :
    Text → Text → Cursor → (Text → Cursor → Scan (Text × Cursor)) → ℕ → Scan (Text × Cursor)
string_step file out c again b =
    if b == b'"'
    then and_then (bump_byte c) (λ c1. ok (out, c1))
    else if b == b'\\'
    then and_then (escape file c)
        (λ r. and_then (bump_byte (r.1)) (λ c2. again (out ++ (r.0 ∷ [])) c2))
    else and_then (bump_byte c) (λ c1. again (out ++ head_of c) c1)

unfoldable pub string_body : ℕ → Text → Text → Cursor → Scan (Text × Cursor)
string_body zero file out c = err no_fuel
string_body (suc n) file out c =
    and_then (or_fail file c "string" (peek c)) (string_step file out c (string_body n file))

unfoldable pub read_string : Text → Cursor → Scan (Token × Cursor)
read_string file c =
    and_then (bump_byte c)
      (λ c1. and_then (string_body (suc (length c1.rest)) file [] c1) (λ r. ok (str (r.0), r.1)))

abbrev pub char_value : Text → Cursor → ℕ → Scan (ℕ × Cursor)
char_value file c b = if b == b'\\' then escape file c else ok (b, c)

abbrev pub is_quote : Option ℕ → Bool
is_quote none = false
is_quote (some b) = b == 39

abbrev pub close_quote : Text → ℕ → Cursor → Scan (Token × Cursor)
close_quote file v c =
    if is_quote (peek c)
    then and_then (bump_byte c) (λ c4. ok (int v, c4))
    else fail file c "character"

abbrev pub after_char : Text → ℕ × Cursor → Scan (Token × Cursor)
after_char file r = and_then (bump_byte (r.1)) (close_quote file (r.0))

unfoldable pub char_literal : Text → Cursor → Scan (Token × Cursor)
char_literal file c = and_then (bump_byte c) (λ c1.
    and_then (or_fail file c1 "character" (peek c1))
      (λ b. and_then (char_value file c1 b) (after_char file)))

abbrev pub any_starts : List Text → Text → Bool
any_starts [] text = false
any_starts (d ∷ ds) text = let rest = any_starts ds text in starts_with d text || rest

-- A digraph is ASCII, so only the width of 1 can cut a character.
unfoldable pub read_punct : Cursor → Scan (Token × Cursor)
read_punct c =
    if any_starts digraphs c.rest
    then ok (punct (take 2 c.rest), bump 2 c)
    else and_then (bump_byte c) (λ c1. ok (punct (head_of c), c1))

unfoldable pub token_at : Text → Cursor → ℕ → Scan (Token × Cursor)
token_at file c b =
    if b == b'#'
    then read_directive c
    else if b == b'"'
    then read_string file c
    else if b == 39
    then char_literal file c
    else if is_ascii_digit b
    then read_number file c
    else if b == b'_' || is_ascii_alphabetic b
    then ok (read_ident c)
    else read_punct c

abbrev pub push_token :
    Text → List Tok → Cursor → (List Tok → Cursor → Scan (List Tok)) → Option ℕ → Scan (List Tok)
push_token file out c again none = ok out
push_token file out c again (some b) =
    and_then (token_at file c b)
      (λ r. again (out ++ (record { token = r.0; line = c.line } ∷ [])) (r.1))

unfoldable pub run : ℕ → Text → List Tok → Cursor → Scan (List Tok)
run zero file out c = err no_fuel
run (suc n) file out c =
    and_then (skip_trivia (suc (length c.rest)) file c)
      (λ c1. push_token file out c1 (run n file) (peek c1))

unfoldable pub lex : Text → Text → Scan (List Tok)
lex file text = run (suc (length text)) file [] (record { rest = text; line = 1 })
