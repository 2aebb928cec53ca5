-- ===== src/Csource/Lex/Spelling.antt =====
-- The tokens of native/src/csource/lex.rs and the text they are read from.
use click_doom.Base.{
  ℕ, suc, ◌-◌, ◌≤◌, ◌<◌, ◌^◌, ◌≡◌, refl, ap, sym, [], ◌∷◌, arith, ◌==◌, ◌||◌, if_both, length,
  Option, none, some, leb, ltb, take, ok, err, panic, length-take,
}
use click_doom.Csource.{Text, Token, ident, punct, directive, str, int, and_then}
use click_doom.Csource.Chars.{
  span, first_byte, trim, trim_end_matches, strip_prefix, from_str_radix, read_digits, at_most,
  is_ascii_digit, is_ascii_alphabetic, is_ascii_alphanumeric, is_name_char,
}
use click_doom.Csource.Lex.{
  Cursor, Scan, bump, bump_byte, peek, first_of, or_fail, read_directive, directive_body,
  read_ident, read_number, number_of, number_value, int_or_error, is_suffix, or_else, read_string,
  string_body, escape, unescape, char_value, is_quote, close_quote, after_char, char_literal,
  digraphs, any_starts, head_of, read_punct, token_at,
}
use click_doom.Csource.Lex.Searches.{span_le, any_starts_le}
use Prim.Native.String.{String}

-- A property of what a scan gives, where it gives anything.
unfoldable pub Gives : {A : Type 0} → (A → Type 0) → Scan A → Type 0
Gives P (ok a) = P a
Gives P (err e) = Unit
Gives P panic = Unit

pub Gives-any : {A : Type 0} (r : Scan A) → Gives (λ a. Unit) r
unfolding Gives
Gives-any (ok a) = tt
Gives-any (err e) = tt
Gives-any panic = tt

pub Gives-and_then :
    {A B : Type 0} (P : A → Type 0) (Q : B → Type 0) (r : Scan A) (f : A → Scan B)
    → Gives P r
    → ((a : A) → P a → Gives Q (f a))
    → Gives Q (and_then r f)
unfolding Gives
Gives-and_then P Q (ok a) f h next = next a h
Gives-and_then P Q (err e) f h next = tt
Gives-and_then P Q panic f h next = tt

-- What the token at the start of a text says of it: a name and a sign are spelled as they stand, and
-- a number fits 64 bits.
unfoldable pub Spelled : Text → Token → Type 0
Spelled text (ident name) = name ≡ take (length name) text
Spelled text (punct sign) = sign ≡ take (length sign) text
Spelled text (int v) = v < 2 ^ 64
Spelled text (str s) = Unit
Spelled text (directive s) = Unit

abbrev Spells : Text → Scan (Token × Cursor) → Type 0
Spells text = Gives (λ r. Spelled text (r.0))

take_own_length : (n : ℕ) (xs : Text) → n ≤ length xs → take n xs ≡ take (length (take n xs)) xs
take_own_length n xs h = ap (λ k. take k xs) (omega (arith, length-take n xs))

at_most_le : (max v : ℕ) (o : Option ℕ) → at_most max o ≡ some v → v ≤ max
at_most_le max v none h = absurd (cc h)
at_most_le max v (some x) h =
    if_both (λ o. o ≡ some v → v ≤ max) (leb x max)
      (λ fits e. let same : x ≡ v = cc e in ground (arith, same)) (λ _ e. absurd (cc e)) h

from_str_radix_le : (radix max v : ℕ) (xs : Text) → from_str_radix radix max xs ≡ some v → v ≤ max
from_str_radix_le radix max v [] h = absurd (cc h)
from_str_radix_le radix max v (x ∷ xs) h = at_most_le max v (read_digits radix 0 (x ∷ xs)) h

number_of_lt : (digits : Text) (o : Option Text) (v : ℕ) → number_of digits o ≡ some v → v < 2 ^ 64
number_of_lt digits none v h = omega (arith, from_str_radix_le 10 (2 ^ 63 - 1) v digits h)
number_of_lt digits (some hex) v h = omega (arith, from_str_radix_le 16 (2 ^ 64 - 1) v hex h)

number_value_lt : (text : Text) (v : ℕ) → number_value text ≡ some v → v < 2 ^ 64
number_value_lt text v h =
    number_of_lt (trim_end_matches is_suffix text)
      (or_else (strip_prefix (b'0' ∷ b'x' ∷ []) (trim_end_matches is_suffix text))
        (strip_prefix (b'0' ∷ b'X' ∷ []) (trim_end_matches is_suffix text)))
      v h

int_or_error-Spells :
    (text file : Text) (line : ℕ) (digits : Text) (c : Cursor) (o : Option ℕ)
    → ((v : ℕ) → o ≡ some v → v < 2 ^ 64)
    → Spells text (int_or_error file line digits c o)
unfolding Gives Spelled
int_or_error-Spells text file line digits c none h = tt
int_or_error-Spells text file line digits c (some v) h = h v refl

read_number-Spells : (file : Text) (c : Cursor) → Spells c.rest (read_number file c)
unfolding read_number
read_number-Spells file c =
    let digits = take (span is_ascii_alphanumeric c.rest) c.rest in
    int_or_error-Spells c.rest file c.line digits (bump (span is_ascii_alphanumeric c.rest) c)
      (number_value digits) (number_value_lt digits)

read_ident-Spells : (c : Cursor) → Spells c.rest (ok (read_ident c))
unfolding Gives Spelled read_ident
read_ident-Spells c =
    take_own_length (span is_name_char c.rest) c.rest (span_le is_name_char c.rest)

read_punct-Spells : (c : Cursor) → 1 ≤ length c.rest → Spells c.rest (read_punct c)
unfolding Gives Spelled read_punct
read_punct-Spells c h =
    if_both (Spells c.rest) (any_starts digraphs c.rest)
      (λ two. take_own_length 2 c.rest (any_starts_le c.rest two))
      (λ _.
        Gives-and_then (λ d. Unit) (λ r. Spelled c.rest (r.0)) (bump_byte c)
          (λ c1. ok (punct (head_of c), c1)) (Gives-any (bump_byte c))
          (λ d _. take_own_length 1 c.rest h))

read_directive-Spells : (c : Cursor) → Spells c.rest (read_directive c)
unfolding Gives Spelled read_directive
read_directive-Spells c =
    Gives-and_then (λ d. Unit) (λ r. Spelled c.rest (r.0)) (bump_byte c) _ (Gives-any (bump_byte c))
      (λ c1 _.
        Gives-and_then (λ r. Unit) (λ r. Spelled c.rest (r.0))
          (directive_body (suc (length c1.rest)) [] c1) (λ r. ok (directive (trim (r.0)), r.1))
          (Gives-any (directive_body (suc (length c1.rest)) [] c1)) (λ r _. tt))

read_string-Spells : (file : Text) (c : Cursor) → Spells c.rest (read_string file c)
unfolding Gives Spelled read_string
read_string-Spells file c =
    Gives-and_then (λ d. Unit) (λ r. Spelled c.rest (r.0)) (bump_byte c) _ (Gives-any (bump_byte c))
      (λ c1 _.
        Gives-and_then (λ r. Unit) (λ r. Spelled c.rest (r.0))
          (string_body (suc (length c1.rest)) file [] c1) (λ r. ok (str (r.0), r.1))
          (Gives-any (string_body (suc (length c1.rest)) file [] c1)) (λ r _. tt))

-- A value that fits where the character under the cursor is ASCII.
abbrev Fitting : ℕ × Cursor → Type 0
Fitting r = (x : ℕ) (xs : Text) → (r.1).rest ≡ x ∷ xs → x < 0x80 → r.0 < 2 ^ 64

or_fail-Gives :
    {A : Type 0} (Q : A → Type 0) (file : Text) (c : Cursor) (what : String) (f : ℕ → Scan A)
    (rest : Text)
    → rest ≡ c.rest
    → ((x : ℕ) (xs : Text) → c.rest ≡ x ∷ xs → Gives Q (f (first_byte x)))
    → Gives Q (and_then (or_fail file c what (first_of rest)) f)
unfolding Gives
or_fail-Gives Q file c what f [] e h = tt
or_fail-Gives Q file c what f (x ∷ xs) e h = h x xs (sym e)

escape-Gives : (file : Text) (c : Cursor) → Gives Fitting (escape file c)
unfolding escape Gives
escape-Gives file c =
    Gives-and_then (λ d. Unit) Fitting (bump_byte c) _ (Gives-any (bump_byte c))
      (λ c1 _.
        or_fail-Gives Fitting file c1 "escape" (λ e. ok (unescape e, c1)) c1.rest refl
          (λ x xs e y ys e2 low. let same : x ≡ y = cc (e, e2) in ground (arith, same)))

char_value-Gives :
    (file : Text) (c : Cursor) (x : ℕ) (xs : Text)
    → c.rest ≡ x ∷ xs
    → Gives Fitting (char_value file c (first_byte x))
unfolding Gives
char_value-Gives file c x xs e =
    if_both (Gives Fitting) (first_byte x == b'\\') (λ _. escape-Gives file c)
      (λ _ y ys e2 low. let same : x ≡ y = cc (e, e2) in ground (arith, same))

close_quote-Spells :
    (text file : Text) (v : ℕ) (c : Cursor) → v < 2 ^ 64 → Spells text (close_quote file v c)
unfolding Gives Spelled
close_quote-Spells text file v c h =
    if_both (Spells text) (is_quote (peek c))
      (λ _.
        Gives-and_then (λ d. Unit) (λ r. Spelled text (r.0)) (bump_byte c) (λ c4. ok (int v, c4))
          (Gives-any (bump_byte c)) (λ d _. h))
      (λ _. tt)

bump_byte-Gives :
    (rest : Text) (line : ℕ)
    → Gives
        (λ d. (x : ℕ) × (xs : Text) × (rest ≡ x ∷ xs) × (x < 0x80))
        (bump_byte (record { rest = rest; line = line }))
unfolding Gives bump_byte
bump_byte-Gives [] line = tt
bump_byte-Gives (x ∷ xs) line =
    if_both (Gives (λ d. (y : ℕ) × (ys : Text) × ((x ∷ xs) ≡ y ∷ ys) × (y < 0x80))) (ltb x 0x80)
      (λ low. (x, xs, refl, ground arith)) (λ _. tt)

after_char-Spells :
    (text file : Text) (r : ℕ × Cursor) → Fitting r → Spells text (after_char file r)
after_char-Spells text file (v, c) h =
    Gives-and_then (λ d. (x : ℕ) × (xs : Text) × (c.rest ≡ x ∷ xs) × (x < 0x80))
      (λ r. Spelled text (r.0)) (bump_byte c) (close_quote file v) (bump_byte-Gives c.rest c.line)
      (λ d (x, xs, e, low). close_quote-Spells text file v d (h x xs e low))

char_literal-Spells : (file : Text) (c : Cursor) → Spells c.rest (char_literal file c)
unfolding char_literal
char_literal-Spells file c =
    Gives-and_then (λ d. Unit) (λ r. Spelled c.rest (r.0)) (bump_byte c) _ (Gives-any (bump_byte c))
      (λ c1 _.
        or_fail-Gives (λ r. Spelled c.rest (r.0)) file c1 "character"
          (λ b. and_then (char_value file c1 b) (after_char file)) c1.rest refl
          (λ x xs e.
            Gives-and_then Fitting (λ r. Spelled c.rest (r.0)) (char_value file c1 (first_byte x))
              (after_char file) (char_value-Gives file c1 x xs e)
              (λ r h. after_char-Spells c.rest file r h)))

pub token_at-Spells :
    (file : Text) (c : Cursor) (b : ℕ) → 1 ≤ length c.rest → Spells c.rest (token_at file c b)
unfolding token_at
token_at-Spells file c b h =
    if_both (Spells c.rest) (b == b'#') (λ _. read_directive-Spells c)
      (λ _.
        if_both (Spells c.rest) (b == b'"') (λ _. read_string-Spells file c)
          (λ _.
            if_both (Spells c.rest) (b == 39) (λ _. char_literal-Spells file c)
              (λ _.
                if_both (Spells c.rest) (is_ascii_digit b) (λ _. read_number-Spells file c)
                  (λ _.
                    if_both (Spells c.rest) (b == b'_' || is_ascii_alphabetic b)
                      (λ _. read_ident-Spells c) (λ _. read_punct-Spells c h)))))
