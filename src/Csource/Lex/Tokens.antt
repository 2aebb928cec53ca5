-- ===== src/Csource/Lex/Tokens.antt =====
-- What `lex` of native/src/csource/lex.rs gives: its end, its lines and its spellings.
use click_doom.Base.{
  ℕ, zero, suc, ◌+◌, ◌-◌, ◌≤◌, ◌<◌, ◌^◌, ◌%◌, ◌≡◌, refl, ap, ◌∙◌, subst, Bool, true, List, [], ◌∷◌,
  ◌++◌, arith, ◌==◌, ◌||◌, if_both, length, Option, none, some, take, drop, ok, err, panic, All,
  All-append,
}
use click_doom.Csource.{Text, Token, Tok, and_then, stopped, no_fuel}
use click_doom.Csource.Chars.{
  span, first_byte, newlines, is_ascii_digit, is_ascii_alphabetic, is_ascii_alphanumeric,
  is_name_char,
}
use click_doom.Csource.Lex.{
  Cursor, Scan, bump, peek, first_of, skip_trivia, token_at, push_token, run, lex,
}
use click_doom.Csource.Lex.Moving.{
  IsAscii, Moved, Moves, Moved-Fits, Moved-length, Moved-trans, Moved-IsAscii, length-bump,
  bump_zero,
}
use click_doom.Csource.Lex.Spelling.{Gives, Gives-any, Spelled, token_at-Spells}
use click_doom.Csource.Lex.Searches.{span_pos, first_byte-digit, first_byte-name}
use click_doom.Csource.Lex.Laws.{
  skip_trivia-Moves, read_directive-Moves, read_number-Moves, read_ident-Moves,
}
use click_doom.Csource.Lex.Literals.{read_string-Moves, char_literal-Moves, read_punct-Moves}

span_head :
    (test : ℕ → Bool) (b : ℕ) (xs : Text)
    → some b ≡ first_of xs
    → ((x : ℕ) → first_byte x ≡ b → test x ≡ true)
    → 1 ≤ span test xs
span_head test b [] e h = absurd (cc e)
span_head test b (x ∷ xs) e h = span_pos test x xs (h x (cc e))

token_at-Moves :
    (file : Text) (c : Cursor) (b : ℕ)
    → some b ≡ peek c
    → 1 ≤ length c.rest
    → Moves 1 0 c (λ r. r.1) (token_at file c b)
unfolding token_at
token_at-Moves file c b e h =
    if_both P (b == b'#') (λ _. read_directive-Moves c h)
      (λ _.
        if_both P (b == b'"') (λ _. read_string-Moves file c h)
          (λ _.
            if_both P (b == 39) (λ _. char_literal-Moves file c h)
              (λ _.
                if_both P (is_ascii_digit b)
                  (λ d. read_number-Moves file c (
                    span_head is_ascii_alphanumeric b c.rest e
                      (λ x same. first_byte-digit x (cc (same, d)))))
                  (λ _.
                    if_both P (b == b'_' || is_ascii_alphabetic b)
                      (λ a. read_ident-Moves c (
                        span_head is_name_char b c.rest e
                          (λ x same. first_byte-name x (cc (same, a)))))
                      (λ _. read_punct-Moves c h)))))
  where
    P : Scan (Token × Cursor) → Type 0
    P = Moves 1 0 c (λ r. r.1)

-- A token stands in the text where its line says.
unfoldable pub Placed : Text → Tok → Type 0
Placed text tok =
    (k : ℕ) × (k < length text)
    × (tok.line ≡ (1 + newlines (take k text)) % 2 ^ 32)
    × Spelled (drop k text) tok.token

-- What a lexer gives for a text: tokens in their places, or an error, or, only for a text that is not
-- ASCII, a panic. The fuel does not run out.
unfoldable pub Lexed : Text → Scan (List Tok) → Type 0
Lexed text (ok toks) = All (Placed text) toks
Lexed text (err (stopped e)) = Unit
Lexed text (err no_fuel) = ⊥
Lexed text panic = IsAscii text → ⊥

abbrev start : Text → Cursor
start text = record { rest = text; line = 1 }

Lexed-and_then :
    {A : Type 0} (text : Text) (c : Cursor) (low room : ℕ) (at : A → Cursor) (P : A → Type 0)
    (r : Scan A) (f : A → Scan (List Tok))
    → Moved 0 0 (start text) c
    → Moves low room c at r
    → Gives P r
    → ((a : A) → Moved low room c (at a) → P a → Lexed text (f a))
    → Lexed text (and_then r f)
unfolding Lexed Moves Gives
Lexed-and_then text c low room at P (ok a) f m h g next = next a h g
Lexed-and_then text c low room at P (err (stopped e)) f m h g next = tt
Lexed-and_then text c low room at P (err no_fuel) f m h g next = h
Lexed-and_then text c low room at P panic f m h g next =
    λ a. h (Moved-IsAscii 0 0 (start text) c m a)

some_pos : (xs : Text) (b : ℕ) → some b ≡ first_of xs → 1 ≤ length xs
some_pos [] b e = absurd (cc e)
some_pos (x ∷ xs) b e = omega arith

from_start :
    (text : Text) (c d : Cursor)
    → Moved 0 0 (start text) c
    → Moved 1 0 c d
    → Moved 0 0 (start text) d
from_start text c d m (k, low, high, e) =
    Moved-trans 0 0 0 0 (start text) c d m (k, omega arith, high, e)

placed :
    (text : Text) (c : Cursor) (token : Token)
    → Moved 0 0 (start text) c
    → 1 ≤ length c.rest
    → Spelled c.rest token
    → Placed text (record { token = token; line = c.line })
unfolding Placed bump
placed text c token (k, low, high, e) more s =
    let size : length c.rest ≡ length text - k =
      ap (λ d. length d.rest) e ∙ length-bump k (start text) in
    (k, omega (arith, size), ap (λ d. d.line) e, subst (λ d. Spelled d.rest token) e s)

push_token-Lexed :
    (n : ℕ) (text file : Text) (out : List Tok) (c : Cursor) (o : Option ℕ)
    (again : List Tok → Cursor → Scan (List Tok))
    → ((ts : List Tok) (d : Cursor)
        → All (Placed text) ts
        → Moved 0 0 (start text) d
        → length d.rest < n
        → Lexed text (again ts d))
    → All (Placed text) out
    → Moved 0 0 (start text) c
    → length c.rest < suc n
    → o ≡ peek c
    → Lexed text (push_token file out c again o)
unfolding Lexed
push_token-Lexed n text file out c none again h hs m fuel e = hs
push_token-Lexed n text file out c (some b) again h hs m fuel e =
    let more : 1 ≤ length c.rest = some_pos c.rest b e in
    Lexed-and_then text c 1 0 (λ r. r.1) (λ r. Spelled c.rest (r.0)) (token_at file c b)
      (λ r. again (out ++ (record { token = r.0; line = c.line } ∷ [])) (r.1)) m
      (token_at-Moves file c b e more) (token_at-Spells file c b more)
      (λ r step spelled.
        let left = Moved-length 1 0 c (r.1) step in
        h (out ++ (record { token = r.0; line = c.line } ∷ [])) (r.1)
          (All-append (Placed text) out (record { token = r.0; line = c.line } ∷ []) hs
            (placed text c (r.0) m more spelled, tt))
          (from_start text c (r.1) m step) (omega (arith, left.1)))

run-Lexed :
    (n : ℕ) (text file : Text) (out : List Tok) (c : Cursor)
    → All (Placed text) out
    → Moved 0 0 (start text) c
    → length c.rest < n
    → Lexed text (run n file out c)
unfolding run
run-Lexed zero text file out c hs m fuel = absurd (omega arith)
run-Lexed (suc n) text file out c hs m fuel =
    Lexed-and_then text c 0 0 (λ d. d) (λ d. Unit) (skip_trivia (suc (length c.rest)) file c)
      (λ c1. push_token file out c1 (run n file) (peek c1)) m
      (skip_trivia-Moves (suc (length c.rest)) file c (Moved-Fits 0 0 (start text) c m)
        (omega arith))
      (Gives-any (skip_trivia (suc (length c.rest)) file c))
      (λ c1 step _.
        let left = Moved-length 0 0 c c1 step in
        push_token-Lexed n text file out c1 (peek c1) (run n file) (run-Lexed n text file) hs
          (Moved-trans 0 0 0 0 (start text) c c1 m step) (omega (arith, left.1)) refl)

-- `lex` ends on every text, with tokens or an error, and never panics on an ASCII text. Each token of
-- its result stands in the text at some place: its line is 1 more than the line ends before that
-- place, in 32 bits; a name or a sign is spelled there; and a number fits 64 bits.
pub lex-Lexed : (file text : Text) → Lexed text (lex file text)
unfolding lex
lex-Lexed file text =
    run-Lexed (suc (length text)) text file [] (start text) tt
      (0, omega arith, omega arith, bump_zero (start text) (omega arith)) (omega arith)
