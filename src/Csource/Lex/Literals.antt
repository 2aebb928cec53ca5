-- ===== src/Csource/Lex/Literals.antt =====
-- How native/src/csource/lex.rs moves over strings, characters and punctuation.
use click_doom.Base.{
  ℕ, zero, suc, ◌≤◌, ◌<◌, ◌≡◌, refl, true, [], ◌∷◌, ◌++◌, arith, ◌==◌, if_both, length, take, ok,
}
use click_doom.Csource.{Text, punct, str, int, and_then}
use click_doom.Csource.Lex.{
  Cursor, Scan, bump, bump_byte, peek, or_fail, digraphs, any_starts, escape, unescape, string_step,
  string_body, read_string, char_value, char_literal, head_of, is_quote, first_of, close_quote,
  after_char, read_punct,
}
use click_doom.Csource.Lex.Laws.{Resumes, here-Moves}
use click_doom.Csource.Lex.Moving.{
  Fits, Moves, bump_zero, Moved-Fits, Moved-length, Moves-and_then, Moves-map, Moves-weaken,
  bump_byte-Moves, or_fail-Moves,
}
use click_doom.Csource.Lex.Searches.{any_starts_le}

escape-Moves :
    (file : Text) (c : Cursor) → 1 ≤ length c.rest → Moves 1 1 c (λ r. r.1) (escape file c)
unfolding escape
escape-Moves file c h =
    Moves-and_then 1 0 0 1 c (λ d. d) (λ r. r.1) (bump_byte c)
      (λ c1. and_then (or_fail file c1 "escape" (peek c1)) (λ e. ok (unescape e, c1)))
      (bump_byte-Moves c h)
      (λ c1 m.
        or_fail-Moves 0 1 file c1 "escape" (λ r. r.1) (λ e. ok (unescape e, c1))
          (λ b more.
            here-Moves 0 1 0 c1 (λ r. r.1) (unescape b, c1) (omega arith) (omega arith)
              (bump_zero c1 (Moved-Fits 1 0 c c1 m))))

-- A byte is stepped over, and the loop goes on.
byte_then-Moves :
    {A : Type 0} (n : ℕ) (c : Cursor) (at : A → Cursor) (again : Cursor → Scan A)
    → Resumes n at again
    → length c.rest < suc n
    → 1 ≤ length c.rest
    → Moves 1 0 c at (and_then (bump_byte c) again)
byte_then-Moves n c at again h fuel more =
    Moves-and_then 1 0 0 0 c (λ d. d) at (bump_byte c) again (bump_byte-Moves c more)
      (λ c1 m.
        let left = Moved-length 1 0 c c1 m in h c1 (Moved-Fits 1 0 c c1 m) (omega (arith, left.1)))

string_step-Moves :
    (n : ℕ) (file out : Text) (c : Cursor) (again : Text → Cursor → Scan (Text × Cursor)) (b : ℕ)
    → ((o : Text) → Resumes n (λ r. r.1) (again o))
    → length c.rest < suc n
    → 1 ≤ length c.rest
    → Moves 0 0 c (λ r. r.1) (string_step file out c again b)
string_step-Moves n file out c again b h fuel more =
    if_both P (b == b'"')
      (λ _.
        Moves-weaken 1 0 0 0 c (λ r. r.1) (and_then (bump_byte c) (λ c1. ok (out, c1)))
          (omega arith) (omega arith)
          (Moves-map 1 0 c (λ d. d) (λ r. r.1) (bump_byte c) (λ c1. (out, c1)) (λ d. refl)
            (bump_byte-Moves c more)))
      (λ _.
        if_both P (b == b'\\') (λ _. escaped)
          (λ _.
            Moves-weaken 1 0 0 0 c (λ r. r.1)
              (and_then (bump_byte c) (λ c1. again (out ++ head_of c) c1)) (omega arith)
              (omega arith)
              (byte_then-Moves n c (λ r. r.1) (again (out ++ head_of c)) (h (out ++ head_of c)) fuel
                more)))
  where
    P : Scan (Text × Cursor) → Type 0
    P = Moves 0 0 c (λ r. r.1)

    after_escape : ℕ × Cursor → Scan (Text × Cursor)
    after_escape r = and_then (bump_byte (r.1)) (λ c2. again (out ++ (r.0 ∷ [])) c2)

    escaped : P (and_then (escape file c) after_escape)
    escaped =
        Moves-weaken 2 0 0 0 c (λ r. r.1) (and_then (escape file c) after_escape) (omega arith)
          (omega arith)
          (Moves-and_then 1 1 1 0 c (λ r. r.1) (λ r. r.1) (escape file c) after_escape
            (escape-Moves file c more)
            (λ r m.
              let left = Moved-length 1 1 c (r.1) m in
              byte_then-Moves n (r.1) (λ q. q.1) (again (out ++ (r.0 ∷ []))) (h (out ++ (r.0 ∷ [])))
                (omega (arith, left.1)) (left.0)))

string_body-Moves :
    (n : ℕ) (file out : Text) (c : Cursor)
    → length c.rest < n
    → Moves 0 0 c (λ r. r.1) (string_body n file out c)
unfolding string_body
string_body-Moves zero file out c h = absurd (omega arith)
string_body-Moves (suc n) file out c h =
    or_fail-Moves 0 0 file c "string" (λ r. r.1) (string_step file out c (string_body n file))
      (λ b.
        string_step-Moves n file out c (string_body n file) b
          (λ o d _. string_body-Moves n file o d) h)

pub read_string-Moves :
    (file : Text) (c : Cursor) → 1 ≤ length c.rest → Moves 1 0 c (λ r. r.1) (read_string file c)
unfolding read_string
read_string-Moves file c h =
    Moves-and_then 1 0 0 0 c (λ d. d) (λ r. r.1) (bump_byte c) _ (bump_byte-Moves c h)
      (λ c1 m.
        Moves-map 0 0 c1 (λ r. r.1) (λ r. r.1) (string_body (suc (length c1.rest)) file [] c1)
          (λ r. (str (r.0), r.1)) (λ r. refl)
          (string_body-Moves (suc (length c1.rest)) file [] c1 (omega arith)))

pub read_punct-Moves : (c : Cursor) → 1 ≤ length c.rest → Moves 1 0 c (λ r. r.1) (read_punct c)
unfolding read_punct
read_punct-Moves c h =
    if_both (Moves 1 0 c (λ r. r.1)) (any_starts digraphs c.rest)
      (λ two.
        here-Moves 1 0 2 c (λ r. r.1) (punct (take 2 c.rest), bump 2 c) (omega arith)
          (omega (arith, any_starts_le c.rest two)) refl)
      (λ _.
        Moves-map 1 0 c (λ d. d) (λ r. r.1) (bump_byte c) (λ c1. (punct (head_of c), c1))
          (λ d. refl) (bump_byte-Moves c h))

char_value-Moves :
    (file : Text) (c : Cursor) (b : ℕ)
    → Fits c
    → 1 ≤ length c.rest
    → Moves 0 1 c (λ r. r.1) (char_value file c b)
char_value-Moves file c b f h =
    if_both (Moves 0 1 c (λ r. r.1)) (b == b'\\')
      (λ _.
        Moves-weaken 1 1 0 1 c (λ r. r.1) (escape file c) (omega arith) (omega arith)
          (escape-Moves file c h))
      (λ _. here-Moves 0 1 0 c (λ r. r.1) (b, c) (omega arith) (omega arith) (bump_zero c f))

is_quote_pos : (xs : Text) → is_quote (first_of xs) ≡ true → 1 ≤ length xs
is_quote_pos [] h = absurd (cc h)
is_quote_pos (x ∷ xs) h = omega arith

close_quote-Moves :
    (file : Text) (v : ℕ) (c : Cursor) → Moves 0 0 c (λ r. r.1) (close_quote file v c)
unfolding Moves
close_quote-Moves file v c =
    if_both (Moves 0 0 c (λ r. r.1)) (is_quote (peek c))
      (λ q.
        Moves-weaken 1 0 0 0 c (λ r. r.1) (and_then (bump_byte c) (λ c4. ok (int v, c4)))
          (omega arith) (omega arith)
          (Moves-map 1 0 c (λ d. d) (λ r. r.1) (bump_byte c) (λ c4. (int v, c4)) (λ d. refl)
            (bump_byte-Moves c (is_quote_pos c.rest q))))
      (λ _. tt)

after_char-Moves :
    (file : Text) (r : ℕ × Cursor)
    → 1 ≤ length ((r.1).rest)
    → Moves 1 0 (r.1) (λ q. q.1) (after_char file r)
after_char-Moves file r h =
    Moves-and_then 1 0 0 0 (r.1) (λ d. d) (λ q. q.1) (bump_byte (r.1)) (close_quote file (r.0))
      (bump_byte-Moves (r.1) h) (λ c m. close_quote-Moves file (r.0) c)

read_char-Moves :
    (file : Text) (c : Cursor)
    → Fits c
    → Moves 1 0 c
        (λ r. r.1)
        (and_then
          (or_fail file c "character" (peek c))
          (λ b. and_then (char_value file c b) (after_char file)))
read_char-Moves file c f =
    or_fail-Moves 1 0 file c "character" (λ r. r.1)
      (λ b. and_then (char_value file c b) (after_char file))
      (λ b more.
        Moves-and_then 0 1 1 0 c (λ r. r.1) (λ r. r.1) (char_value file c b) (after_char file)
          (char_value-Moves file c b f more)
          (λ r m. let left = Moved-length 0 1 c (r.1) m in after_char-Moves file r (left.0)))

pub char_literal-Moves :
    (file : Text) (c : Cursor) → 1 ≤ length c.rest → Moves 1 0 c (λ r. r.1) (char_literal file c)
unfolding char_literal
char_literal-Moves file c h =
    Moves-weaken 2 0 1 0 c (λ r. r.1) (char_literal file c) (omega arith) (omega arith)
      (Moves-and_then 1 0 1 0 c (λ d. d) (λ r. r.1) (bump_byte c)
        (λ c1.
          and_then (or_fail file c1 "character" (peek c1))
            (λ b. and_then (char_value file c1 b) (after_char file)))
        (bump_byte-Moves c h) (λ c1 m. read_char-Moves file c1 (Moved-Fits 1 0 c c1 m)))
