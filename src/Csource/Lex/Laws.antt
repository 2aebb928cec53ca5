-- ===== src/Csource/Lex/Laws.antt =====
-- What each reader of native/src/csource/lex.rs does to the cursor.
use click_doom.Base.{
  ℕ, zero, suc, ◌+◌, ◌≤◌, ◌<◌, ◌≡◌, refl, sym, subst, true, [], ◌∷◌, ◌++◌, arith, ◌==◌, if_both,
  length, Option, none, some, ltb, if◌then◌else◌, take, drop, ok, length-drop, length-take,
}
use click_doom.Csource.{Text, directive}
use click_doom.Csource.Chars.{
  span, starts_with, find_text, strip_last, trim, is_whitespace, is_ascii_alphanumeric,
  is_name_char,
}
use click_doom.Csource.Lex.{
  Cursor, Scan, bump, bump_byte, not_newline, after_comment, trivia_step, skip_trivia, after_line,
  directive_step, directive_body, read_directive, read_ident, read_number, int_or_error,
  number_value,
}
use click_doom.Csource.Lex.Moving.{
  Fits, Moves, length-bump, bump-bump, bump-Fits, bump_zero, Moved-Fits, Moves-after,
  Moves-and_then, Moves-map, Moves-weaken, bump_byte-Moves,
}
use click_doom.Csource.Lex.Searches.{
  span_le, span_pos, starts_with_le, find_text_le, strip_last_pos,
}

-- A loop that has fuel for fewer than `n` characters.
abbrev pub Resumes : {A : Type 0} → ℕ → (A → Cursor) → (Cursor → Scan A) → Type 0
Resumes n at again = (d : Cursor) → Fits d → length d.rest < n → Moves 0 0 d at (again d)

-- After a bump of one character or more, such a loop goes on from there.
again-Moves :
    {A : Type 0} (n k : ℕ) (c : Cursor) (at : A → Cursor) (again : Cursor → Scan A)
    → Resumes n at again
    → length c.rest < suc n
    → 1 ≤ k
    → k ≤ length c.rest
    → Moves 0 0 c at (again (bump k c))
again-Moves n k c at again h fuel pos fit =
    Moves-weaken 1 0 0 0 c at (again (bump k c)) (omega arith) (omega arith) (
      Moves-after 1 0 0 0 c (bump k c) at (again (bump k c)) (k, pos, omega arith, refl)
        (h (bump k c) (bump-Fits k c) (omega (arith, length-bump k c))))

pub here-Moves :
    {A : Type 0} (low room k : ℕ) (c : Cursor) (at : A → Cursor) (a : A)
    → low ≤ k
    → k + room ≤ length c.rest
    → at a ≡ bump k c
    → Moves low room c at (ok a)
unfolding Moves
here-Moves low room k c at a pos fit e = (k, pos, fit, e)

-- A line comment has two characters before its end.
line_comment_pos : (xs : Text) → starts_with (b'/' ∷ b'/' ∷ []) xs ≡ true → 1 ≤ span not_newline xs
line_comment_pos [] h = absurd (cc h)
line_comment_pos (x ∷ xs) h =
    let slash : (x == b'/') ≡ true = ground arith in span_pos not_newline x xs (ground arith)

after_comment-Moves :
    (n : ℕ) (file : Text) (c : Cursor) (again : Cursor → Scan Cursor) (o : Option ℕ)
    → Resumes n (λ d. d) again
    → length c.rest < suc n
    → ((k : ℕ) → o ≡ some k → k + 4 ≤ length c.rest)
    → Moves 0 0 c (λ d. d) (after_comment file c again o)
unfolding Moves
after_comment-Moves n file c again none h fuel b = tt
after_comment-Moves n file c again (some k) h fuel b =
    again-Moves n (k + 4) c (λ d. d) again h fuel (omega arith) (b k refl)

trivia_step-Moves :
    (n : ℕ) (file : Text) (c : Cursor) (again : Cursor → Scan Cursor)
    → Resumes n (λ d. d) again
    → Fits c
    → length c.rest < suc n
    → Moves 0 0 c (λ d. d) (trivia_step file c again)
trivia_step-Moves n file c again h f fuel =
    if_both P (ltb 0 (span is_whitespace c.rest))
      (λ spaces. go (span is_whitespace c.rest) (ground arith) (span_le is_whitespace c.rest))
      (λ _.
        if_both P (starts_with (b'/' ∷ b'/' ∷ []) c.rest)
          (λ s.
            go (span not_newline c.rest) (line_comment_pos c.rest s) (span_le not_newline c.rest))
          (λ _.
            if_both P (starts_with (b'/' ∷ b'*' ∷ []) c.rest)
              (λ s.
                after_comment-Moves n file c again (find_text (b'*' ∷ b'/' ∷ []) (drop 2 c.rest)) h
                  fuel (inside s))
              (λ _. here-Moves 0 0 0 c (λ d. d) c (omega arith) (omega arith) (bump_zero c f))))
  where
    P : Scan Cursor → Type 0
    P = Moves 0 0 c (λ d. d)

    go : (k : ℕ) → 1 ≤ k → k ≤ length c.rest → P (again (bump k c))
    go k = again-Moves n k c (λ d. d) again h fuel

    inside :
        starts_with (b'/' ∷ b'*' ∷ []) c.rest ≡ true
        → (k : ℕ) → find_text (b'*' ∷ b'/' ∷ []) (drop 2 c.rest) ≡ some k
        → k + 4 ≤ length c.rest
    inside s k e = omega (
      arith,
      find_text_le (b'*' ∷ b'/' ∷ []) (drop 2 c.rest) k e,
      length-drop 2 c.rest,
      starts_with_le (b'/' ∷ b'*' ∷ []) c.rest s,
    )

pub skip_trivia-Moves :
    (n : ℕ) (file : Text) (c : Cursor)
    → Fits c
    → length c.rest < n
    → Moves 0 0 c (λ d. d) (skip_trivia n file c)
unfolding skip_trivia
skip_trivia-Moves zero file c f h = absurd (omega arith)
skip_trivia-Moves (suc n) file c f h =
    trivia_step-Moves n file c (skip_trivia n file) (skip_trivia-Moves n file) f h

after_line-Moves :
    (n k : ℕ) (body line : Text) (c : Cursor) (again : Text → Cursor → Scan (Text × Cursor))
    (o : Option Text)
    → ((b : Text) → Resumes n (λ r. r.1) (again b))
    → length c.rest < suc n
    → k ≤ length c.rest
    → ((head : Text) → o ≡ some head → 1 ≤ k)
    → Moves 0 0 c (λ r. r.1) (after_line body line (bump k c) again o)
after_line-Moves n k body line c again none h fuel fit pos =
    here-Moves 0 0 k c (λ r. r.1) (body ++ line, bump k c) (omega arith) (omega arith) refl
after_line-Moves n k body line c again (some head) h fuel fit pos =
    let j = if ltb 0 (length ((bump k c).rest)) then 1 else 0 in
    let more : k + j ≤ length c.rest = ground (arith, length-bump k c) in
    let enough : 1 ≤ k = pos head refl in
    subst (λ d. Moves 0 0 c (λ r. r.1) (again (body ++ head ++ (b' ' ∷ [])) d))
      (sym (bump-bump k j c))
      (again-Moves n (k + j) c (λ r. r.1) (again (body ++ head ++ (b' ' ∷ [])))
        (h (body ++ head ++ (b' ' ∷ []))) fuel (omega arith) more)

directive_step-Moves :
    (n : ℕ) (body : Text) (c : Cursor) (again : Text → Cursor → Scan (Text × Cursor))
    → ((b : Text) → Resumes n (λ r. r.1) (again b))
    → Fits c
    → length c.rest < suc n
    → Moves 0 0 c (λ r. r.1) (directive_step body c again)
directive_step-Moves n body c again h f fuel =
    let k = span not_newline c.rest in
    let fit : k ≤ length c.rest = span_le not_newline c.rest in
    let size : length (take k c.rest) ≤ k = omega (arith, length-take k c.rest) in
    if_both (Moves 0 0 c (λ r. r.1)) (ltb 0 (length c.rest))
      (λ _.
        after_line-Moves n k body (take k c.rest) c again (strip_last b'\\' (take k c.rest)) h fuel
          fit (λ head e. omega (arith, size, strip_last_pos b'\\' (take k c.rest) head e)))
      (λ _. here-Moves 0 0 0 c (λ r. r.1) (body, c) (omega arith) (omega arith) (bump_zero c f))

directive_body-Moves :
    (n : ℕ) (body : Text) (c : Cursor)
    → Fits c
    → length c.rest < n
    → Moves 0 0 c (λ r. r.1) (directive_body n body c)
unfolding directive_body
directive_body-Moves zero body c f h = absurd (omega arith)
directive_body-Moves (suc n) body c f h =
    directive_step-Moves n body c (directive_body n) (λ b. directive_body-Moves n b) f h

pub read_directive-Moves :
    (c : Cursor) → 1 ≤ length c.rest → Moves 1 0 c (λ r. r.1) (read_directive c)
unfolding read_directive
read_directive-Moves c h =
    Moves-and_then 1 0 0 0 c (λ d. d) (λ r. r.1) (bump_byte c) _ (bump_byte-Moves c h)
      (λ c1 m.
        Moves-map 0 0 c1 (λ r. r.1) (λ r. r.1) (directive_body (suc (length c1.rest)) [] c1)
          (λ r. (directive (trim (r.0)), r.1)) (λ r. refl)
          (directive_body-Moves (suc (length c1.rest)) [] c1 (Moved-Fits 1 0 c c1 m) (omega arith)))

int_or_error-Moves :
    (file text : Text) (line k : ℕ) (c : Cursor) (o : Option ℕ)
    → 1 ≤ k
    → k ≤ length c.rest
    → Moves 1 0 c (λ r. r.1) (int_or_error file line text (bump k c) o)
unfolding Moves
int_or_error-Moves file text line k c none pos fit = tt
int_or_error-Moves file text line k c (some v) pos fit = (k, pos, omega arith, refl)

pub read_number-Moves :
    (file : Text) (c : Cursor)
    → 1 ≤ span is_ascii_alphanumeric c.rest
    → Moves 1 0 c (λ r. r.1) (read_number file c)
unfolding read_number
read_number-Moves file c h =
    int_or_error-Moves file (take (span is_ascii_alphanumeric c.rest) c.rest) c.line
      (span is_ascii_alphanumeric c.rest) c
      (number_value (take (span is_ascii_alphanumeric c.rest) c.rest)) h
      (span_le is_ascii_alphanumeric c.rest)

pub read_ident-Moves :
    (c : Cursor) → 1 ≤ span is_name_char c.rest → Moves 1 0 c (λ r. r.1) (ok (read_ident c))
unfolding read_ident
read_ident-Moves c h =
    let fit : span is_name_char c.rest ≤ length c.rest = span_le is_name_char c.rest in
    here-Moves 1 0 (span is_name_char c.rest) c (λ r. r.1) (read_ident c) h (omega arith) refl
