-- ===== src/Csource/Lex/Searches.antt =====
-- The bounds of the searches that native/src/csource/lex.rs moves by.
use click_doom.Base.{
  ℕ, suc, ◌+◌, ◌≤◌, ◌≡◌, refl, Bool, true, [], ◌∷◌, arith, ◌==◌, ◌||◌, if_both, length, Option,
  none, some,
}
use click_doom.Csource.{Text}
use click_doom.Csource.Chars.{
  span, starts_with, find_text, strip_last, first_byte, is_ascii_digit, is_ascii_alphabetic,
  is_ascii_alphanumeric, is_name_char,
}
use click_doom.Csource.Lex.{digraphs, any_starts}

pub span_le : (test : ℕ → Bool) (xs : Text) → span test xs ≤ length xs
span_le test [] = omega arith
span_le test (x ∷ xs) = ground (arith, span_le test xs)

pub span_pos : (test : ℕ → Bool) (x : ℕ) (xs : Text) → test x ≡ true → 1 ≤ span test (x ∷ xs)
span_pos test x xs h = ground (arith, h)

pub starts_with_le : (what xs : Text) → starts_with what xs ≡ true → length what ≤ length xs
starts_with_le [] xs h = omega arith
starts_with_le (w ∷ ws) [] h = absurd (cc h)
starts_with_le (w ∷ ws) (x ∷ xs) h =
    let rest : starts_with ws xs ≡ true = ground (arith, h) in
    omega (arith, starts_with_le ws xs rest)

some-eq : (a b : ℕ) → some a ≡ some b → a ≡ b
some-eq a b h = cc h

pub find_text_le :
    (what xs : Text) (n : ℕ) → find_text what xs ≡ some n → n + length what ≤ length xs
find_text_le what [] n =
    if_both (λ o. o ≡ some n → n + length what ≤ 0) (starts_with what [])
      (λ here e. omega (arith, starts_with_le what [] here, some-eq 0 n e)) (λ _ e. absurd (cc e))
find_text_le what (x ∷ xs) n =
    if_both (λ o. o ≡ some n → n + length what ≤ suc (length xs)) (starts_with what (x ∷ xs))
      (λ here e. omega (arith, starts_with_le what (x ∷ xs) here, some-eq 0 n e))
      (λ _. later (find_text_le what xs) (find_text what xs) refl)
  where
    later :
        ((k : ℕ) → find_text what xs ≡ some k → k + length what ≤ length xs)
        → (o : Option ℕ) → find_text what xs ≡ o
        → elim o [ none ↦ none | some k ↦ some (suc k) ] ≡ some n
        → n + length what ≤ suc (length xs)
    later ih none e h = absurd (cc h)
    later ih (some k) e h = omega (arith, ih k e, some-eq (suc k) n h)

pub any_starts_le : (xs : Text) → any_starts digraphs xs ≡ true → 2 ≤ length xs
any_starts_le [] h = absurd (cc h)
any_starts_le (x ∷ []) h = absurd (ground (arith, h))
any_starts_le (x ∷ y ∷ xs) h = omega arith

-- A backslash at the end is one character at least.
pub strip_last_pos : (what : ℕ) (xs head : Text) → strip_last what xs ≡ some head → 1 ≤ length xs
strip_last_pos what [] head h = absurd (cc h)
strip_last_pos what (x ∷ xs) head h = omega arith

-- A first byte in one of the classes is the character itself.
pub first_byte-digit :
    (c : ℕ) → is_ascii_digit (first_byte c) ≡ true → is_ascii_alphanumeric c ≡ true
first_byte-digit c h = ground arith

pub first_byte-name :
    (c : ℕ)
    → (first_byte c == b'_' || is_ascii_alphabetic (first_byte c)) ≡ true
    → is_name_char c ≡ true
first_byte-name c h = ground arith
