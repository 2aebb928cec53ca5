-- ===== src/Spec/Line/Numbers.antt =====
-- The numbers of a trace line in spec/src/checkpoint.rs are read back as they were printed.
use click_doom.Base.{
  ℕ, zero, suc, ◌+◌, ◌-◌, ◌*◌, ◌/◌, ◌%◌, ◌^◌, ◌≤◌, ◌<◌, ◌≡◌, refl, ap, ◌∙◌, Bool, true, false, not,
  ◌||◌, Option, none, some, [], ◌∷◌, ◌++◌, arith, ltb, leb, ◌==◌, if_both, if◌then◌else◌, length,
  length-append, All, All-append, Outcome, ok,
}
use click_doom.Csource.{Text}
use click_doom.Csource.Chars.{digit_value, read_digits, at_most, from_str_radix}
use click_doom.Csource.Table.Laws.{text_eq_refl}
use click_doom.Csource.Table.{text_eq}
use click_doom.Spec.Line.{
  ParseCheckpointError, decimal_digits, to_string, hex_digit, hex_digits, is_lower_hex,
  all_lower_hex, hex_or_error, hex, parse_u64, same_spelling, parse_count,
}
use native.Mathlib.Numerals.{towards_suc}
use native.Mathlib.Nat.{mul-suc, pow-suc}
use Prim.Native.String.{String}

-- Two readers under one test.
under_test :
    (b : Bool) (x y : Option ℕ) (v w : ℕ)
    → (if b then x else none) ≡ some v
    → (x ≡ some v → y ≡ some w)
    → (if b then y else none) ≡ some w
under_test true x y v w h f = f h
under_test false x y v w h f = absurd (cc h)

-- One more digit at the end.
read_digits-snoc :
    (radix v w : ℕ) (xs : Text) (c : ℕ)
    → digit_value c < radix
    → read_digits radix v xs ≡ some w
    → read_digits radix v (xs ++ (c ∷ [])) ≡ some (w * radix + digit_value c)
read_digits-snoc radix v w [] c d h =
    let same : v ≡ w = cc h in
    if_both {A = Option ℕ} (λ o. o ≡ some (w * radix + digit_value c)) (ltb (digit_value c) radix)
      (λ _. ap (λ n. some (n * radix + digit_value c)) same)
      (λ big. absurd (ground (arith, big, d)))
read_digits-snoc radix v w (x ∷ xs) c d h =
    under_test (ltb (digit_value x) radix) (read_digits radix (v * radix + digit_value x) xs)
      (read_digits radix (v * radix + digit_value x) (xs ++ (c ∷ []))) w (w * radix + digit_value c)
      h (read_digits-snoc radix (v * radix + digit_value x) w xs c d)

digit_value-hex_digit : (d : ℕ) → d < 16 → digit_value (hex_digit d) ≡ d
digit_value-hex_digit d h = ground arith

digit_value-decimal : (d : ℕ) → d < 10 → digit_value (b'0' + d) ≡ d
digit_value-decimal d h = ground arith

pow-step_hex : (n : ℕ) → 2 ^ (4 * suc n) ≡ 16 * 2 ^ (4 * n)
pow-step_hex n = simp (mul-suc, towards_suc, pow-suc) (omega arith)

pow-step_decimal : (n : ℕ) → 10 ^ suc n ≡ 10 * 10 ^ n
pow-step_decimal n = simp (pow-suc) (omega arith)

read_digits-hex_digits : (n v : ℕ) → v < 2 ^ (4 * n) → read_digits 16 0 (hex_digits n v) ≡ some v
unfolding hex_digits
read_digits-hex_digits zero v h = ap some (omega arith)
read_digits-hex_digits (suc n) v h =
    let digit = digit_value-hex_digit (v % 16) (omega arith) in
    read_digits-snoc 16 0 (v / 16) (hex_digits n (v / 16)) (hex_digit (v % 16))
      (omega (arith, digit)) (read_digits-hex_digits n (v / 16) (omega (arith, pow-step_hex n)))
    ∙ ap some (omega (arith, digit))

read_digits-decimal_digits : (n v : ℕ) → v < 10 ^ n → read_digits 10 0 (decimal_digits n v) ≡ some v
unfolding decimal_digits
read_digits-decimal_digits zero v h = ap some (omega arith)
read_digits-decimal_digits (suc n) v h =
    if_both (λ xs. read_digits 10 0 xs ≡ some v) (ltb v 10)
      (λ low.
        let small : v < 10 = ground (arith, low) in
        let digit = digit_value-decimal v small in
        read_digits-snoc 10 0 0 [] (b'0' + v) (omega (arith, digit)) refl
        ∙ ap some (omega (arith, digit)))
      (λ _.
        let digit = digit_value-decimal (v % 10) (omega arith) in
        read_digits-snoc 10 0 (v / 10) (decimal_digits n (v / 10)) (b'0' + v % 10)
          (omega (arith, digit))
          (read_digits-decimal_digits n (v / 10) (omega (arith, pow-step_decimal n)))
        ∙ ap some (omega (arith, digit)))

-- Digits start no text with a tab or a sign.
abbrev pub Digits : Text → Type 0
Digits = All (λ c. b'0' ≤ c)

pub hex_digits-Digits : (n v : ℕ) → Digits (hex_digits n v)
unfolding hex_digits
hex_digits-Digits zero v = tt
hex_digits-Digits (suc n) v =
    All-append (λ c. b'0' ≤ c) (hex_digits n (v / 16)) (hex_digit (v % 16) ∷ [])
      (hex_digits-Digits n (v / 16)) (ground arith, tt)

pub decimal_digits-Digits : (n v : ℕ) → Digits (decimal_digits n v)
unfolding decimal_digits
decimal_digits-Digits zero v = tt
decimal_digits-Digits (suc n) v =
    if_both Digits (ltb v 10) (λ _. (omega arith, tt))
      (λ _.
        All-append (λ c. b'0' ≤ c) (decimal_digits n (v / 10)) ((b'0' + v % 10) ∷ [])
          (decimal_digits-Digits n (v / 10)) (omega arith, tt))

from_str_radix-some :
    (radix max v : ℕ) (xs : Text)
    → 1 ≤ length xs
    → read_digits radix 0 xs ≡ some v
    → v ≤ max
    → from_str_radix radix max xs ≡ some v
from_str_radix-some radix max v [] more h le = absurd (omega arith)
from_str_radix-some radix max v (x ∷ xs) more h le =
    ap (at_most max) h
    ∙ if_both {A = Option ℕ} (λ o. o ≡ some v) (leb v max) (λ _. refl)
        (λ big. absurd (ground (arith, big, le)))

length-hex_digits : (n v : ℕ) → length (hex_digits n v) ≡ n
unfolding hex_digits
length-hex_digits zero v = refl
length-hex_digits (suc n) v = omega (
  arith,
  length-append (hex_digits n (v / 16)) (hex_digit (v % 16) ∷ []),
  length-hex_digits n (v / 16),
)

all_lower_hex-snoc :
    (xs : Text) (c : ℕ)
    → all_lower_hex xs ≡ true
    → is_lower_hex c ≡ true
    → all_lower_hex (xs ++ (c ∷ [])) ≡ true
all_lower_hex-snoc [] c h k = ground (arith, k)
all_lower_hex-snoc (x ∷ xs) c h k =
    let rest : all_lower_hex xs ≡ true = ground (arith, h) in
    ground (arith, h, all_lower_hex-snoc xs c rest k)

all_lower_hex-hex_digits : (n v : ℕ) → all_lower_hex (hex_digits n v) ≡ true
unfolding hex_digits
all_lower_hex-hex_digits zero v = refl
all_lower_hex-hex_digits (suc n) v =
    all_lower_hex-snoc (hex_digits n (v / 16)) (hex_digit (v % 16))
      (all_lower_hex-hex_digits n (v / 16)) (ground arith)

pub hex-hex_digits :
    (field : String) (n v : ℕ)
    → v < 2 ^ (4 * n)
    → v < 2 ^ 64
    → 1 ≤ n
    → hex field (hex_digits n v) n ≡ ok v
unfolding hex
hex-hex_digits field n v h fits more =
    if_both {A = Outcome ParseCheckpointError ℕ} (λ r. r ≡ ok v)
      (not (length (hex_digits n v) == n) || not (all_lower_hex (hex_digits n v)))
      (λ bad. absurd (ground (arith, bad, length-hex_digits n v, all_lower_hex-hex_digits n v)))
      (λ _. ap (hex_or_error field (hex_digits n v) n) (
        from_str_radix-some 16 (2 ^ 64 - 1) v (hex_digits n v)
          (omega (arith, length-hex_digits n v)) (read_digits-hex_digits n v h) (omega arith)))

parse_u64-Digits : (xs : Text) → Digits xs → parse_u64 xs ≡ from_str_radix 10 (2 ^ 64 - 1) xs
parse_u64-Digits [] h = refl
parse_u64-Digits (x ∷ xs) h =
    if_both {A = Option ℕ} (λ o. o ≡ from_str_radix 10 (2 ^ 64 - 1) (x ∷ xs)) (x == b'+')
      (λ sign. absurd (ground (arith, sign, h.0))) (λ _. refl)

decimal_digits_pos : (n v : ℕ) → 1 ≤ length (decimal_digits (suc n) v)
unfolding decimal_digits
decimal_digits_pos n v =
    if_both (λ xs. 1 ≤ length xs) (ltb v 10) {x = (b'0' + v) ∷ []}
      {y = decimal_digits n (v / 10) ++ ((b'0' + v % 10) ∷ [])} (λ _. omega arith)
      (λ _. omega (arith, length-append (decimal_digits n (v / 10)) ((b'0' + v % 10) ∷ [])))

pub parse_count-to_string : (v : ℕ) → v < 2 ^ 64 → parse_count (to_string v) ≡ ok v
unfolding parse_count
parse_count-to_string v h =
    ap (same_spelling (to_string v)) (
      parse_u64-Digits (to_string v) (decimal_digits-Digits 20 v)
      ∙ from_str_radix-some 10 (2 ^ 64 - 1) v (to_string v) (decimal_digits_pos 19 v)
          (read_digits-decimal_digits 20 v (omega arith)) (omega arith))
    ∙ if_both {A = Outcome ParseCheckpointError ℕ} (λ r. r ≡ ok v)
        (text_eq (to_string v) (to_string v)) (λ _. refl)
        (λ differ. absurd (cc (differ, text_eq_refl (to_string v))))
