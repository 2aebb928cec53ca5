-- ===== src/Csource/Chars.antt =====
-- What native/src/csource/lex.rs uses of `char` and `str`: classes of characters, the searches and
-- the trims, and the reading of digits.
use click_doom.Base.{
  ℕ, suc, ◌+◌, ◌-◌, ◌*◌, ◌/◌, Bool, true, false, ◌&&◌, ◌||◌, Option, none, some, List, [], ◌∷◌, ltb,
  leb, ◌==◌, if◌then◌else◌, drop, length,
}
use click_doom.Csource.{Text}

-- `char::is_whitespace`.
abbrev pub is_whitespace : ℕ → Bool
is_whitespace c =
    leb 9 c && leb c 13
    || c == 32
    || c == 0x85
    || c == 0xA0
    || c == 0x1680
    || leb 0x2000 c && leb c 0x200A
    || c == 0x2028
    || c == 0x2029
    || c == 0x202F
    || c == 0x205F
    || c == 0x3000

abbrev pub is_ascii_digit : ℕ → Bool
is_ascii_digit c = leb b'0' c && leb c b'9'

abbrev pub is_ascii_alphabetic : ℕ → Bool
is_ascii_alphabetic c = leb b'a' c && leb c b'z' || leb b'A' c && leb c b'Z'

abbrev pub is_ascii_alphanumeric : ℕ → Bool
is_ascii_alphanumeric c = is_ascii_digit c || is_ascii_alphabetic c

abbrev pub is_name_char : ℕ → Bool
is_name_char c = c == b'_' || is_ascii_alphanumeric c

-- `find` of the first character that fails the test, or the length.
abbrev pub span : (ℕ → Bool) → Text → ℕ
span test [] = 0
span test (c ∷ cs) = let rest = span test cs in if test c then suc rest else 0

abbrev pub starts_with : Text → Text → Bool
starts_with [] text = true
starts_with (c ∷ cs) [] = false
starts_with (c ∷ cs) (d ∷ ds) = let rest = starts_with cs ds in c == d && rest

-- `find` of a text: the characters before its first occurrence.
abbrev pub find_text : Text → Text → Option ℕ
find_text what [] = if starts_with what [] then some 0 else none
find_text what (c ∷ cs) =
    let rest = find_text what cs in
    if starts_with what (c ∷ cs) then some 0 else elim rest [ none ↦ none | some n ↦ some (suc n) ]

abbrev pub strip_prefix : Text → Text → Option Text
strip_prefix what text = if starts_with what text then some (drop (length what) text) else none

abbrev pub trim_end_matches : (ℕ → Bool) → Text → Text
trim_end_matches test [] = []
trim_end_matches test (c ∷ cs) = elim (trim_end_matches test cs) [
  | [] ↦ if test c then [] else c ∷ []
  | d ∷ ds ↦ c ∷ d ∷ ds
]

abbrev pub trim_start : Text → Text
trim_start text = drop (span is_whitespace text) text

abbrev pub trim : Text → Text
trim text = trim_end_matches is_whitespace (trim_start text)

-- `strip_suffix` of a character.
abbrev pub strip_last : ℕ → Text → Option Text
strip_last what [] = none
strip_last what (c ∷ cs) =
    let rest = strip_last what cs in
    elim cs [
      | [] ↦ if c == what then some [] else none
      | d ∷ ds ↦ elim rest [ none ↦ none | some head ↦ some (c ∷ head) ]
    ]

abbrev pub newlines : Text → ℕ
newlines [] = 0
newlines (c ∷ cs) = let rest = newlines cs in if c == 10 then suc rest else rest

-- The first byte of a character's UTF-8.
abbrev pub first_byte : ℕ → ℕ
first_byte c =
    if ltb c 0x80
    then c
    else if ltb c 0x800
    then 0xC0 + c / 0x40
    else if ltb c 0x10000
    then 0xE0 + c / 0x1000
    else 0xF0 + c / 0x40000

-- `from_str_radix`, of a text with no sign: `none` of no digits, of a character that is no digit and
-- of a number above the type's largest.
abbrev pub digit_value : ℕ → ℕ
digit_value c =
    if is_ascii_digit c
    then c - b'0'
    else if leb b'a' c && leb c b'z'
    then c - b'a' + 10
    else if leb b'A' c && leb c b'Z'
    then c - b'A' + 10
    else 36

abbrev pub read_digits : ℕ → ℕ → Text → Option ℕ
read_digits radix value [] = some value
read_digits radix value (c ∷ cs) =
    let rest = read_digits radix (value * radix + digit_value c) cs in
    if ltb (digit_value c) radix then rest else none

abbrev pub at_most : ℕ → Option ℕ → Option ℕ
at_most max none = none
at_most max (some v) = if leb v max then some v else none

abbrev pub from_str_radix : ℕ → ℕ → Text → Option ℕ
from_str_radix radix max [] = none
from_str_radix radix max (c ∷ cs) = at_most max (read_digits radix 0 (c ∷ cs))

-- `split` at a character: one piece at least.
abbrev pub into_first : ℕ → List Text → List Text
into_first c [] = (c ∷ []) ∷ []
into_first c (p ∷ ps) = (c ∷ p) ∷ ps

abbrev pub split : ℕ → Text → List Text
split sep [] = [] ∷ []
split sep (c ∷ cs) = let rest = split sep cs in if c == sep then [] ∷ rest else into_first c rest
