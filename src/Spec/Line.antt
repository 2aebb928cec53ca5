-- ===== src/Spec/Line.antt =====
-- spec/src/checkpoint.rs: printing and parsing a line of the trace. A line is the list of its
-- characters; the decimal count has at most the 20 digits of a `u64`.
pub mod Numbers
pub mod Laws
use click_doom.Base.{
  ℕ, zero, suc, ◌+◌, ◌-◌, ◌*◌, ◌/◌, ◌%◌, ◌^◌, Bool, true, false, not, ◌&&◌, ◌||◌, Option, none,
  some, List, [], ◌∷◌, ◌++◌, ltb, leb, ◌==◌, if◌then◌else◌, length, Outcome, ok, err, panic,
  and_then,
}
use click_doom.Spec.Checkpoint.{Checkpoint}
use click_doom.Csource.{Text}
use click_doom.Csource.Chars.{is_ascii_digit, from_str_radix, split}
use click_doom.Csource.Table.{text_eq}
use Prim.Native.String.{String}

-- `field_count`.
unfoldable pub field_count : Checkpoint → ℕ
field_count c = elim (c.ramhash) [ none ↦ 3 | some v ↦ 5 ]

-- `{}` of a count.
abbrev pub decimal_step : ℕ → (ℕ → Text) → Text
decimal_step v again =
    if ltb v 10 then (b'0' + v) ∷ [] else again (v / 10) ++ ((b'0' + v % 10) ∷ [])

unfoldable pub decimal_digits : ℕ → ℕ → Text
decimal_digits zero v = []
decimal_digits (suc n) v = decimal_step v (decimal_digits n)

abbrev pub to_string : ℕ → Text
to_string v = decimal_digits 20 v

-- `{:08x}` and `{:016x}`, of numbers that have no more digits.
abbrev pub hex_digit : ℕ → ℕ
hex_digit d = if ltb d 10 then b'0' + d else b'a' + d - 10

unfoldable pub hex_digits : ℕ → ℕ → Text
hex_digits zero v = []
hex_digits (suc n) v = hex_digits n (v / 16) ++ (hex_digit (v % 16) ∷ [])

abbrev pub tab : ℕ
tab = 9

abbrev pub hash_field : Option ℕ → Text
hash_field none = []
hash_field (some v) = tab ∷ hex_digits 16 v

unfoldable pub display : Checkpoint → Text
display c =
    to_string c.icount
    ++ (tab
        ∷ (hex_digits 8 c.pc
            ++ (tab ∷ (hex_digits 16 c.reghash ++ (hash_field c.ramhash ++ hash_field c.fbhash)))))

pub data ParseCheckpointError : Type 0 where
  bad_field_count : ℕ → ParseCheckpointError
  bad_field : String → Text → String → ParseCheckpointError

abbrev pub is_lower_hex : ℕ → Bool
is_lower_hex b = is_ascii_digit b || leb b'a' b && leb b b'f'

abbrev pub all_lower_hex : Text → Bool
all_lower_hex [] = true
all_lower_hex (b ∷ bs) = let rest = all_lower_hex bs in is_lower_hex b && rest

abbrev pub expected_digits : ℕ → String
expected_digits digits = if digits == 8 then "8 lowercase hex digits" else "16 lowercase hex digits"

abbrev pub hex_or_error : String → Text → ℕ → Option ℕ → Outcome ParseCheckpointError ℕ
hex_or_error field value digits none = err (bad_field field value (expected_digits digits))
hex_or_error field value digits (some v) = ok v

unfoldable pub hex : String → Text → ℕ → Outcome ParseCheckpointError ℕ
hex field value digits =
    if not (length value == digits) || not (all_lower_hex value)
    then err (bad_field field value (expected_digits digits))
    else hex_or_error field value digits (from_str_radix 16 (2 ^ 64 - 1) value)

-- `parse::<u64>`, which takes a sign `+`.
abbrev pub parse_u64 : Text → Option ℕ
parse_u64 [] = none
parse_u64 (c ∷ cs) =
    if c == b'+' then from_str_radix 10 (2 ^ 64 - 1) cs else from_str_radix 10 (2 ^ 64 - 1) (c ∷ cs)

abbrev pub same_spelling : Text → Option ℕ → Outcome ParseCheckpointError ℕ
same_spelling field none = err (bad_field "icount" field "a decimal count")
same_spelling field (some v) =
    if text_eq field (to_string v)
    then ok v
    else err (bad_field "icount" field "a decimal count without padding")

unfoldable pub parse_count : Text → Outcome ParseCheckpointError ℕ
parse_count field = same_spelling field (parse_u64 field)

-- The first three fields, with the two hashes that follow or do not.
abbrev pub parse_fields :
    Text
    → Text
    → Text
    → (ℕ → ℕ → ℕ → Outcome ParseCheckpointError Checkpoint)
    → Outcome ParseCheckpointError Checkpoint
parse_fields f0 f1 f2 last = and_then (parse_count f0) (λ icount.
    and_then (hex "pc" f1 8)
      (λ pc. and_then (hex "reghash" f2 16) (λ reghash. last icount (pc % 2 ^ 32) reghash)))

abbrev pub no_hashes : ℕ → ℕ → ℕ → Outcome ParseCheckpointError Checkpoint
no_hashes icount pc reghash =
    ok (record { icount = icount; pc = pc; reghash = reghash; ramhash = none; fbhash = none })

abbrev pub two_hashes : Text → Text → ℕ → ℕ → ℕ → Outcome ParseCheckpointError Checkpoint
two_hashes f3 f4 icount pc reghash = and_then (hex "ramhash" f3 16) (λ ramhash.
    and_then (hex "fbhash" f4 16) (λ fbhash. ok (record {
      icount = icount;
      pc = pc;
      reghash = reghash;
      ramhash = some ramhash;
      fbhash = some fbhash;
    })))

unfoldable pub from_fields : List Text → Outcome ParseCheckpointError Checkpoint
from_fields (f0 ∷ f1 ∷ f2 ∷ []) = parse_fields f0 f1 f2 no_hashes
from_fields (f0 ∷ f1 ∷ f2 ∷ f3 ∷ f4 ∷ []) = parse_fields f0 f1 f2 (two_hashes f3 f4)
from_fields fields = err (bad_field_count (length fields))

unfoldable pub from_str : Text → Outcome ParseCheckpointError Checkpoint
from_str line = from_fields (split tab line)
