-- ===== src/RowBinary/Laws.antt =====
-- LEB128 counts and padding rows of native/src/resident/rowbinary.rs.
use click_doom.Base.{
  ℕ, zero, suc, ◌+◌, ◌-◌, ◌*◌, ◌/◌, ◌%◌, ◌^◌, ◌≤◌, ◌<◌, ◌≡◌, refl, sym, ap, ◌∙◌, subst, true, false,
  Option, none, some, List, [], ◌∷◌, ◌++◌, arith, ltb, bit_and, bit_or, ◌==◌, if_both,
  if◌then◌else◌, length, length-append, length-replicate, replicate, Outcome, ok, err, panic,
  and_then,
}
use click_doom.Word.Bits.{bit_and-mask, bit_or-fields}
use click_doom.Csource.{Text}
use mathlib.Core.List.{append_assoc}
use native.Mathlib.Numerals.{towards_suc}
use native.Mathlib.Nat.{mul-suc, pow-suc}
use click_doom.RowBinary.{
  Row, new, put_u8, leb128_step, leb128, or_no_rounds, put_leb128, then_bytes, put_bytes,
  ColumnType, fixed, text, SchemaError, no_text, padding_bytes, parse_schema, has_text, put_zeros,
  put_column, next_column, put_columns, padded, padding_row,
}

-- LEB128 as a reader takes it: seven bits of each byte, low first, up to a byte below 128.
abbrev pub more_bits : ℕ → Option (ℕ × List ℕ) → Option (ℕ × List ℕ)
more_bits b none = none
more_bits b (some (v, rest)) = some (b - 128 + 128 * v, rest)

abbrev pub read_leb128 : List ℕ → Option (ℕ × List ℕ)
read_leb128 [] = none
read_leb128 (b ∷ bs) =
    let later = read_leb128 bs in if ltb b 128 then some (b, bs) else more_bits b later

-- Bytes that are read back as the value, in front of any others.
abbrev pub Encodes : ℕ → ℕ → Option (List ℕ) → Type 0
Encodes n v none = ⊥
Encodes n v (some bs) =
    (length bs ≤ n) × ((rest : List ℕ) → read_leb128 (bs ++ rest) ≡ some (v, rest))

group_eq : (v : ℕ) → bit_and v 0x7F ≡ v % 128
group_eq v = bit_and-mask 7 v

marked_eq : (v : ℕ) → bit_or 0x80 (bit_and v 0x7F) ≡ 128 + v % 128
marked_eq v = ap (bit_or 0x80) (group_eq v) ∙ bit_or-fields 7 1 (v % 128) (omega arith)

last_group : (n v : ℕ) → v / 2 ^ 7 ≡ 0 → Encodes (suc n) v (some (bit_and v 0x7F ∷ []))
last_group n v h = (
  omega arith,
  λ rest.
      if_both {A = Option (ℕ × List ℕ)} (λ o. o ≡ some (v, rest)) (ltb (bit_and v 0x7F) 128)
        (λ _. ap (λ x. some (x, rest)) (omega (arith, group_eq v, h)))
        (λ big. absurd (ground (arith, big, group_eq v))),
)

marked_group :
    (n v : ℕ) (o : Option (List ℕ))
    → Encodes n (v / 2 ^ 7) o
    → Encodes
        (suc n)
        v
        (elim o [ none ↦ none | some bs ↦ some (bit_or 0x80 (bit_and v 0x7F) ∷ bs) ])
marked_group n v none h = h
marked_group n v (some bs) (size, back) = (
  omega (arith, size),
  λ rest.
      if_both {A = Option (ℕ × List ℕ)} (λ o. o ≡ some (v, rest))
        (ltb (bit_or 0x80 (bit_and v 0x7F)) 128)
        (λ small. absurd (ground (arith, small, marked_eq v)))
        (λ _.
          ap (more_bits (bit_or 0x80 (bit_and v 0x7F))) (back rest)
          ∙ ap (λ x. some (x, rest)) (omega (arith, marked_eq v))),
)

pow-step : (n : ℕ) → 2 ^ (7 * suc n) ≡ 128 * 2 ^ (7 * n)
pow-step n = simp (mul-suc, towards_suc, pow-suc) (omega arith)

leb128-Encodes_step :
    (n v : ℕ) (again : ℕ → Option (List ℕ))
    → (1 ≤ v / 2 ^ 7 → Encodes n (v / 2 ^ 7) (again (v / 2 ^ 7)))
    → Encodes (suc n) v (leb128_step v again)
leb128-Encodes_step n v again next =
    if_both (Encodes (suc n) v) (v / 2 ^ 7 == 0) (λ last. last_group n v (ground (arith, last)))
      (λ more. marked_group n v (again (v / 2 ^ 7)) (next (ground (arith, more))))

leb128-Encodes : (n v : ℕ) → v < 2 ^ (7 * n) → 1 ≤ n → Encodes n v (leb128 n v)
unfolding leb128
leb128-Encodes zero v h more = absurd (omega arith)
leb128-Encodes (suc zero) v h more =
    leb128-Encodes_step 0 v (leb128 0) (λ high. absurd (omega arith))
leb128-Encodes (suc (suc n)) v h more =
    leb128-Encodes_step (suc n) v (leb128 (suc n))
      (λ _. leb128-Encodes (suc n) (v / 2 ^ 7) (omega (arith, pow-step (suc n))) (omega arith))

-- What is read back from the row where `put_leb128` and `put_slice` put a text.
unfoldable pub ReadsBack : Row → List ℕ → Option Row → Type 0
ReadsBack row value none = ⊥
ReadsBack row value (some new_row) =
    (count : List ℕ) × (new_row ≡ row ++ (count ++ value))
    × (length count ≤ 10)
    × (read_leb128 (count ++ value) ≡ some (length value, value))

bytes-ReadsBack :
    (row value : List ℕ) (o : Option (List ℕ))
    → Encodes 10 (length value) o
    → ReadsBack row value (then_bytes value (or_no_rounds row o))
unfolding ReadsBack
bytes-ReadsBack row value none h = h
bytes-ReadsBack row value (some count) (size, back) =
    (count, append_assoc row count value, size, back value)

-- `bytes` ends for every text of less than 2 ^ 64 bytes: behind the row come at most ten bytes, which
-- a reader of LEB128 takes for the length of the text and leaves the text.
pub put_bytes-ReadsBack :
    (row value : List ℕ) → length value < 2 ^ 64 → ReadsBack row value (put_bytes row value)
unfolding put_bytes put_leb128
put_bytes-ReadsBack row value h =
    let same : length value % 2 ^ 64 ≡ length value = omega arith in
    subst (λ n. ReadsBack row value (then_bytes value (or_no_rounds row (leb128 10 n)))) (sym same)
      (bytes-ReadsBack row value (leb128 10 (length value))
        (leb128-Encodes 10 (length value) (omega arith) (omega arith)))

-- The bytes that a column of the padding row takes.
abbrev pub width_of : ColumnType → ℕ
width_of (fixed w) = w
width_of text = 2 + padding_bytes

abbrev pub widths : List ColumnType → ℕ
widths [] = 0
widths (t ∷ ts) = width_of t + widths ts

unfoldable pub HasLength : ℕ → Option Row → Type 0
HasLength n none = ⊥
HasLength n (some row) = length row ≡ n

length-put_zeros : (w : ℕ) (row : Row) → length (put_zeros w row) ≡ length row + w
unfolding put_u8
length-put_zeros zero row = omega arith
length-put_zeros (suc w) row =
    omega (arith, length-put_zeros w (put_u8 row 0), length-append row (0 ∷ []))

abbrev padding : List ℕ
padding = replicate padding_bytes b'0'

put_column-HasLength :
    (t : ColumnType) (row : Row) → HasLength (length row + width_of t) (put_column t row)
unfolding HasLength put_bytes put_leb128 leb128
put_column-HasLength (fixed w) row = length-put_zeros w row
put_column-HasLength text row = omega (
  arith,
  length-append (row ++ (0x80 ∷ 1 ∷ [])) padding,
  length-append row (0x80 ∷ 1 ∷ []),
  length-replicate {A = ℕ} padding_bytes b'0',
)

put_columns-HasLength :
    (ts : List ColumnType) (row : Row) → HasLength (length row + widths ts) (put_columns ts row)
unfolding HasLength put_columns
put_columns-HasLength [] row = omega arith
put_columns-HasLength (t ∷ ts) row =
    next (put_column t row) (put_column-HasLength t row) (put_columns-HasLength ts)
  where
    next :
        (o : Option Row)
        → HasLength (length row + width_of t) o
        → ((r : Row) → HasLength (length r + widths ts) (put_columns ts r))
        → HasLength (length row + (width_of t + widths ts)) (next_column (put_columns ts) o)
    next none h ih = h
    next (some r) h ih = subst (λ n. HasLength n (put_columns ts r)) (omega (arith, h)) (ih r)

-- A column of the schema is a `String`.
unfoldable pub HasString : List ColumnType → Type 0
HasString [] = ⊥
HasString (fixed w ∷ ts) = HasString ts
HasString (text ∷ ts) = Unit

has_text-HasString : (ts : List ColumnType) → has_text ts ≡ true → HasString ts
unfolding HasString
has_text-HasString [] h = absurd (cc h)
has_text-HasString (fixed w ∷ ts) h = has_text-HasString ts h
has_text-HasString (text ∷ ts) h = tt

has_text-no_String : (ts : List ColumnType) → has_text ts ≡ false → ¬ HasString ts
unfolding HasString
has_text-no_String [] h s = s
has_text-no_String (fixed w ∷ ts) h s = has_text-no_String ts h s
has_text-no_String (text ∷ ts) h s = absurd (cc h)

has_text_le : (ts : List ColumnType) → has_text ts ≡ true → padding_bytes ≤ widths ts
has_text_le [] h = absurd (cc h)
has_text_le (fixed w ∷ ts) h = omega (arith, has_text_le ts h)
has_text_le (text ∷ ts) h = omega arith

-- A padding row is made for a schema with a `String`; it has the bytes of its columns, and so the 128
-- that it is for. Without a `String` the error says so.
unfoldable pub Pads :
    Outcome SchemaError (List ColumnType) → Outcome SchemaError (Option Row) → Type 0
Pads (ok columns) (ok o) =
    HasString columns × HasLength (widths columns) o × (padding_bytes ≤ widths columns)
Pads (ok columns) (err e) = (¬ HasString columns) × (e ≡ no_text)
Pads (ok columns) panic = ⊥
Pads (err e) r = r ≡ err e
Pads panic r = r ≡ panic

padded-Pads :
    (columns : Outcome SchemaError (List ColumnType)) → Pads columns (and_then columns padded)
unfolding Pads new
padded-Pads (ok columns) =
    if_both (Pads (ok columns)) (has_text columns)
      (λ h. (
        has_text-HasString columns h,
        subst (λ n. HasLength n (put_columns columns [])) (omega arith)
            (put_columns-HasLength columns []),
        has_text_le columns h,
      ))
      (λ none_of_them. (has_text-no_String columns none_of_them, refl))
padded-Pads (err e) = refl
padded-Pads panic = refl

-- `padding_row` gives, for a schema that parses and has a `String`, a row of the widths of its
-- columns, 130 for each `String`, which is 128 bytes at least; a schema that parses and
-- has no `String` gives the error `no_text`, and an error of the schema is its own.
pub padding_row-Pads :
    (input_schema : Text) → Pads (parse_schema input_schema) (padding_row input_schema)
unfolding padding_row
padding_row-Pads input_schema = padded-Pads (parse_schema input_schema)
