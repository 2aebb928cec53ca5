-- ===== src/RowBinary.antt =====
-- native/src/resident/rowbinary.rs: the rows of a resident statement. A row is the list of its bytes, a
-- signed value its bit pattern, and a schema the list of its characters.
pub mod Laws
use click_doom.Base.{
  ℕ, zero, suc, ◌+◌, ◌-◌, ◌*◌, ◌/◌, ◌%◌, ◌^◌, Bool, true, false, not, ◌&&◌, ◌||◌, Option, none,
  some, List, [], ◌∷◌, ◌++◌, bit_and, bit_or, ◌==◌, if◌then◌else◌, length, replicate, take, drop,
  Outcome, ok, err, panic, and_then,
}
use click_doom.Csource.{Text}
use click_doom.Csource.Chars.{is_whitespace, trim, split}
use click_doom.Csource.Table.{text_eq}

abbrev pub Row : Type 0
Row = List ℕ

unfoldable pub new : Row
new = []

-- The bytes of a number, low first.
abbrev pub le_bytes : ℕ → ℕ → List ℕ
le_bytes zero v = []
le_bytes (suc n) v = v % 256 ∷ le_bytes n (v / 256)

unfoldable pub put_u8 : Row → ℕ → Row
put_u8 row v = row ++ le_bytes 1 v

unfoldable pub put_i8 : Row → ℕ → Row
put_i8 row v = row ++ le_bytes 1 v

unfoldable pub put_u16 : Row → ℕ → Row
put_u16 row v = row ++ le_bytes 2 v

unfoldable pub put_i16 : Row → ℕ → Row
put_i16 row v = row ++ le_bytes 2 v

unfoldable pub put_u32 : Row → ℕ → Row
put_u32 row v = row ++ le_bytes 4 v

unfoldable pub put_i32 : Row → ℕ → Row
put_i32 row v = row ++ le_bytes 4 v

unfoldable pub put_u64 : Row → ℕ → Row
put_u64 row v = row ++ le_bytes 8 v

unfoldable pub put_i64 : Row → ℕ → Row
put_i64 row v = row ++ le_bytes 8 v

-- The loop of `put_leb128`, which ten rounds end for every `u64`.
abbrev pub leb128_step : ℕ → (ℕ → Option (List ℕ)) → Option (List ℕ)
leb128_step value again =
    let group = bit_and value 0x7F in
    if value / 2 ^ 7 == 0
    then some (group ∷ [])
    else elim (again (value / 2 ^ 7)) [ none ↦ none | some rest ↦ some (bit_or 0x80 group ∷ rest) ]

unfoldable pub leb128 : ℕ → ℕ → Option (List ℕ)
leb128 zero value = none
leb128 (suc n) value = leb128_step value (leb128 n)

abbrev pub or_no_rounds : Row → Option (List ℕ) → Option Row
or_no_rounds row none = none
or_no_rounds row (some bs) = some (row ++ bs)

unfoldable pub put_leb128 : Row → ℕ → Option Row
put_leb128 row value = or_no_rounds row (leb128 10 value)

abbrev pub then_bytes : List ℕ → Option Row → Option Row
then_bytes value none = none
then_bytes value (some row) = some (row ++ value)

unfoldable pub put_bytes : Row → List ℕ → Option Row
put_bytes row value = then_bytes value (put_leb128 row (length value % 2 ^ 64))

pub data ColumnType : Type 0 where
  fixed : ℕ → ColumnType
  text : ColumnType

pub data SchemaError : Type 0 where
  shape : Text → SchemaError
  bad_type : Text → Text → SchemaError
  no_text : SchemaError

abbrev pub padding_bytes : ℕ
padding_bytes = 128

-- `UInt8`, `Int8`, …, `String`.
abbrev pub sized : Text → Text → Text → Bool
sized digits prefix type_name = text_eq type_name (prefix ++ (b'I' ∷ b'n' ∷ b't' ∷ digits))

abbrev pub is_int : Text → Text → Bool
is_int digits type_name = sized digits (b'U' ∷ []) type_name || sized digits [] type_name

abbrev pub string_word : Text
string_word = b'S' ∷ b't' ∷ b'r' ∷ b'i' ∷ b'n' ∷ b'g' ∷ []

unfoldable pub column_type : Text → Option ColumnType
column_type type_name =
    if is_int (b'8' ∷ []) type_name
    then some (fixed 1)
    else if is_int (b'1' ∷ b'6' ∷ []) type_name
    then some (fixed 2)
    else if is_int (b'3' ∷ b'2' ∷ []) type_name
    then some (fixed 4)
    else if is_int (b'6' ∷ b'4' ∷ []) type_name
    then some (fixed 8)
    else if text_eq type_name string_word
    then some text
    else none

-- What follows the last whitespace: the second half of `rsplit_once`.
abbrev pub after_space : Text → Option Text
after_space [] = none
after_space (c ∷ cs) = elim (after_space cs) [
  | some t ↦ some t
  | none ↦ if is_whitespace c then some cs else none
]

abbrev pub column_of_type : Text → Text → Option ColumnType → Outcome SchemaError ColumnType
column_of_type column type_name none = err (bad_type column type_name)
column_of_type column type_name (some t) = ok t

abbrev pub column_of : Text → Option Text → Outcome SchemaError ColumnType
column_of column none = err (shape column)
column_of column (some type_name) = column_of_type column type_name (column_type type_name)

abbrev pub is_blank : Text → Bool
is_blank [] = true
is_blank (c ∷ cs) = false

abbrev pub push_column : ColumnType → List ColumnType → Outcome SchemaError (List ColumnType)
push_column t ts = ok (t ∷ ts)

unfoldable pub columns_of : List Text → Outcome SchemaError (List ColumnType)
columns_of [] = ok []
columns_of (p ∷ ps) =
    let column = trim p in
    let rest = columns_of ps in
    if is_blank column
    then rest
    else and_then (column_of column (after_space column)) (λ t. and_then rest (push_column t))

unfoldable pub parse_schema : Text → Outcome SchemaError (List ColumnType)
parse_schema input_schema = columns_of (split b',' input_schema)

abbrev pub has_text : List ColumnType → Bool
has_text [] = false
has_text (fixed w ∷ ts) = has_text ts
has_text (text ∷ ts) = true

abbrev pub put_zeros : ℕ → Row → Row
put_zeros zero row = row
put_zeros (suc n) row = put_zeros n (put_u8 row 0)

abbrev pub put_column : ColumnType → Row → Option Row
put_column (fixed width) row = some (put_zeros width row)
put_column text row = put_bytes row (replicate padding_bytes b'0')

-- `none` where `put_leb128` has no round left.
abbrev pub next_column : (Row → Option Row) → Option Row → Option Row
next_column rest none = none
next_column rest (some row) = rest row

unfoldable pub put_columns : List ColumnType → Row → Option Row
put_columns [] row = some row
put_columns (t ∷ ts) row = next_column (put_columns ts) (put_column t row)

abbrev pub padded : List ColumnType → Outcome SchemaError (Option Row)
padded columns = if has_text columns then ok (put_columns columns new) else err no_text

unfoldable pub padding_row : Text → Outcome SchemaError (Option Row)
padding_row input_schema = and_then (parse_schema input_schema) padded
