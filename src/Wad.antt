-- ===== src/Wad.antt =====
-- native/src/wad: reading a WAD's header and directory into lumps. A name is the list of its bytes:
-- `str::from_utf8` accepts every run of printable ASCII. An `i32` is kept as its bit pattern. The
-- checksum is not modelled.
pub mod Entries
pub mod Laws
pub mod Find
use click_doom.Base.{
  ℕ, zero, suc, ◌+◌, ◌-◌, ◌*◌, ◌/◌, ◌^◌, Bool, true, false, not, ◌&&◌, ◌||◌, Option, none, some,
  List, [], ◌∷◌, ltb, leb, ◌==◌, if◌then◌else◌, length, take, drop, Outcome, ok, err, panic,
}
use click_doom.Memory.{from_le_bytes}

abbrev pub Name : Type 0
Name = List ℕ

pub data WadError : Type 0 where
  header_too_short : ℕ → WadError
  bad_magic : List ℕ → WadError
  negative_lump_count : ℕ → WadError
  negative_directory_offset : ℕ → WadError
  directory_out_of_range : ℕ → ℕ → ℕ → WadError
  negative_lump_extent : ℕ → ℕ → ℕ → WadError
  lump_out_of_range : ℕ → Name → ℕ → ℕ → ℕ → WadError
  bad_name : ℕ → List ℕ → WadError
  orphan_map_lump : ℕ → Name → WadError

pub data WadKind : Type 0 where
  iwad pwad : WadKind

pub record Lump : Type 0 where
  pub index : ℕ
  pub name : Name
  pub map_marker : Name
  pub bytes : List ℕ

pub record Wad : Type 0 where
  pub kind : WadKind
  pub lumps : List Lump

abbrev pub bytes_eq : List ℕ → List ℕ → Bool
bytes_eq [] [] = true
bytes_eq [] (y ∷ ys) = false
bytes_eq (x ∷ xs) [] = false
bytes_eq (x ∷ xs) (y ∷ ys) = let rest = bytes_eq xs ys in x == y && rest

-- `name::read`.
abbrev pub is_ascii_graphic : ℕ → Bool
is_ascii_graphic b = leb 0x21 b && leb b 0x7E

abbrev pub all_bytes : (ℕ → Bool) → List ℕ → Bool
all_bytes test [] = true
all_bytes test (b ∷ bs) = let rest = all_bytes test bs in test b && rest

abbrev pub name_end : List ℕ → ℕ
name_end [] = 0
name_end (b ∷ bs) = let rest = name_end bs in if b == 0 then 0 else suc rest

unfoldable pub read_name : ℕ → List ℕ → Outcome WadError Name
read_name index field =
    let end = name_end field in
    let bad_padding = not (all_bytes (λ b. b == 0) (drop end field)) in
    let bad_chars = not (all_bytes is_ascii_graphic (take end field)) in
    if end == 0 || bad_padding || bad_chars then err (bad_name index field) else ok (take end field)

-- `marker`: `ExMy`, `MAPxx` and the ten names of a map's lumps.
abbrev pub is_ascii_digit : ℕ → Bool
is_ascii_digit b = leb 0x30 b && leb b 0x39

unfoldable pub is_marker : Name → Bool
is_marker (b0 ∷ b1 ∷ b2 ∷ b3 ∷ []) =
    b0 == 0x45 && is_ascii_digit b1 && b2 == 0x4D && is_ascii_digit b3
is_marker (b0 ∷ b1 ∷ b2 ∷ b3 ∷ b4 ∷ []) =
    b0 == 0x4D && b1 == 0x41 && b2 == 0x50 && is_ascii_digit b3 && is_ascii_digit b4
is_marker _ = false

-- `THINGS`, `LINEDEFS`, `SIDEDEFS`, `VERTEXES`, `SEGS`, `SSECTORS`, `NODES`, `SECTORS`, `REJECT` and
-- `BLOCKMAP`.
abbrev pub map_lumps : List Name
map_lumps =
    (0x54 ∷ 0x48 ∷ 0x49 ∷ 0x4E ∷ 0x47 ∷ 0x53 ∷ [])
    ∷ (0x4C ∷ 0x49 ∷ 0x4E ∷ 0x45 ∷ 0x44 ∷ 0x45 ∷ 0x46 ∷ 0x53 ∷ [])
    ∷ (0x53 ∷ 0x49 ∷ 0x44 ∷ 0x45 ∷ 0x44 ∷ 0x45 ∷ 0x46 ∷ 0x53 ∷ [])
    ∷ (0x56 ∷ 0x45 ∷ 0x52 ∷ 0x54 ∷ 0x45 ∷ 0x58 ∷ 0x45 ∷ 0x53 ∷ [])
    ∷ (0x53 ∷ 0x45 ∷ 0x47 ∷ 0x53 ∷ [])
    ∷ (0x53 ∷ 0x53 ∷ 0x45 ∷ 0x43 ∷ 0x54 ∷ 0x4F ∷ 0x52 ∷ 0x53 ∷ [])
    ∷ (0x4E ∷ 0x4F ∷ 0x44 ∷ 0x45 ∷ 0x53 ∷ [])
    ∷ (0x53 ∷ 0x45 ∷ 0x43 ∷ 0x54 ∷ 0x4F ∷ 0x52 ∷ 0x53 ∷ [])
    ∷ (0x52 ∷ 0x45 ∷ 0x4A ∷ 0x45 ∷ 0x43 ∷ 0x54 ∷ [])
    ∷ (0x42 ∷ 0x4C ∷ 0x4F ∷ 0x43 ∷ 0x4B ∷ 0x4D ∷ 0x41 ∷ 0x50 ∷ [])
    ∷ []

abbrev pub contains : List Name → Name → Bool
contains [] name = false
contains (n ∷ ns) name = let rest = contains ns name in bytes_eq n name || rest

unfoldable pub is_map_lump : Name → Bool
is_map_lump name = contains map_lumps name

-- A slice `bytes[start..end]`, if it is inside.
abbrev pub get_slice : List ℕ → ℕ → ℕ → Option (List ℕ)
get_slice bytes start end =
    if leb start end && leb end (length bytes)
    then some (take (end - start) (drop start bytes))
    else none

abbrev pub is_negative : ℕ → Bool
is_negative i = leb (2 ^ 31) i

-- The directory's own bytes. The sum of a count and an offset below 2 ^ 31 does not overflow.
abbrev pub or_error {ℓ} : {A : Type ℓ} → WadError → Option A → Outcome WadError A
or_error e none = err e
or_error e (some a) = ok a

unfoldable pub directory_slice : List ℕ → ℕ → ℕ → Outcome WadError (List ℕ)
directory_slice bytes offset count =
    or_error (directory_out_of_range offset count (length bytes))
      (get_slice bytes offset (count * 16 + offset))

-- `as_chunks`, of the number of whole entries.
abbrev pub chunks : ℕ → List ℕ → List (List ℕ)
chunks zero bytes = []
chunks (suc n) bytes = take 16 bytes ∷ chunks n (drop 16 bytes)

abbrev pub lump_of : ℕ → Name → ℕ → ℕ → ℕ → Option (List ℕ) → Outcome WadError Lump
lump_of index name offset size len none = err (lump_out_of_range index name offset size len)
lump_of index name offset size len (some bytes) =
    ok (record { index = index; name = name; map_marker = []; bytes = bytes })

abbrev pub named_entry : List ℕ → ℕ → ℕ → ℕ → Outcome WadError Name → Outcome WadError Lump
named_entry bytes index offset size (err e) = err e
named_entry bytes index offset size panic = panic
named_entry bytes index offset size (ok name) =
    if is_negative offset || is_negative size
    then err (negative_lump_extent index offset size)
    else lump_of index name offset size (length bytes) (get_slice bytes offset (offset + size))

unfoldable pub read_entry : List ℕ → ℕ → List ℕ → Outcome WadError Lump
unfolding read_name
read_entry bytes index entry =
    named_entry bytes index (from_le_bytes (take 4 entry)) (from_le_bytes (take 4 (drop 4 entry)))
      (read_name index (drop 8 entry))

-- The marker that encloses a lump, of its name and the marker before it; `none` is an orphan.
abbrev pub is_empty : Name → Bool
is_empty [] = true
is_empty (b ∷ bs) = false

unfoldable pub next_marker : Name → Name → Option Name
next_marker current name =
    if is_marker name
    then some name
    else if not (is_map_lump name)
    then some []
    else if is_empty current
    then none
    else some current

abbrev pub push_lump : Lump → Outcome WadError (List Lump) → Outcome WadError (List Lump)
push_lump lump (ok lumps) = ok (lump ∷ lumps)
push_lump lump (err e) = err e
push_lump lump panic = panic

-- The loop of `parse`, whose errors end it: the lumps that follow, under the marker so far.
abbrev pub marked :
    (Name → Outcome WadError (List Lump)) → Lump → Option Name → Outcome WadError (List Lump)
marked rest lump none = err (orphan_map_lump lump.index lump.name)
marked rest lump (some marker) = push_lump (record lump { map_marker = marker }) (rest marker)

abbrev pub read_lump :
    (Name → Outcome WadError (List Lump))
    → Name
    → Outcome WadError Lump
    → Outcome WadError (List Lump)
read_lump rest current (ok lump) = marked rest lump (next_marker current lump.name)
read_lump rest current (err e) = err e
read_lump rest current panic = panic

unfoldable pub read_lumps : List ℕ → ℕ → List (List ℕ) → Name → Outcome WadError (List Lump)
unfolding read_entry next_marker
read_lumps bytes index [] current = ok []
read_lumps bytes index (entry ∷ entries) current =
    read_lump (read_lumps bytes (index + 1) entries) current (read_entry bytes index entry)

abbrev pub kind_of : List ℕ → Option WadKind
kind_of magic =
    if bytes_eq magic (0x49 ∷ 0x57 ∷ 0x41 ∷ 0x44 ∷ [])
    then some iwad
    else if bytes_eq magic (0x50 ∷ 0x57 ∷ 0x41 ∷ 0x44 ∷ [])
    then some pwad
    else none

abbrev pub wad_of : WadKind → Outcome WadError (List Lump) → Outcome WadError Wad
wad_of kind (ok lumps) = ok (record { kind = kind; lumps = lumps })
wad_of kind (err e) = err e
wad_of kind panic = panic

abbrev pub read_directory : List ℕ → Outcome WadError (List ℕ) → Outcome WadError (List Lump)
read_directory bytes (ok directory) =
    read_lumps bytes 0 (chunks (length directory / 16) directory) []
read_directory bytes (err e) = err e
read_directory bytes panic = panic

abbrev pub parse_kind : List ℕ → ℕ → ℕ → Option WadKind → Outcome WadError Wad
parse_kind bytes count offset none = err (bad_magic (take 4 bytes))
parse_kind bytes count offset (some kind) =
    if is_negative count
    then err (negative_lump_count count)
    else if is_negative offset
    then err (negative_directory_offset offset)
    else wad_of kind (read_directory bytes (directory_slice bytes offset count))

unfoldable pub parse : List ℕ → Outcome WadError Wad
unfolding directory_slice read_lumps
parse bytes =
    if ltb (length bytes) 12
    then err (header_too_short (length bytes))
    else parse_kind bytes (from_le_bytes (take 4 (drop 4 bytes)))
        (from_le_bytes (take 4 (drop 8 bytes))) (kind_of (take 4 bytes))

-- `Wad::find`: the last lump of the name.
abbrev pub later_or : Lump → Bool → Option Lump → Option Lump
later_or lump here (some later) = some later
later_or lump here none = if here then some lump else none

unfoldable pub find : List Lump → Name → Option Lump
find [] name = none
find (lump ∷ lumps) name = later_or lump (bytes_eq lump.name name) (find lumps name)

-- `Wad::map` and `Wad::map_lump`.
unfoldable pub map_of : List Lump → Name → List Lump
map_of [] marker = []
map_of (lump ∷ lumps) marker =
    let rest = map_of lumps marker in if bytes_eq lump.map_marker marker then lump ∷ rest else rest

abbrev pub first_named : List Lump → Name → Option Lump
first_named [] name = none
first_named (lump ∷ lumps) name =
    let rest = first_named lumps name in if bytes_eq lump.name name then some lump else rest

abbrev pub map_lump : List Lump → Name → Name → Option Lump
map_lump lumps marker name = first_named (map_of lumps marker) name
