-- ===== src/Image/Elf.antt =====
-- The ELF reader of refemu/src/image.rs. Offsets are `usize`: sums of 32-bit numbers, and of products of
-- 16-bit numbers, stay below 2 ^ 64. An index or a range out of bounds panics. What
-- `from_utf8_lossy` makes of the bytes of a name is the parameter `lossy`.
use click_doom.Base.{
  ℕ, zero, suc, ◌+◌, ◌*◌, ◌/◌, ◌%◌, ◌^◌, Bool, true, false, not, ◌&&◌, ◌||◌, Option, none, some,
  List, [], ◌∷◌, ◌++◌, ltb, leb, ◌==◌, if◌then◌else◌, length, take, drop, get_elem?, Outcome, ok,
  err, panic, and_then,
}
use click_doom.Spec.Map.{ram_base}
use click_doom.Memory.{from_le_bytes}
use click_doom.Image.{
  ImageError, truncated, not_elf, wrong_class, wrong_machine, no_segments, segment_too_long,
  segment_wraps, Segment, SymbolKind, function, object, untyped, Symbol, Image, flat, bytes_eq,
  elf_magic, looks_like_elf,
}
use Prim.Native.String.{String}

abbrev pub Read : Type 0 → Type 0
Read A = Outcome ImageError A

-- `Reader`.
unfoldable pub slice : List ℕ → ℕ → ℕ → String → Read (List ℕ)
slice file at len what =
    if leb (at + len) (length file) then ok (take len (drop at file)) else err (truncated at what)

abbrev pub first_byte : List ℕ → Read ℕ
first_byte [] = panic
first_byte (b ∷ bs) = ok b

abbrev pub two_bytes : List ℕ → Read ℕ
two_bytes (b0 ∷ b1 ∷ bs) = ok (from_le_bytes (b0 ∷ b1 ∷ []))
two_bytes _ = panic

abbrev pub four_bytes : List ℕ → Read ℕ
four_bytes (b0 ∷ b1 ∷ b2 ∷ b3 ∷ bs) = ok (from_le_bytes (b0 ∷ b1 ∷ b2 ∷ b3 ∷ []))
four_bytes _ = panic

unfoldable pub read_u8 : List ℕ → ℕ → String → Read ℕ
read_u8 file at what = and_then (slice file at 1 what) first_byte

unfoldable pub read_u16 : List ℕ → ℕ → String → Read ℕ
read_u16 file at what = and_then (slice file at 2 what) two_bytes

unfoldable pub read_u32 : List ℕ → ℕ → String → Read ℕ
read_u32 file at what = and_then (slice file at 4 what) four_bytes

abbrev pub before_zero : List ℕ → List ℕ
before_zero [] = []
before_zero (b ∷ bs) = let rest = before_zero bs in if b == 0 then [] else b ∷ rest

unfoldable pub read_string : (List ℕ → List ℕ) → List ℕ → ℕ → ℕ → ℕ → Read (List ℕ)
read_string lossy file table size at =
    if leb size at
    then ok []
    else and_then (slice file table size "a string table") (λ available.
      if leb at (length available) then ok (lossy (before_zero (drop at available))) else panic)

-- Stable sorts: an element goes before the first that is not below it.
abbrev pub insert_segment : Segment → List Segment → List Segment
insert_segment s [] = s ∷ []
insert_segment s (t ∷ ts) =
    let rest = insert_segment s ts in if leb s.vaddr t.vaddr then s ∷ t ∷ ts else t ∷ rest

abbrev pub sort_segments : List Segment → List Segment
sort_segments [] = []
sort_segments (s ∷ ss) = insert_segment s (sort_segments ss)

-- The order of byte strings.
abbrev pub bytes_leb : List ℕ → List ℕ → Bool
bytes_leb [] ys = true
bytes_leb (x ∷ xs) [] = false
bytes_leb (x ∷ xs) (y ∷ ys) = let rest = bytes_leb xs ys in ltb x y || x == y && rest

abbrev pub symbol_leb : Symbol → Symbol → Bool
symbol_leb a b = ltb a.addr b.addr || a.addr == b.addr && bytes_leb a.name b.name

abbrev pub insert_symbol : Symbol → List Symbol → List Symbol
insert_symbol s [] = s ∷ []
insert_symbol s (t ∷ ts) =
    let rest = insert_symbol s ts in if symbol_leb s t then s ∷ t ∷ ts else t ∷ rest

abbrev pub sort_symbols : List Symbol → List Symbol
sort_symbols [] = []
sort_symbols (s ∷ ss) = insert_symbol s (sort_symbols ss)

-- One segment header; `none` is a header that is passed over.
abbrev pub segment_contents : List ℕ → ℕ → ℕ → ℕ → ℕ → ℕ → Read (Option Segment)
segment_contents file offset vaddr filesz memsz flags =
    if leb (offset + filesz) (length file)
    then ok (
        some (record {
          vaddr = vaddr;
          bytes = take filesz (drop offset file);
          mem_len = memsz;
          executable = flags % 2 == 1;
        }))
    else err (truncated offset "a segment's contents")

abbrev pub checked_segment : List ℕ → ℕ → ℕ → ℕ → ℕ → ℕ → Read (Option Segment)
checked_segment file offset vaddr filesz memsz flags =
    if ltb memsz filesz
    then err (segment_too_long vaddr filesz memsz)
    else if memsz == 0
    then ok none
    else if leb (2 ^ 32) (vaddr + memsz)
    then err (segment_wraps vaddr memsz)
    else segment_contents file offset vaddr filesz memsz flags

unfoldable pub load_header : List ℕ → ℕ → Read (Option Segment)
load_header file at = and_then (read_u32 file (at + 4) "a segment offset") (λ offset.
    and_then (read_u32 file (at + 8) "a segment address") (λ vaddr.
      and_then (read_u32 file (at + 16) "a segment file size") (λ filesz.
        and_then (read_u32 file (at + 20) "a segment memory size") (λ memsz.
          and_then (read_u32 file (at + 24) "a segment's flags")
            (λ flags. checked_segment file offset vaddr filesz memsz flags)))))

unfoldable pub read_segment : List ℕ → ℕ → Read (Option Segment)
read_segment file at =
    and_then (read_u32 file at "a segment header")
      (λ type. if type == 1 then load_header file at else ok none)

abbrev pub push_some {ℓ} : {A : Type ℓ} → Option A → List A → Outcome ImageError (List A)
push_some none rest = ok rest
push_some (some a) rest = ok (a ∷ rest)

-- The segments of the headers `index`, …, `index + left - 1`.
unfoldable pub read_segments : List ℕ → ℕ → ℕ → ℕ → ℕ → Read (List Segment)
read_segments file phoff phentsize index zero = ok []
read_segments file phoff phentsize index (suc left) =
    and_then (read_segment file (phoff + index * phentsize))
      (λ s. and_then (read_segments file phoff phentsize (suc index) left) (push_some s))

abbrev pub symbol_kind : ℕ → ℕ → Option SymbolKind
symbol_kind info size =
    let type = info % 16 in
    if type == 2
    then some function
    else if type == 1
    then some object
    else if type == 0 && ltb 0 size
    then some untyped
    else none

module _ (lossy : List ℕ → List ℕ) where
  abbrev pub named_symbol : ℕ → ℕ → SymbolKind → List ℕ → Read (Option Symbol)
  named_symbol addr size kind [] = ok none
  named_symbol addr size kind (b ∷ bs) =
      ok (some (record { addr = addr; size = size; name = b ∷ bs; kind = kind }))

  abbrev pub symbol_of : List ℕ → ℕ → ℕ → ℕ → ℕ → Option SymbolKind → Read (Option Symbol)
  symbol_of file str_off str_size sym size none = ok none
  symbol_of file str_off str_size sym size (some kind) =
      and_then (read_u32 file sym "a symbol's name") (λ name_at.
        and_then (read_u32 file (sym + 4) "a symbol's address") (λ addr.
          and_then (read_string lossy file str_off str_size name_at) (named_symbol addr size kind)))

  unfoldable pub read_symbol : List ℕ → ℕ → ℕ → ℕ → Read (Option Symbol)
  read_symbol file str_off str_size sym =
      and_then (read_u8 file (sym + 12) "a symbol's kind") (λ info.
        and_then (read_u32 file (sym + 8) "a symbol's size")
          (λ size. symbol_of file str_off str_size sym size (symbol_kind info size)))

  -- The symbols of a table's entries `entry`, …, `entry + left - 1`.
  unfoldable pub read_table : List ℕ → ℕ → ℕ → ℕ → ℕ → ℕ → Read (List Symbol)
  read_table file str_off str_size offset entry zero = ok []
  read_table file str_off str_size offset entry (suc left) =
      and_then (read_symbol file str_off str_size (offset + entry * 16))
        (λ s. and_then (read_table file str_off str_size offset (suc entry) left) (push_some s))

  unfoldable pub section_symbols : List ℕ → ℕ → ℕ → ℕ → ℕ → Read (List Symbol)
  section_symbols file shoff shentsize shnum at =
      and_then (read_u32 file (at + 16) "a symbol table offset") (λ offset.
        and_then (read_u32 file (at + 20) "a symbol table size") (λ size.
          and_then (read_u32 file (at + 24) "a string table index") (λ index.
            let str_at = shoff + index * shentsize in
            if leb shnum index
            then ok []
            else and_then (read_u32 file (str_at + 16) "a string table offset") (λ str_off.
              and_then (read_u32 file (str_at + 20) "a string table size")
                (λ str_size. read_table file str_off str_size offset 0 (size / 16))))))

  unfoldable pub read_section : List ℕ → ℕ → ℕ → ℕ → ℕ → Read (List Symbol)
  read_section file shoff shentsize shnum at =
      and_then (read_u32 file (at + 4) "a section type")
        (λ type. if type == 2 then section_symbols file shoff shentsize shnum at else ok [])

  abbrev pub append_symbols : List Symbol → List Symbol → Read (List Symbol)
  append_symbols xs ys = ok (xs ++ ys)

  -- The symbols of the sections `index`, …, `index + left - 1`.
  unfoldable pub read_sections : List ℕ → ℕ → ℕ → ℕ → ℕ → ℕ → Read (List Symbol)
  read_sections file shoff shentsize shnum index zero = ok []
  read_sections file shoff shentsize shnum index (suc left) =
      and_then (read_section file shoff shentsize shnum (shoff + index * shentsize)) (λ xs.
        and_then (read_sections file shoff shentsize shnum (suc index) left) (append_symbols xs))

  unfoldable pub read_symbols : List ℕ → ℕ → ℕ → ℕ → Read (List Symbol)
  read_symbols file shoff shentsize shnum =
      and_then (read_sections file shoff shentsize shnum 0 shnum) (λ xs. ok (sort_symbols xs))

  abbrev pub symbols_or_none : List ℕ → ℕ → ℕ → ℕ → Read (List Symbol)
  symbols_or_none file shoff shentsize shnum =
      if ltb 0 shnum && leb 40 shentsize then read_symbols file shoff shentsize shnum else ok []

  abbrev pub image_of : List ℕ → ℕ → ℕ → ℕ → ℕ → List Segment → Read Image
  image_of file entry shoff shentsize shnum [] = err no_segments
  image_of file entry shoff shentsize shnum (s ∷ ss) =
      and_then (symbols_or_none file shoff shentsize shnum) (λ symbols.
        ok (record { entry = entry; segments = sort_segments (s ∷ ss); symbols = symbols }))

  abbrev pub segments_or_none : List ℕ → ℕ → ℕ → ℕ → Read (List Segment)
  segments_or_none file phoff phentsize phnum =
      if ltb 0 phnum && leb 32 phentsize then read_segments file phoff phentsize 0 phnum else ok []

  -- The tables, after the checks of the header.
  unfoldable pub parse_tables : List ℕ → Read Image
  parse_tables file = and_then (read_u32 file 24 "the entry point") (λ entry.
      and_then (read_u32 file 28 "the segment table offset") (λ phoff.
        and_then (read_u32 file 32 "the section table offset") (λ shoff.
          and_then (read_u16 file 42 "the segment entry size") (λ phentsize.
            and_then (read_u16 file 44 "the segment count") (λ phnum.
              and_then (read_u16 file 46 "the section entry size") (λ shentsize.
                and_then (read_u16 file 48 "the section count") (λ shnum.
                  and_then (segments_or_none file phoff phentsize phnum)
                    (image_of file entry shoff shentsize shnum))))))))

  abbrev pub is_class : Option ℕ → Option ℕ → Read Bool
  is_class (some class) (some encoding) = ok (class == 1 && encoding == 1)
  is_class (some class) none = panic
  is_class none encoding = panic

  unfoldable pub parse_elf : List ℕ → Read Image
  parse_elf file =
      if ltb (length file) 52
      then err (truncated (length file) "the file header")
      else if not (bytes_eq (take 4 file) elf_magic)
      then err not_elf
      else and_then (is_class (get_elem? file 4) (get_elem? file 5)) (λ right_class.
        if right_class
        then and_then (read_u16 file 18 "the machine")
            (λ machine. if machine == 243 then parse_tables file else err (wrong_machine machine))
        else err wrong_class)

  abbrev pub or_ram_base : Option ℕ → ℕ
  or_ram_base none = ram_base
  or_ram_base (some a) = a

  unfoldable pub read_image : List ℕ → Option ℕ → Read Image
  read_image file load_addr =
      if looks_like_elf file then parse_elf file else ok (flat file (or_ram_base load_addr))
