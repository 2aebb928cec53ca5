-- ===== src/Examples/Programs.antt =====
-- A small ELF file, an image of it on the small machine, and encoded rows.
use click_doom.Base.{
  ℕ, ◌+◌, ◌≡◌, refl, Bool, true, ◌&&◌, some, List, [], ◌∷◌, ◌++◌, arith, ltb, ok, Returns,
}
use click_doom.Exec.Valid.{IsValid}
use click_doom.Image.{Symbol, function, object, Image, text_region, function_containing, load}
use click_doom.Image.Elf.{
  parse_elf, read_u16, slice, parse_tables, read_u32, read_segments, read_segment, load_header,
}
use click_doom.Image.Laws.{Holds, IsFile}
use click_doom.Image.Sorted.{Ordered, SymbolsInOrder}
use click_doom.Image.Parsed.{ImageGood, parse_elf-ImageGood}
use click_doom.Image.Loading.{load-IsValid}
use click_doom.Image.Text.{Covers, text_region-Covers}
use click_doom.Image.Containing.{Contains, function_containing-Contains}
use click_doom.Csource.{Text}
use click_doom.RowBinary.{new, put_u8, put_bytes, parse_schema, padding_row}
use click_doom.RowBinary.Laws.{ReadsBack, put_bytes-ReadsBack, Pads, padding_row-Pads}
use click_doom.WordAddr.{WordAddr, ram_base_word, widx_from, Rebases, widx_from-Rebases}
use click_doom.Examples.Machine.{base, machine, machine-IsValid}

abbrev are_bytes : List ℕ → Bool
are_bytes [] = true
are_bytes (b ∷ bs) = let rest = are_bytes bs in ltb b 256 && rest

are_bytes-IsFile : (xs : List ℕ) → are_bytes xs ≡ true → IsFile xs
are_bytes-IsFile [] h = tt
are_bytes-IsFile (b ∷ bs) h =
    let rest : are_bytes bs ≡ true = ground (arith, h) in
    (ground (arith, h), are_bytes-IsFile bs rest)

-- A header, one segment header at 52, and four bytes at 84.
abbrev elf_file : List ℕ
elf_file =
    (0x7F ∷ 0x45 ∷ 0x4C ∷ 0x46 ∷ 1 ∷ 1 ∷ 1 ∷ 0 ∷ 0 ∷ 0 ∷ 0 ∷ 0 ∷ 0 ∷ 0 ∷ 0 ∷ 0 ∷ 2 ∷ 0 ∷ 243 ∷ 0
      ∷ [])
    ++ (1 ∷ 0 ∷ 0 ∷ 0 ∷ 0 ∷ 0 ∷ 0 ∷ 128 ∷ 52 ∷ 0 ∷ 0 ∷ 0 ∷ 0 ∷ 0 ∷ 0 ∷ 0 ∷ 0 ∷ 0 ∷ 0 ∷ 0 ∷ [])
    ++ (52 ∷ 0 ∷ 32 ∷ 0 ∷ 1 ∷ 0 ∷ 40 ∷ 0 ∷ 0 ∷ 0 ∷ 0 ∷ 0 ∷ [])
    ++ (1 ∷ 0 ∷ 0 ∷ 0 ∷ 84 ∷ 0 ∷ 0 ∷ 0 ∷ 0 ∷ 0 ∷ 0 ∷ 128 ∷ 0 ∷ 0 ∷ 0 ∷ 128 ∷ [])
    ++ (4 ∷ 0 ∷ 0 ∷ 0 ∷ 8 ∷ 0 ∷ 0 ∷ 0 ∷ 5 ∷ 0 ∷ 0 ∷ 0 ∷ 4 ∷ 0 ∷ 0 ∷ 0 ∷ [])
    ++ (0x73 ∷ 0 ∷ 0 ∷ 0 ∷ [])

abbrev as_is : List ℕ → List ℕ
as_is bytes = bytes

parse_elf-ImageGood_example : Holds (ImageGood elf_file) (parse_elf as_is elf_file)
parse_elf-ImageGood_example = parse_elf-ImageGood as_is elf_file (are_bytes-IsFile elf_file refl)

abbrev elf_image : Image
elf_image = record {
  entry = base;
  segments =
      record { vaddr = base; bytes = 0x73 ∷ 0 ∷ 0 ∷ 0 ∷ []; mem_len = 8; executable = true } ∷ [];
  symbols = [];
}

parsed : parse_elf as_is elf_file ≡ ok elf_image
unfolding parse_elf read_u16 slice parse_tables read_u32 read_segments read_segment load_header
parsed = refl

elf_image-ImageGood : ImageGood elf_file elf_image
unfolding ImageGood Ordered
elf_image-ImageGood = (
  omega arith,
  (λ e. cc e),
  (
    (
      omega arith,
      omega arith,
      omega arith,
      are_bytes-IsFile (0x73 ∷ 0 ∷ 0 ∷ 0 ∷ []) refl,
      (84, omega arith, refl),
    ),
    tt,
  ),
  tt,
  tt,
)

load-IsValid_example : Returns (load machine elf_image).0 × IsValid (load machine elf_image).1
load-IsValid_example =
    load-IsValid elf_file machine elf_image elf_image-ImageGood (omega arith) machine-IsValid

text_region-Covers_example : Covers elf_image.segments (text_region elf_image)
text_region-Covers_example = text_region-Covers elf_file elf_image elf_image-ImageGood

abbrev start_symbol : Symbol
start_symbol = record { addr = base; size = 8; name = 0x61 ∷ []; kind = function }

abbrev symbols : List Symbol
symbols = start_symbol ∷ record { addr = base + 4; size = 2; name = 0x62 ∷ []; kind = object } ∷ []

covers : function_containing symbols (base + 6) ≡ some start_symbol
unfolding function_containing
covers = refl

symbols-SymbolsInOrder : SymbolsInOrder symbols
unfolding Ordered
symbols-SymbolsInOrder = (refl, tt)

function_containing-Contains_example : Contains symbols (base + 6) start_symbol
function_containing-Contains_example =
    function_containing-Contains symbols (base + 6) start_symbol symbols-SymbolsInOrder
      (omega arith) covers

put_bytes-ReadsBack_example :
    ReadsBack (put_u8 new 7) (1 ∷ 2 ∷ 3 ∷ []) (put_bytes (put_u8 new 7) (1 ∷ 2 ∷ 3 ∷ []))
put_bytes-ReadsBack_example = put_bytes-ReadsBack (put_u8 new 7) (1 ∷ 2 ∷ 3 ∷ []) (omega arith)

-- a UInt8, b String
abbrev schema : Text
schema =
    b'a' ∷ b' ' ∷ b'U' ∷ b'I' ∷ b'n' ∷ b't' ∷ b'8' ∷ b',' ∷ b' ' ∷ b'b' ∷ b' ' ∷ b'S' ∷ b't' ∷ b'r'
    ∷ b'i' ∷ b'n' ∷ b'g' ∷ []

padding_row-Pads_example : Pads (parse_schema schema) (padding_row schema)
padding_row-Pads_example = padding_row-Pads schema

abbrev some_word : WordAddr
some_word = record { word_address = 0x2000_0005 }

widx_from-Rebases_example : Rebases some_word ram_base_word (widx_from some_word ram_base_word)
widx_from-Rebases_example = widx_from-Rebases some_word ram_base_word (omega arith)
