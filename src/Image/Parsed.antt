-- ===== src/Image/Parsed.antt =====
-- What `Image::parse_elf` and `Image::text_region` of refemu/src/image.rs give.
use click_doom.Base.{
  ℕ, ◌^◌, ◌<◌, ◌≡◌, ◌≢◌, not, ◌&&◌, Option, none, some, List, [], ◌∷◌, arith, ltb, leb, ◌==◌,
  if_both, length, take, get_elem?, get_elem?-lt, All,
}
use click_doom.Image.{Segment, Image, bytes_eq, elf_magic}
use click_doom.Image.Elf.{
  symbols_or_none, image_of, segments_or_none, parse_tables, is_class, parse_elf,
}
use click_doom.Image.Laws.{
  Holds, Holds-and_then, IsFile, SegmentGood, read_u16-Holds, read_u32-Holds, read_segments-Holds,
}
use click_doom.Image.Sorted.{
  ByAddress, SymbolsInOrder, sort_segments-ByAddress, sort_segments-All, sort_segments-cons,
}
use click_doom.Image.Named.{symbols_or_none-Holds}

-- An image of the file: its segments are good, at least one, and in the order of their addresses, and
-- its symbols are in the order of their addresses and names.
unfoldable pub ImageGood : List ℕ → Image → Type 0
ImageGood file image =
    (image.entry < 2 ^ 32)
    × (image.segments ≢ [])
    × All (SegmentGood file) image.segments
    × ByAddress image.segments
    × SymbolsInOrder image.symbols

module _ (lossy : List ℕ → List ℕ) (file : List ℕ) (h : IsFile file) where
  image_of-Holds :
      (entry shoff shentsize shnum : ℕ) (segments : List Segment)
      → entry < 2 ^ 32
      → All (SegmentGood file) segments
      → Holds (ImageGood file) (image_of lossy file entry shoff shentsize shnum segments)
  unfolding Holds ImageGood
  image_of-Holds entry shoff shentsize shnum [] small goods = tt
  image_of-Holds entry shoff shentsize shnum (s ∷ ss) small goods =
      Holds-and_then SymbolsInOrder (ImageGood file)
        (symbols_or_none lossy file shoff shentsize shnum) _
        (symbols_or_none-Holds lossy file h shoff shentsize shnum)
        (λ symbols ordered. (
          small,
          sort_segments-cons s ss,
          sort_segments-All (SegmentGood file) (s ∷ ss) goods,
          sort_segments-ByAddress (s ∷ ss),
          ordered,
        ))

  segments_or_none-Holds :
      (phoff phentsize phnum : ℕ)
      → Holds (All (SegmentGood file)) (segments_or_none lossy file phoff phentsize phnum)
  unfolding Holds
  segments_or_none-Holds phoff phentsize phnum =
      if_both (Holds (All (SegmentGood file))) (ltb 0 phnum && leb 32 phentsize)
        (λ _. read_segments-Holds file phoff phentsize 0 phnum h) (λ _. tt)

  parse_tables-Holds : Holds (ImageGood file) (parse_tables lossy file)
  unfolding parse_tables
  parse_tables-Holds =
      Holds-and_then (λ v. v < 2 ^ 32) (ImageGood file) _ _
        (read_u32-Holds file h 24 "the entry point")
        (λ entry small.
          Holds-and_then (λ v. v < 2 ^ 32) (ImageGood file) _ _
            (read_u32-Holds file h 28 "the segment table offset")
            (λ phoff _.
              Holds-and_then (λ v. v < 2 ^ 32) (ImageGood file) _ _
                (read_u32-Holds file h 32 "the section table offset")
                (λ shoff _.
                  Holds-and_then (λ v. v < 2 ^ 16) (ImageGood file) _ _
                    (read_u16-Holds file h 42 "the segment entry size")
                    (λ phentsize _.
                      Holds-and_then (λ v. v < 2 ^ 16) (ImageGood file) _ _
                        (read_u16-Holds file h 44 "the segment count")
                        (λ phnum _.
                          Holds-and_then (λ v. v < 2 ^ 16) (ImageGood file) _ _
                            (read_u16-Holds file h 46 "the section entry size")
                            (λ shentsize _.
                              Holds-and_then (λ v. v < 2 ^ 16) (ImageGood file) _ _
                                (read_u16-Holds file h 48 "the section count")
                                (λ shnum _.
                                  Holds-and_then (All (SegmentGood file)) (ImageGood file) _
                                    (image_of lossy file entry shoff shentsize shnum)
                                    (segments_or_none-Holds phoff phentsize phnum)
                                    (λ ss goods.
                                      image_of-Holds entry shoff shentsize shnum ss small
                                        goods))))))))

  is_class-Holds :
      (a b : ℕ) (o p : Option ℕ) → o ≡ some a → p ≡ some b → Holds (λ q. Unit) (is_class lossy o p)
  unfolding Holds
  is_class-Holds a b none p e e2 = absurd (cc e)
  is_class-Holds a b (some x) none e e2 = absurd (cc e2)
  is_class-Holds a b (some x) (some y) e e2 = tt

-- `parse_elf` never panics, whatever the bytes of the file. In an image that it gives, each segment
-- fits the address space, its bytes are a slice of the file no longer than its memory, there is at
-- least one, and segments and symbols are in order.
pub parse_elf-ImageGood :
    (lossy : List ℕ → List ℕ) (file : List ℕ)
    → IsFile file
    → Holds (ImageGood file) (parse_elf lossy file)
unfolding Holds parse_elf
parse_elf-ImageGood lossy file h =
    if_both (Holds (ImageGood file)) (ltb (length file) 52) (λ _. tt)
      (λ long.
        if_both (Holds (ImageGood file)) (not (bytes_eq (take 4 file) elf_magic)) (λ _. tt)
          (λ _.
            let (a, ea) = get_elem?-lt file 4 (ground (arith, long)) in
            let (b, eb) = get_elem?-lt file 5 (ground (arith, long)) in
            Holds-and_then (λ q. Unit) (ImageGood file)
              (is_class lossy (get_elem? file 4) (get_elem? file 5)) _
              (is_class-Holds lossy file h a b (get_elem? file 4) (get_elem? file 5) ea eb)
              (λ right_class _.
                if_both (Holds (ImageGood file)) right_class
                  (λ _.
                    Holds-and_then (λ v. v < 2 ^ 16) (ImageGood file) _ _
                      (read_u16-Holds file h 18 "the machine")
                      (λ machine _.
                        if_both (Holds (ImageGood file)) (machine == 243)
                          (λ _. parse_tables-Holds lossy file h) (λ _. tt)))
                  (λ _. tt))))
