-- ===== src/Image/Named.antt =====
-- The symbol table of refemu/src/image.rs.
use click_doom.Base.{
  ℕ, zero, suc, ◌+◌, ◌*◌, ◌/◌, ◌^◌, ◌<◌, sym, ◌&&◌, Option, none, some, List, [], ◌∷◌, ltb, leb,
  ◌==◌, if_both, ok,
}
use click_doom.Image.{SymbolKind, Symbol}
use click_doom.Image.Elf.{
  symbol_kind, named_symbol, symbol_of, read_symbol, push_some, read_table, section_symbols,
  read_section, append_symbols, read_sections, sort_symbols, read_symbols, symbols_or_none,
}
use click_doom.Image.Laws.{
  Holds, Holds-and_then, IsFile, read_u8-Holds, read_u32-Holds, read_string-Holds,
}
use click_doom.Image.Sorted.{Ordered, SymbolsInOrder, sort_symbols-SymbolsInOrder}

abbrev Anything : {A : Type 0} → A → Type 0
Anything a = Unit

module _ (lossy : List ℕ → List ℕ) (file : List ℕ) (h : IsFile file) where
  named_symbol-Holds :
      (addr size : ℕ) (kind : SymbolKind) (name : List ℕ)
      → Holds Anything (named_symbol lossy addr size kind name)
  unfolding Holds
  named_symbol-Holds addr size kind [] = tt
  named_symbol-Holds addr size kind (b ∷ bs) = tt

  symbol_of-Holds :
      (str_off str_size sym size : ℕ) (o : Option SymbolKind)
      → Holds Anything (symbol_of lossy file str_off str_size sym size o)
  unfolding Holds
  symbol_of-Holds str_off str_size sym size none = tt
  symbol_of-Holds str_off str_size sym size (some kind) =
      Holds-and_then (λ v. v < 2 ^ 32) Anything _ _ (read_u32-Holds file h sym "a symbol's name")
        (λ name_at _.
          Holds-and_then (λ v. v < 2 ^ 32) Anything _ _
            (read_u32-Holds file h (sym + 4) "a symbol's address")
            (λ addr _.
              Holds-and_then Anything Anything _ (named_symbol lossy addr size kind)
                (read_string-Holds file h lossy str_off str_size name_at)
                (λ name _. named_symbol-Holds addr size kind name)))

  read_symbol-Holds :
      (str_off str_size sym : ℕ) → Holds Anything (read_symbol lossy file str_off str_size sym)
  unfolding read_symbol
  read_symbol-Holds str_off str_size sym =
      Holds-and_then (λ v. v < 2 ^ 8) Anything _ _
        (read_u8-Holds file h (sym + 12) "a symbol's kind")
        (λ info _.
          Holds-and_then (λ v. v < 2 ^ 32) Anything _ _
            (read_u32-Holds file h (sym + 8) "a symbol's size")
            (λ size _. symbol_of-Holds str_off str_size sym size (symbol_kind info size)))

  push_symbol-Holds : (o : Option Symbol) (rest : List Symbol) → Holds Anything (push_some o rest)
  unfolding Holds
  push_symbol-Holds none rest = tt
  push_symbol-Holds (some s) rest = tt

  read_table-Holds :
      (str_off str_size offset entry left : ℕ)
      → Holds Anything (read_table lossy file str_off str_size offset entry left)
  unfolding Holds read_table
  read_table-Holds str_off str_size offset entry zero = tt
  read_table-Holds str_off str_size offset entry (suc left) =
      Holds-and_then Anything Anything _ _
        (read_symbol-Holds str_off str_size (offset + entry * 16))
        (λ s _.
          Holds-and_then Anything Anything _ (push_some s)
            (read_table-Holds str_off str_size offset (suc entry) left)
            (λ rest _. push_symbol-Holds s rest))

  section_symbols-Holds :
      (shoff shentsize shnum at : ℕ)
      → Holds Anything (section_symbols lossy file shoff shentsize shnum at)
  unfolding Holds section_symbols
  section_symbols-Holds shoff shentsize shnum at =
      Holds-and_then (λ v. v < 2 ^ 32) Anything _ _
        (read_u32-Holds file h (at + 16) "a symbol table offset")
        (λ offset _.
          Holds-and_then (λ v. v < 2 ^ 32) Anything _ _
            (read_u32-Holds file h (at + 20) "a symbol table size")
            (λ size _.
              Holds-and_then (λ v. v < 2 ^ 32) Anything _ _
                (read_u32-Holds file h (at + 24) "a string table index")
                (λ index _.
                  if_both (Holds Anything) (leb shnum index) (λ _. tt)
                    (λ _.
                      Holds-and_then (λ v. v < 2 ^ 32) Anything _ _
                        (read_u32-Holds file h (shoff + index * shentsize + 16)
                          "a string table offset")
                        (λ str_off _.
                          Holds-and_then (λ v. v < 2 ^ 32) Anything _ _
                            (read_u32-Holds file h (shoff + index * shentsize + 20)
                              "a string table size")
                            (λ str_size _.
                              read_table-Holds str_off str_size offset 0 (size / 16)))))))

  read_section-Holds :
      (shoff shentsize shnum at : ℕ)
      → Holds Anything (read_section lossy file shoff shentsize shnum at)
  unfolding Holds read_section
  read_section-Holds shoff shentsize shnum at =
      Holds-and_then (λ v. v < 2 ^ 32) Anything _ _
        (read_u32-Holds file h (at + 4) "a section type")
        (λ type _.
          if_both (Holds Anything) (type == 2) (λ _. section_symbols-Holds shoff shentsize shnum at)
            (λ _. tt))

  read_sections-Holds :
      (shoff shentsize shnum index left : ℕ)
      → Holds Anything (read_sections lossy file shoff shentsize shnum index left)
  unfolding Holds read_sections
  read_sections-Holds shoff shentsize shnum index zero = tt
  read_sections-Holds shoff shentsize shnum index (suc left) =
      Holds-and_then Anything Anything _ _
        (read_section-Holds shoff shentsize shnum (shoff + index * shentsize))
        (λ xs _.
          Holds-and_then Anything Anything _ (append_symbols lossy xs)
            (read_sections-Holds shoff shentsize shnum (suc index) left) (λ ys _. tt))

  pub symbols_or_none-Holds :
      (shoff shentsize shnum : ℕ)
      → Holds SymbolsInOrder (symbols_or_none lossy file shoff shentsize shnum)
  unfolding Holds Ordered read_symbols
  symbols_or_none-Holds shoff shentsize shnum =
      if_both (Holds SymbolsInOrder) (ltb 0 shnum && leb 40 shentsize)
        (λ _.
          Holds-and_then Anything SymbolsInOrder
            (read_sections lossy file shoff shentsize shnum 0 shnum) (λ xs. ok (sort_symbols xs))
            (read_sections-Holds shoff shentsize shnum 0 shnum)
            (λ xs _. sort_symbols-SymbolsInOrder xs))
        (λ _. tt)
