-- ===== src/Wad/Laws.antt =====
-- What `Wad::parse` of native/src/wad/mod.rs promises.
use click_doom.Base.{
  ℕ, ◌+◌, ◌/◌, ◌≡◌, ◌≢◌, ◌∙◌, refl, sym, Bool, true, false, not, Option, none, some, List, [], ◌∷◌,
  ltb, if◌then◌else◌, if_both, length, take, drop, Outcome, ok, err, panic,
}
use click_doom.Memory.{from_le_bytes}
use click_doom.Wad.{
  Name, WadError, Lump, Wad, WadKind, read_name, is_marker, is_map_lump, is_negative,
  directory_slice, chunks, read_entry, is_empty, next_marker, push_lump, marked, read_lump,
  read_lumps, kind_of, wad_of, or_error, read_directory, parse_kind, parse,
}
use click_doom.Wad.Entries.{SliceOf, EntryGood, read_name-NameGood, named_entry-EntryGood}

-- A lump at its place in the directory of a file.
pub record IsLump (file : List ℕ) (index : ℕ) (l : Lump) : Type 0 where
  pub place : l.index ≡ index
  pub named : l.name ≢ []
  pub inside : SliceOf file l.bytes
  pub own : is_marker l.name ≡ true → l.map_marker ≡ l.name
  pub enclosed : is_map_lump l.name ≡ true → l.map_marker ≢ []
  pub free : is_marker l.name ≡ false → is_map_lump l.name ≡ false → l.map_marker ≡ []

unfoldable pub AreLumps : List ℕ → ℕ → List Lump → Type 0
AreLumps file index [] = Unit
AreLumps file index (l ∷ ls) = IsLump file index l × AreLumps file (index + 1) ls

-- What the loop gives.
LumpsGood : List ℕ → ℕ → Outcome WadError (List Lump) → Type 0
unfolding AreLumps
LumpsGood file index (ok ls) = AreLumps file index ls
LumpsGood file index (err e) = Unit
LumpsGood file index panic = ⊥

-- The marker of a lump, by its name and the marker before it.
record IsMarked (name marker : Name) : Type 0 where
  own : is_marker name ≡ true → marker ≡ name
  enclosed : is_map_lump name ≡ true → marker ≢ []
  free : is_marker name ≡ false → is_map_lump name ≡ false → marker ≡ []

is_empty-false : (n : Name) → is_empty n ≡ false → n ≢ []
is_empty-false [] h e = cc h
is_empty-false (b ∷ bs) h e = cc e

next_marker-IsMarked :
    (current name marker : Name)
    → name ≢ []
    → next_marker current name ≡ some marker
    → IsMarked name marker
unfolding next_marker
next_marker-IsMarked current name marker n h =
    by_tests (is_marker name) (is_map_lump name) (is_empty current) refl refl refl h
  where
    by_tests :
        (m l e : Bool)
        → is_marker name ≡ m
        → is_map_lump name ≡ l
        → is_empty current ≡ e
        → (if m then some name else if not l then some [] else if e then none else some current)
          ≡ some marker
        → IsMarked name marker
    by_tests true l e hm hl he h =
        let same : name ≡ marker = cc h in
        record {
          own = λ _. sym same;
          enclosed = λ _ k. n (same ∙ k);
          free = λ k _. absurd (cc (sym hm ∙ k));
        }
    by_tests false false e hm hl he h = record {
      own = λ k. absurd (cc (sym hm ∙ k));
      enclosed = λ k. absurd (cc (sym hl ∙ k));
      free = λ _ _. sym (cc h);
    }
    by_tests false true true hm hl he h = absurd (cc h)
    by_tests false true false hm hl he h =
        let same : current ≡ marker = cc h in
        record {
          own = λ k. absurd (cc (sym hm ∙ k));
          enclosed = λ _ k. is_empty-false current he (same ∙ k);
          free = λ _ k. absurd (cc (sym hl ∙ k));
        }

push_lump-LumpsGood :
    (file : List ℕ) (index : ℕ) (lump : Lump) (r : Outcome WadError (List Lump))
    → IsLump file index lump
    → LumpsGood file (index + 1) r
    → LumpsGood file index (push_lump lump r)
unfolding LumpsGood
push_lump-LumpsGood file index lump (ok ls) h k = (h, k)
push_lump-LumpsGood file index lump (err e) h k = tt
push_lump-LumpsGood file index lump panic h k = absurd k

marked-LumpsGood :
    (file : List ℕ) (index : ℕ) (rest : Name → Outcome WadError (List Lump)) (current : Name)
    (lump : Lump) (o : Option Name)
    → ((marker : Name) → LumpsGood file (index + 1) (rest marker))
    → EntryGood file index (ok lump)
    → next_marker current lump.name ≡ o
    → LumpsGood file index (marked rest lump o)
unfolding LumpsGood EntryGood
marked-LumpsGood file index rest current lump none k h e = tt
marked-LumpsGood file index rest current lump (some marker) k h e =
    let m = next_marker-IsMarked current lump.name marker h.1 e in
    push_lump-LumpsGood file index (record lump { map_marker = marker }) (rest marker)
      (record {
        place = h.0;
        named = h.1;
        inside = h.2;
        own = m.own;
        enclosed = m.enclosed;
        free = m.free;
      })
      (k marker)

read_lump-LumpsGood :
    (file : List ℕ) (index : ℕ) (rest : Name → Outcome WadError (List Lump)) (current : Name)
    (r : Outcome WadError Lump)
    → ((marker : Name) → LumpsGood file (index + 1) (rest marker))
    → EntryGood file index r
    → LumpsGood file index (read_lump rest current r)
unfolding LumpsGood EntryGood
read_lump-LumpsGood file index rest current (ok lump) k h =
    marked-LumpsGood file index rest current lump (next_marker current lump.name) k h refl
read_lump-LumpsGood file index rest current (err e) k h = tt
read_lump-LumpsGood file index rest current panic k h = absurd h

read_lumps-LumpsGood :
    (file : List ℕ) (index : ℕ) (entries : List (List ℕ)) (current : Name)
    → LumpsGood file index (read_lumps file index entries current)
unfolding read_lumps read_entry LumpsGood
read_lumps-LumpsGood file index [] current = tt
read_lumps-LumpsGood file index (entry ∷ entries) current =
    read_lump-LumpsGood file index (read_lumps file (index + 1) entries) current
      (read_entry file index entry) (read_lumps-LumpsGood file (index + 1) entries)
      (named_entry-EntryGood file index (from_le_bytes (take 4 entry))
        (from_le_bytes (take 4 (drop 4 entry))) (read_name index (drop 8 entry))
        (read_name-NameGood index (drop 8 entry)))

-- What `parse` gives.
unfoldable pub WadGood : List ℕ → Outcome WadError Wad → Type 0
WadGood file (ok w) = AreLumps file 0 w.lumps
WadGood file (err e) = Unit
WadGood file panic = ⊥

read_directory-LumpsGood :
    (file : List ℕ) (e : WadError) (o : Option (List ℕ))
    → LumpsGood file 0 (read_directory file (or_error e o))
unfolding LumpsGood
read_directory-LumpsGood file e none = tt
read_directory-LumpsGood file e (some directory) =
    unfold LumpsGood in read_lumps-LumpsGood file 0 (chunks (length directory / 16) directory) []

wad_of-WadGood :
    (file : List ℕ) (kind : WadKind) (r : Outcome WadError (List Lump))
    → LumpsGood file 0 r
    → WadGood file (wad_of kind r)
unfolding LumpsGood WadGood
wad_of-WadGood file kind (ok lumps) h = h
wad_of-WadGood file kind (err e) h = tt
wad_of-WadGood file kind panic h = h

parse_kind-WadGood :
    (file : List ℕ) (count offset : ℕ) (o : Option WadKind)
    → WadGood file (parse_kind file count offset o)
unfolding WadGood directory_slice
parse_kind-WadGood file count offset none = tt
parse_kind-WadGood file count offset (some kind) =
    if_both (WadGood file) (is_negative count) (λ _. tt)
      (λ _.
        if_both (WadGood file) (is_negative offset) (λ _. tt)
          (λ _. wad_of-WadGood file kind _ (read_directory-LumpsGood file _ _)))

-- Parsing any bytes ends with an error or with a directory, and never panics. In a directory every
-- lump has its position as its index, a name that is not empty, and bytes that are a slice of the
-- file; a marker carries its own name, a map lump carries a marker that is not empty, and any other
-- lump carries none.
pub parse-WadGood : (file : List ℕ) → WadGood file (parse file)
unfolding parse WadGood
parse-WadGood file =
    if_both (WadGood file) (ltb (length file) 12) (λ _. tt)
      (λ _.
        parse_kind-WadGood file (from_le_bytes (take 4 (drop 4 file)))
          (from_le_bytes (take 4 (drop 8 file))) (kind_of (take 4 file)))
