-- ===== src/Wad/Entries.antt =====
-- What `read_entry` of native/src/wad/mod.rs gives: a named slice of the file.
use click_doom.Base.{
  ℕ, ◌+◌, ◌-◌, ◌≤◌, ◌≡◌, ◌≢◌, refl, sym, ap, subst, Bool, true, false, not, ◌&&◌, ◌||◌, Option,
  none, some, List, [], ◌∷◌, arith, leb, ◌==◌, if_both, length, take, drop, length-take,
  length-drop, Outcome, ok, err, panic,
}
use click_doom.Wad.{
  Name, WadError, Lump, is_ascii_graphic, all_bytes, name_end, read_name, get_slice, is_negative,
  lump_of, named_entry,
}

-- A slice of the file.
abbrev pub SliceOf : List ℕ → List ℕ → Type 0
SliceOf file xs =
    (offset : ℕ) × (offset + length xs ≤ length file) × (xs ≡ take (length xs) (drop offset file))

get_slice-SliceOf :
    (file : List ℕ) (start end : ℕ) (xs : List ℕ)
    → get_slice file start end ≡ some xs
    → SliceOf file xs
get_slice-SliceOf file start end xs =
    if_both (λ o. o ≡ some xs → SliceOf file xs) (leb start end && leb end (length file)) inside
      (λ _ h. absurd (cc h))
  where
    inside :
        (leb start end && leb end (length file)) ≡ true
        → some (take (end - start) (drop start file)) ≡ some xs
        → SliceOf file xs
    inside fits h =
        let same : take (end - start) (drop start file) ≡ xs = cc h in
        let ordered : start ≤ end = ground arith in
        let below : end ≤ length file = ground arith in
        let size : length (take (end - start) (drop start file)) ≡ end - start =
          omega (arith, length-take (end - start) (drop start file), length-drop start file) in
        subst (SliceOf file) same
          (start, omega (arith, size), ap (λ n. take n (drop start file)) (sym size))

take-name_end : (field : List ℕ) → name_end field ≢ 0 → take (name_end field) field ≢ []
take-name_end [] h = absurd (h refl)
take-name_end (b ∷ bs) h =
    if_both (λ n. n ≢ 0 → take n (b ∷ bs) ≢ []) (b == 0) (λ _ k. absurd (k refl)) (λ _ k e. cc e) h

-- A name that was read is not empty.
unfoldable pub NameGood : Outcome WadError Name → Type 0
NameGood (ok name) = name ≢ []
NameGood (err e) = Unit
NameGood panic = ⊥

pub read_name-NameGood : (index : ℕ) (field : List ℕ) → NameGood (read_name index field)
unfolding read_name NameGood
read_name-NameGood index field =
    if_both NameGood (name_end field == 0 || bad_padding || bad_chars) (λ _. tt)
      (λ good. take-name_end field (present good))
  where
    bad_padding : Bool
    bad_padding = not (all_bytes (λ b. b == 0) (drop (name_end field) field))

    bad_chars : Bool
    bad_chars = not (all_bytes is_ascii_graphic (take (name_end field) field))

    present : (name_end field == 0 || bad_padding || bad_chars) ≡ false → name_end field ≢ 0
    present good = ground arith

-- An entry gives a lump of its index, with a name, inside the file, and under no marker yet.
unfoldable pub EntryGood : List ℕ → ℕ → Outcome WadError Lump → Type 0
EntryGood file index (ok l) = (l.index ≡ index) × (l.name ≢ []) × SliceOf file l.bytes
EntryGood file index (err e) = Unit
EntryGood file index panic = ⊥

lump_of-EntryGood :
    (file : List ℕ) (index : ℕ) (name : Name) (offset size start end : ℕ) (o : Option (List ℕ))
    → name ≢ []
    → get_slice file start end ≡ o
    → EntryGood file index (lump_of index name offset size (length file) o)
unfolding EntryGood
lump_of-EntryGood file index name offset size start end none n e = tt
lump_of-EntryGood file index name offset size start end (some xs) n e =
    (refl, n, get_slice-SliceOf file start end xs e)

pub named_entry-EntryGood :
    (file : List ℕ) (index offset size : ℕ) (r : Outcome WadError Name)
    → NameGood r
    → EntryGood file index (named_entry file index offset size r)
unfolding NameGood EntryGood
named_entry-EntryGood file index offset size (err e) h = tt
named_entry-EntryGood file index offset size panic h = absurd h
named_entry-EntryGood file index offset size (ok name) h =
    if_both (EntryGood file index) (is_negative offset || is_negative size) (λ _. tt)
      (λ _.
        lump_of-EntryGood file index name offset size offset (offset + size)
          (get_slice file offset (offset + size)) h refl)
