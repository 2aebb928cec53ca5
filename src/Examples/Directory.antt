-- ===== src/Examples/Directory.antt =====
-- A small WAD: a marker and one lump of its map.
use click_doom.Base.{ℕ, ◌≡◌, refl, List, [], ◌∷◌, ◌++◌, ok}
use click_doom.Wad.{Name, Lump, WadKind, parse, find, is_marker, is_map_lump}
use click_doom.Wad.Laws.{WadGood, parse-WadGood}
use click_doom.Wad.Find.{Found, find-Found}

abbrev e1m1 : Name
e1m1 = 0x45 ∷ 0x31 ∷ 0x4D ∷ 0x31 ∷ []

abbrev segs : Name
segs = 0x53 ∷ 0x45 ∷ 0x47 ∷ 0x53 ∷ []

abbrev zeros : List ℕ
zeros = 0 ∷ 0 ∷ 0 ∷ 0 ∷ []

-- The marker has no bytes; the lump has the first four of the file.
abbrev small_wad : List ℕ
small_wad =
    (0x49 ∷ 0x57 ∷ 0x41 ∷ 0x44 ∷ 2 ∷ 0 ∷ 0 ∷ 0 ∷ 12 ∷ 0 ∷ 0 ∷ 0 ∷ [])
    ++ zeros
    ++ zeros
    ++ e1m1
    ++ zeros
    ++ zeros
    ++ (4 ∷ 0 ∷ 0 ∷ 0 ∷ [])
    ++ segs
    ++ zeros

abbrev lumps : List Lump
lumps =
    record { index = 0; name = e1m1; map_marker = e1m1; bytes = [] }
    ∷ record { index = 1; name = segs; map_marker = e1m1; bytes = 0x49 ∷ 0x57 ∷ 0x41 ∷ 0x44 ∷ [] }
    ∷ []

parsed : parse small_wad ≡ ok (record { kind = WadKind.iwad; lumps = lumps })
unfolding parse is_marker is_map_lump
parsed = refl

parse-WadGood_example : WadGood small_wad (parse small_wad)
parse-WadGood_example = parse-WadGood small_wad

find-Found_example : Found lumps segs (find lumps segs)
find-Found_example = find-Found lumps segs
