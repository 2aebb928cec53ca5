-- ===== src/Image/Text.antt =====
-- `Image::text_region` of refemu/src/image.rs.
use click_doom.Base.{
  ℕ, ◌≤◌, ◌<◌, ◌≡◌, true, false, Option, none, some, List, [], ◌∷◌, arith, ltb, if_both,
  if◌then◌else◌, All, Bool-cases, inl, inr,
}
use click_doom.Image.Laws.{SegmentGood}
use click_doom.Image.Parsed.{ImageGood}
use click_doom.Image.{Segment, Image, segment_end, widen, text_bounds, nonempty, text_region}

-- A segment that is executable lies between the bounds.
abbrev pub Within : ℕ → ℕ → Segment → Type 0
Within lo hi s = s.executable ≡ true → (lo ≤ s.vaddr) × (segment_end s ≤ hi)

unfoldable pub Covers : List Segment → Option (ℕ × ℕ) → Type 0
Covers segments none = All (λ s. s.executable ≡ false) segments
Covers segments (some (lo, hi)) = All (Within lo hi) segments × (lo < hi)

abbrev Wider : Option (ℕ × ℕ) → Option (ℕ × ℕ) → Type 0
Wider none new = Unit
Wider (some (lo, hi)) none = ⊥
Wider (some (lo, hi)) (some (lo2, hi2)) = (lo2 ≤ lo) × (hi ≤ hi2)

-- The bounds of the loop, before the test for emptiness.
abbrev Bounds : List Segment → Option (ℕ × ℕ) → Type 0
Bounds segments none = All (λ s. s.executable ≡ false) segments
Bounds segments (some (lo, hi)) = All (Within lo hi) segments

Wider-refl : (o : Option (ℕ × ℕ)) → Wider o o
Wider-refl none = tt
Wider-refl (some (lo, hi)) = (omega arith, omega arith)

Wider-trans : (a b c : Option (ℕ × ℕ)) → Wider a b → Wider b c → Wider a c
Wider-trans none b c h k = tt
Wider-trans (some (lo, hi)) none c h k = absurd h
Wider-trans (some (lo, hi)) (some (lo2, hi2)) none h k = absurd k
Wider-trans (some (lo, hi)) (some (lo2, hi2)) (some (lo3, hi3)) h k =
    (omega (arith, h.0, k.0), omega (arith, h.1, k.1))

widen-Wider : (s : Segment) (o : Option (ℕ × ℕ)) → Wider o (widen s o)
widen-Wider s none = tt
widen-Wider s (some (lo, hi)) = (omega arith, ground arith)

text_bounds-Wider : (o : Option (ℕ × ℕ)) (ss : List Segment) → Wider o (text_bounds o ss)
text_bounds-Wider o [] = Wider-refl o
text_bounds-Wider o (s ∷ ss) =
    Wider-trans o (if s.executable then widen s o else o)
      (text_bounds (if s.executable then widen s o else o) ss)
      (if_both (Wider o) s.executable (λ _. widen-Wider s o) (λ _. Wider-refl o))
      (text_bounds-Wider (if s.executable then widen s o else o) ss)

-- A segment joined to the bounds lies within all that are wider.
widened :
    (s : Segment) (o r : Option (ℕ × ℕ)) (ss : List Segment)
    → Wider (widen s o) r
    → Bounds ss r
    → Bounds (s ∷ ss) r
widened s none none ss w h = absurd w
widened s none (some (lo, hi)) ss w h = ((λ _. w), h)
widened s (some (lo, hi)) none ss w h = absurd w
widened s (some (lo, hi)) (some (lo2, hi2)) ss w h =
    ((λ _. (omega (arith, w.0), ground (arith, w.1))), h)

passed_over :
    (s : Segment) (r : Option (ℕ × ℕ)) (ss : List Segment)
    → s.executable ≡ false
    → Bounds ss r
    → Bounds (s ∷ ss) r
passed_over s none ss e h = (e, h)
passed_over s (some (lo, hi)) ss e h = ((λ x. absurd (cc (e, x))), h)

text_bounds-Bounds : (o : Option (ℕ × ℕ)) (ss : List Segment) → Bounds ss (text_bounds o ss)
text_bounds-Bounds none [] = tt
text_bounds-Bounds (some (lo, hi)) [] = tt
text_bounds-Bounds o (s ∷ ss) =
    if_both
      (λ b.
        Wider b (text_bounds b ss)
        → Bounds ss (text_bounds b ss)
        → Bounds (s ∷ ss) (text_bounds b ss))
      s.executable (λ _ w h. widened s o (text_bounds (widen s o) ss) ss w h)
      (λ e _ h. passed_over s (text_bounds o ss) ss e h)
      (text_bounds-Wider (if s.executable then widen s o else o) ss)
      (text_bounds-Bounds (if s.executable then widen s o else o) ss)

-- Segments with memory that fit the address space: empty bounds have none that is executable.
none_executable :
    (file : List ℕ) (lo hi : ℕ) (ss : List Segment)
    → hi ≤ lo
    → All (SegmentGood file) ss
    → All (Within lo hi) ss
    → All (λ s. s.executable ≡ false) ss
none_executable file lo hi [] le goods h = tt
none_executable file lo hi (s ∷ ss) le goods h = (
  elim (Bool-cases s.executable) [
    | inl e ↦ absurd (ground (arith, h.0 e, goods.0.0, goods.0.2, le))
    | inr e ↦ e
  ],
  none_executable file lo hi ss le goods.1 h.1,
)

nonempty-Covers :
    (file : List ℕ) (ss : List Segment) (o : Option (ℕ × ℕ))
    → All (SegmentGood file) ss
    → Bounds ss o
    → Covers ss (nonempty o)
unfolding Covers
nonempty-Covers file ss none goods h = h
nonempty-Covers file ss (some (lo, hi)) goods h =
    if_both (Covers ss) (ltb lo hi) (λ low. (h, ground (arith, low)))
      (λ empty. none_executable file lo hi ss (ground (arith, empty)) goods h)

-- The text region of an image that was parsed is not empty and has every executable segment inside
-- it; where there is no region, no segment is executable.
pub text_region-Covers :
    (file : List ℕ) (image : Image)
    → ImageGood file image
    → Covers image.segments (text_region image)
unfolding text_region ImageGood
text_region-Covers file image h =
    nonempty-Covers file image.segments (text_bounds none image.segments) (h.2)
      (text_bounds-Bounds none image.segments)
