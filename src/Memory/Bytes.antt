-- ===== src/Memory/Bytes.antt =====
-- Little-endian reads and writes: bounds, round trip, and what a write leaves alone.
use click_doom.Base.{
  ℕ, suc, ◌+◌, ◌*◌, ◌%◌, ◌^◌, ◌≤◌, ◌<◌, ◌≡◌, ◌⊎◌, inl, inr, ap, ◌∙◌, subst, some, List, [], ◌∷◌,
  arith, length, take, drop, All, All-take, All-drop, length-take, length-drop,
}
use native.Mathlib.Nat.{mul-suc, pow-suc}
use native.Mathlib.Numerals.{towards_suc}
use click_doom.Memory.{overwrite, from_le_bytes, to_le_bytes, read_le, write_le}
use click_doom.Memory.Slices.{
  length-overwrite, take-drop-overwrite_self, take-drop-overwrite, drop-overwrite,
}

abbrev pub IsByte : ℕ → Type 0
IsByte b = b < 256

-- The widths that an access can have.
abbrev pub IsWidth : ℕ → Type 0
IsWidth w = (w ≡ 1) ⊎ (w ≡ 2) ⊎ (w ≡ 4)

-- The bytes that a store of `width` bytes writes.
abbrev pub stored : ℕ → ℕ → List ℕ
stored width value = take width (to_le_bytes value)

pub length-stored : (w v : ℕ) → w ≤ 4 → length (stored w v) ≡ w
length-stored w v h = omega (arith, length-take w (to_le_bytes v))

pub stored-IsByte : (w v : ℕ) → All IsByte (stored w v)
stored-IsByte w v = All-take IsByte w (to_le_bytes v) (omega arith)

-- A statement about the three widths.
pub by_width {ℓ} : (P : ℕ → Type ℓ) → P 1 → P 2 → P 4 → (w : ℕ) → IsWidth w → P w
by_width P p1 p2 p4 w (inl e) = rw e p1
by_width P p1 p2 p4 w (inr (inl e)) = rw e p2
by_width P p1 p2 p4 w (inr (inr e)) = rw e p4

pub from_le_bytes-stored : (w v : ℕ) → IsWidth w → from_le_bytes (stored w v) ≡ v % 2 ^ (8 * w)
from_le_bytes-stored w v h =
    by_width (λ w. from_le_bytes (stored w v) ≡ v % 2 ^ (8 * w)) (omega arith) (omega arith)
      (omega arith) w h

pow-step : (n : ℕ) → 2 ^ (8 * suc n) ≡ 256 * 2 ^ (8 * n)
pow-step n = simp (mul-suc, towards_suc, pow-suc) (omega arith)

pub from_le_bytes-lt : (bs : List ℕ) → All IsByte bs → from_le_bytes bs < 2 ^ (8 * length bs)
from_le_bytes-lt [] h = omega arith
from_le_bytes-lt (b ∷ bs) h = omega (arith, from_le_bytes-lt bs h.1, pow-step (length bs))

-- In bounds a write lands, and keeps the array's length and its elements bytes.
pub write_le-some :
    (xs : List ℕ) (at w v : ℕ)
    → IsWidth w
    → at + w ≤ length xs
    → write_le xs at w v ≡ some (overwrite xs at (stored w v))
unfolding write_le
write_le-some xs at w v h =
    by_width (λ w. at + w ≤ length xs → write_le xs at w v ≡ some (overwrite xs at (stored w v)))
      (λ k. ground arith) (λ k. ground arith) (λ k. ground arith) w h

-- In bounds a read gives the little-endian value of its bytes.
pub read_le-some :
    (xs : List ℕ) (at w : ℕ)
    → IsWidth w
    → at + w ≤ length xs
    → read_le xs at w ≡ some (from_le_bytes (take w (drop at xs)))
unfolding read_le
read_le-some xs at w h =
    by_width
      (λ w. at + w ≤ length xs → read_le xs at w ≡ some (from_le_bytes (take w (drop at xs))))
      (λ k. ground arith) (λ k. ground arith) (λ k. ground arith) w h

pub IsWidth-le : (w : ℕ) → IsWidth w → w ≤ 4
IsWidth-le w h = omega arith

-- A value that was read fits its width.
pub read_le-lt :
    (xs : List ℕ) (at w : ℕ)
    → All IsByte xs
    → at + w ≤ length xs
    → from_le_bytes (take w (drop at xs)) < 2 ^ (8 * w)
read_le-lt xs at w h k =
    subst (λ n. from_le_bytes (take w (drop at xs)) < 2 ^ (8 * n)) short
      (from_le_bytes-lt (take w (drop at xs)) (All-take IsByte w _ (All-drop IsByte at xs h)))
  where
    short : length (take w (drop at xs)) ≡ w
    short = omega (arith, length-take w (drop at xs), length-drop at xs)

-- What was written is read back, cut to the width.
pub read_le-overwrite_self :
    (xs : List ℕ) (at w v : ℕ)
    → IsWidth w
    → at + w ≤ length xs
    → read_le (overwrite xs at (stored w v)) at w ≡ some (v % 2 ^ (8 * w))
read_le-overwrite_self xs at w v h k =
    rw (read_le-some (overwrite xs at (stored w v)) at w h (rw length-overwrite k))
      (ap (λ bs. some (from_le_bytes bs)) slice ∙ ap some (from_le_bytes-stored w v h))
  where
    size : length (stored w v) ≡ w
    size = length-stored w v (IsWidth-le w h)

    slice : take w (drop at (overwrite xs at (stored w v))) ≡ stored w v
    slice =
        subst (λ n. take n (drop at (overwrite xs at (stored w v))) ≡ stored w v) size
          (take-drop-overwrite_self xs at (stored w v) (rw size k))

-- A read of bytes that a write does not touch is as before.
pub read_le-overwrite :
    (xs : List ℕ) (at w v b n : ℕ)
    → w ≤ 4
    → (b + n ≤ at) ⊎ (at + w ≤ b)
    → read_le (overwrite xs at (stored w v)) b n ≡ read_le xs b n
unfolding read_le
read_le-overwrite xs at w v b n h (inl k) =
    rw (length-overwrite, take-drop-overwrite xs at (stored w v) b n k)
read_le-overwrite xs at w v b n h (inr k) =
    rw (length-overwrite, drop-overwrite xs at (stored w v) b (omega (arith, length-stored w v h)))
