-- ===== src/Memory/Slices.antt =====
-- A slice that is copied into an array: what can be read there afterwards, and what stays.
use click_doom.Base.{
  ℕ, zero, suc, ◌+◌, ◌≤◌, ◌≡◌, refl, ap, List, [], ◌∷◌, arith, length, take, drop, All,
}
use click_doom.Memory.{overlay, overwrite}

module _ {ℓ} {A : Type ℓ} where
  length-overlay : (xs ys : List A) → length (overlay xs ys) ≡ length xs
  length-overlay xs [] = refl
  length-overlay [] (y ∷ ys) = refl
  length-overlay (x ∷ xs) (y ∷ ys) = ap suc (length-overlay xs ys)

  pub length-overwrite :
      (xs : List A) (at : ℕ) (ys : List A) → length (overwrite xs at ys) ≡ length xs
  length-overwrite xs zero ys = length-overlay xs ys
  length-overwrite [] (suc at) ys = refl
  length-overwrite (x ∷ xs) (suc at) ys = ap suc (length-overwrite xs at ys)

  take-overlay : (xs ys : List A) → length ys ≤ length xs → take (length ys) (overlay xs ys) ≡ ys
  take-overlay xs [] h = refl
  take-overlay [] (y ∷ ys) h = absurd (omega arith)
  take-overlay (x ∷ xs) (y ∷ ys) h = ap (λ zs. y ∷ zs) (take-overlay xs ys (omega arith))

  -- The copied range reads as the slice.
  pub take-drop-overwrite_self :
      (xs : List A) (at : ℕ) (ys : List A)
      → at + length ys ≤ length xs
      → take (length ys) (drop at (overwrite xs at ys)) ≡ ys
  take-drop-overwrite_self xs zero ys h = take-overlay xs ys (omega arith)
  take-drop-overwrite_self [] (suc at) ys h = absurd (omega arith)
  take-drop-overwrite_self (x ∷ xs) (suc at) ys h = take-drop-overwrite_self xs at ys (omega arith)

  drop-overlay : (xs ys : List A) (b : ℕ) → length ys ≤ b → drop b (overlay xs ys) ≡ drop b xs
  drop-overlay xs [] b h = refl
  drop-overlay [] (y ∷ ys) b h = refl
  drop-overlay (x ∷ xs) (y ∷ ys) zero h = absurd (omega arith)
  drop-overlay (x ∷ xs) (y ∷ ys) (suc b) h = drop-overlay xs ys b (omega arith)

  -- Behind the copied range nothing changes.
  pub drop-overwrite :
      (xs : List A) (at : ℕ) (ys : List A) (b : ℕ)
      → at + length ys ≤ b
      → drop b (overwrite xs at ys) ≡ drop b xs
  drop-overwrite xs zero ys b h = drop-overlay xs ys b (omega arith)
  drop-overwrite [] (suc at) ys b h = refl
  drop-overwrite (x ∷ xs) (suc at) ys zero h = absurd (omega arith)
  drop-overwrite (x ∷ xs) (suc at) ys (suc b) h = drop-overwrite xs at ys b (omega arith)

  -- Before it nothing changes.
  pub take-drop-overwrite :
      (xs : List A) (at : ℕ) (ys : List A) (b n : ℕ)
      → b + n ≤ at
      → take n (drop b (overwrite xs at ys)) ≡ take n (drop b xs)
  take-drop-overwrite xs at ys b zero h = refl
  take-drop-overwrite xs zero ys b (suc n) h = absurd (omega arith)
  take-drop-overwrite [] (suc at) ys b (suc n) h = refl
  take-drop-overwrite (x ∷ xs) (suc at) ys zero (suc n) h =
      ap (λ zs. x ∷ zs) (take-drop-overwrite xs at ys zero n (omega arith))
  take-drop-overwrite (x ∷ xs) (suc at) ys (suc b) (suc n) h =
      take-drop-overwrite xs at ys b (suc n) (omega arith)

  All-overlay {κ} : (P : A → Type κ) (xs ys : List A) → All P xs → All P ys → All P (overlay xs ys)
  All-overlay P xs [] hx hy = hx
  All-overlay P [] (y ∷ ys) hx hy = tt
  All-overlay P (x ∷ xs) (y ∷ ys) hx hy = (hy.0, All-overlay P xs ys hx.1 hy.1)

  pub All-overwrite {κ} :
      (P : A → Type κ) (xs : List A) (at : ℕ) (ys : List A)
      → All P xs
      → All P ys
      → All P (overwrite xs at ys)
  All-overwrite P xs zero ys hx hy = All-overlay P xs ys hx hy
  All-overwrite P [] (suc at) ys hx hy = tt
  All-overwrite P (x ∷ xs) (suc at) ys hx hy = (hx.0, All-overwrite P xs at ys hx.1 hy)
