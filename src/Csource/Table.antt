-- ===== src/Csource/Table.antt =====
-- The table of native/src/csource/symbols.rs: names with their values, names with two, and the
-- definitions that wait. A map and a set are lists, in which a name stands once.
pub mod Laws
use click_doom.Base.{
  ℕ, Bool, true, false, ◌&&◌, ◌||◌, Option, none, some, List, [], ◌∷◌, ◌==◌, if◌then◌else◌,
}
use click_doom.Csource.{Text, Tok}

abbrev pub text_eq : Text → Text → Bool
text_eq [] [] = true
text_eq [] (y ∷ ys) = false
text_eq (x ∷ xs) [] = false
text_eq (x ∷ xs) (y ∷ ys) = let rest = text_eq xs ys in x == y && rest

-- `Pending`: an enumerator's explicit value, one with no `=`, and the first are the last three.
pub data Pending : Type 0 where
  define : Text → Text → Pending
  value : Text → List Tok → Pending
  after : Text → Pending
  first : Pending

pub record Symbols : Type 0 where
  pub values : List (Text × ℕ)
  pub ambiguous : List Text
  pub pending : List (Text × Pending)

abbrev pub lookup : Text → List (Text × ℕ) → Option ℕ
lookup name [] = none
lookup name ((key, v) ∷ rest) =
    let later = lookup name rest in if text_eq name key then some v else later

abbrev pub contains : Text → List Text → Bool
contains name [] = false
contains name (x ∷ xs) = let later = contains name xs in text_eq name x || later

unfoldable pub get : Symbols → Text → Option ℕ
get symbols name = lookup name symbols.values

unfoldable pub is_ambiguous : Symbols → Text → Bool
is_ambiguous symbols name = contains name symbols.ambiguous
