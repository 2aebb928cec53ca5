-- ===== src/Csource/Symbols/Laws.antt =====
-- What a definition does to the table of native/src/csource/symbols.rs.
use click_doom.Base.{
  ℕ, ◌≡◌, refl, sym, ap, ◌∙◌, Bool, true, false, ◌&&◌, ◌||◌, Option, none, some, List, [], ◌∷◌,
  arith, if_both, if◌then◌else◌,
}
use click_doom.Csource.{Text}
use click_doom.Csource.Table.{Symbols, text_eq, lookup, contains, get, is_ambiguous}
use click_doom.Csource.Table.Laws.{text_eq_eq, text_eq_refl, text_eq_left, text_eq_right}
use click_doom.Csource.Symbols.{insert, remove, differs, define_name}

lookup-insert :
    (m n : Text) (v : ℕ) (xs : List (Text × ℕ))
    → lookup m (insert n v xs) ≡ (if text_eq m n then some v else lookup m xs)
lookup-insert m n v [] = refl
lookup-insert m n v ((key, w) ∷ xs) =
    ground (arith, lookup-insert m n v xs, text_eq_left m n key, text_eq_right m n key)

lookup-remove :
    (m n : Text) (xs : List (Text × ℕ))
    → lookup m (remove n xs) ≡ (if text_eq m n then none else lookup m xs)
lookup-remove m n [] = if_both (λ o. none ≡ o) (text_eq m n) (λ _. refl) (λ _. refl)
lookup-remove m n ((key, w) ∷ xs) =
    ground (arith, lookup-remove m n xs, text_eq_left m n key, text_eq_right m n key)

abbrev pub Separate : Symbols → Type 0
Separate s = (n : Text) → is_ambiguous s n ≡ true → get s n ≡ none

-- A name that has a value, or more than one.
abbrev is_some : Option ℕ → Bool
is_some none = false
is_some (some v) = true

abbrev pub Known : Symbols → Text → Type 0
Known s n = (is_ambiguous s n || is_some (get s n)) ≡ true

-- `define` in full: a name with two values has none, a second value takes the first away, and every
-- other name keeps what it has.
pub get-define_name :
    (s : Symbols) (n m : Text) (v : ℕ)
    → get (define_name n v s) m ≡ (
        if text_eq m n
        then (if is_ambiguous s n then get s m else if differs v (get s n) then none else some v)
        else get s m)
unfolding get define_name
get-define_name s n m v = ground (
  arith,
  lookup-insert m n v s.values,
  lookup-remove m n (insert n v s.values),
  text_eq_left m n n,
)

contains_same : (m n : Text) (xs : List Text) → text_eq m n ≡ true → contains m xs ≡ contains n xs
contains_same m n xs h = ap (λ x. contains x xs) (text_eq_eq m n h)

pub is_ambiguous-define_name :
    (s : Symbols) (n m : Text) (v : ℕ)
    → is_ambiguous (define_name n v s) m ≡ (is_ambiguous s m || text_eq m n && differs v (get s n))
unfolding is_ambiguous define_name
is_ambiguous-define_name s n m v = ground (arith, contains_same m n s.ambiguous)

get_same : (s : Symbols) (m n : Text) → text_eq m n ≡ true → get s m ≡ get s n
get_same s m n h = ap (get s) (text_eq_eq m n h)

ambiguous_same :
    (s : Symbols) (m n : Text) → text_eq m n ≡ true → is_ambiguous s m ≡ is_ambiguous s n
ambiguous_same s m n h = ap (is_ambiguous s) (text_eq_eq m n h)

same_if_unset : (v : ℕ) (o : Option ℕ) → o ≡ none → differs v o ≡ false
same_if_unset v o h = cc h

pub define_name-Separate :
    (s : Symbols) (n : Text) (v : ℕ) → Separate s → Separate (define_name n v s)
define_name-Separate s n v h m a =
    let was : (is_ambiguous s m || text_eq m n && differs v (get s n)) ≡ true =
      sym (is_ambiguous-define_name s n m v) ∙ a in
    get-define_name s n m v
    ∙ ground (arith, h m, get_same s m n, ambiguous_same s m n, same_if_unset v (get s n), was)

pub define_name-Known_self : (s : Symbols) (n : Text) (v : ℕ) → Known (define_name n v s) n
define_name-Known_self s n v =
    ground (arith, text_eq_refl n, get-define_name s n n v, is_ambiguous-define_name s n n v)

-- A name that is known stays known.
pub define_name-Known : (s : Symbols) (n m : Text) (v : ℕ) → Known s m → Known (define_name n v s) m
define_name-Known s n m v h = ground (
  arith,
  h,
  get-define_name s n m v,
  is_ambiguous-define_name s n m v,
  get_same s m n,
  ambiguous_same s m n,
)
