-- ===== src/Csource/Init/Structs.antt =====
-- The struct shapes of native/src/csource/init.rs: the fields of a struct, and whether they are those
-- expected.
use click_doom.Base.{
  ℕ, suc, Bool, true, false, ◌&&◌, ◌||◌, Option, none, some, List, [], ◌∷◌, if◌then◌else◌, take,
  drop, Outcome, ok, err,
}
use click_doom.Base.Int.{ℤ, pos, negsuc, ◌+ℤ◌}
use click_doom.Csource.{Text, Token, Tok, no_struct, struct_shape, Stop, stopped, and_then}
use click_doom.Csource.Table.{text_eq}
use click_doom.Csource.Symbols.{is_punct, is_zero, next_is, name_of, skip_tag}
use click_doom.Csource.Init.{Ctx, is_name}

-- `matching_brace`, as the number of tokens before the brace, from the one that opens.
abbrev pub next_offset : Option ℕ → Option ℕ
next_offset none = none
next_offset (some k) = some (suc k)

abbrev pub matching_brace : ℤ → List Tok → Option ℕ
matching_brace depth [] = none
matching_brace depth (t ∷ ts) =
    let deeper = matching_brace (depth +ℤ pos 1) ts in
    let shallower = matching_brace (depth +ℤ negsuc 0) ts in
    let level = matching_brace depth ts in
    if is_punct (b'{' ∷ []) t.token
    then next_offset deeper
    else if is_punct (b'}' ∷ []) t.token
    then if is_zero (depth +ℤ negsuc 0) then some 0 else next_offset shallower
    else next_offset level

-- `field_names`: `last` is the identifier seen last.
abbrev pub names_after : Option Text → List Text → List Text
names_after none rest = rest
names_after (some n) rest = n ∷ rest

abbrev pub ends_name : Token → Bool
ends_name t = is_punct (b';' ∷ []) t || is_punct (b'[' ∷ []) t

abbrev pub field_names : Option Text → List Tok → List Text
field_names last [] = []
field_names last (t ∷ ts) =
    let taken = field_names none ts in
    let kept = field_names last ts in
    elim (name_of t.token) [
      | some n ↦ field_names (some n) ts
      | none ↦ if ends_name t.token then names_after last taken else kept
    ]

abbrev pub struct_word : Text
struct_word = b's' ∷ b't' ∷ b'r' ∷ b'u' ∷ b'c' ∷ b't' ∷ []

abbrev pub next_is_name : Text → List Tok → Bool
next_is_name name [] = false
next_is_name name (t ∷ ts) = is_name name t.token

-- The struct whose brace opens `ts`, if it is the one named; else the next.
abbrev pub fields_to :
    Text → List Tok → Outcome Stop (List Text) → Option ℕ → Outcome Stop (List Text)
fields_to name ts next none = next
fields_to name ts next (some close) =
    if next_is_name name (drop (suc close) ts)
    then ok (field_names none (drop 1 (take close ts)))
    else next

abbrev pub struct_at : Text → List Tok → Outcome Stop (List Text) → Outcome Stop (List Text)
struct_at name ts next =
    if next_is (b'{' ∷ []) ts then fields_to name ts next (matching_brace (pos 0) ts) else next

unfoldable pub struct_fields : Ctx → List Tok → Text → Outcome Stop (List Text)
struct_fields ctx [] name = err (stopped (no_struct ctx.file name))
struct_fields ctx (t ∷ ts) name =
    let next = struct_fields ctx ts name in
    if is_name struct_word t.token then struct_at name (skip_tag ts) next else next

abbrev pub names_eq : List Text → List Text → Bool
names_eq [] [] = true
names_eq [] (y ∷ ys) = false
names_eq (x ∷ xs) [] = false
names_eq (x ∷ xs) (y ∷ ys) = let rest = names_eq xs ys in text_eq x y && rest

abbrev pub same_fields : Ctx → Text → List Text → List Text → Outcome {0, 0} Stop Unit
same_fields ctx name fields actual =
    if names_eq actual fields
    then ok tt
    else err (stopped (struct_shape ctx.file name fields actual))

unfoldable pub check_struct : Ctx → List Tok → Text → List Text → Outcome {0, 0} Stop Unit
check_struct ctx toks name fields =
    and_then (struct_fields ctx toks name) (same_fields ctx name fields)
