-- ===== src/Csource/Init.antt =====
-- native/src/csource/init.rs: braced initializers, array declarations and struct shapes. A cursor is the
-- list of the tokens left. Each loop takes one more than their number as fuel. The depth of brackets is
-- not cut to 32 bits.
pub mod Structs
pub mod Laws
pub mod Arrays
pub mod Ints
use click_doom.Base.{
  ℕ, zero, suc, ◌+◌, Bool, true, false, not, ◌&&◌, ◌||◌, Option, none, some, List, [], ◌∷◌, ◌++◌,
  ◌==◌, if◌then◌else◌, length, take, drop, replicate, Outcome, ok, err, panic,
}
use click_doom.Base.Int.{ℤ, pos, negsuc, ◌+ℤ◌}
use click_doom.Csource.{
  Text, Token, ident, int, str, punct, directive, Tok, Found, found, braced_list, empty_initializer,
  expected, no_array, no_struct, struct_shape, Stop, stopped, no_fuel, and_then,
}
use click_doom.Csource.Chars.{span}
use click_doom.Csource.Table.{Symbols, text_eq}
use click_doom.Csource.Expr.{eval}
use click_doom.Csource.Symbols.{closes, is_punct, is_zero, next_is, name_of, skip_tag}
use Prim.Native.String.{String}

pub record Ctx : Type 0 where
  pub file : Text
  pub symbols : Symbols

mutual
  pub data Node : Type 0 where
    leaf : ℕ → List Tok → Node
    braced : ℕ → Nodes → Node

  pub data Nodes : Type 0 where
    no_nodes : Nodes
    node : Node → Nodes → Nodes

pub record Array : Type 0 where
  pub bounds : List (Option ℕ)
  pub root : Node

abbrev pub line_of : Node → ℕ
line_of (leaf line toks) = line
line_of (braced line items) = line

abbrev pub found_first : List Tok → Found
found_first [] = empty_initializer
found_first (t ∷ ts) = found t.token

abbrev pub found_node : Node → Found
found_node (braced line items) = braced_list
found_node (leaf line toks) = found_first toks

abbrev pub fail_node {ℓ} : {A : Type ℓ} → Ctx → Node → String → Outcome Stop A
fail_node ctx n want = err (stopped (expected ctx.file (line_of n) want (found_node n)))

unfoldable pub list : Ctx → Node → Outcome Stop Nodes
list ctx (braced line items) = ok items
list ctx (leaf line toks) = fail_node ctx (leaf line toks) "a braced list"

mutual
  pub int_value : Ctx → Node → Outcome Stop ℕ
  int_value ctx (leaf line toks) = eval ctx.file toks ctx.symbols
  int_value ctx (braced line items) = only_int ctx line items

  -- `items.len() == 1`.
  pub only_int : Ctx → ℕ → Nodes → Outcome Stop ℕ
  only_int ctx line no_nodes = fail_node ctx (braced line no_nodes) "an integer"
  only_int ctx line (node n no_nodes) = int_value ctx n
  only_int ctx line (node n (node m rest)) =
      fail_node ctx (braced line (node n (node m rest))) "an integer"

abbrev pub one_name : Ctx → ℕ → List Tok → Outcome Stop Text
one_name ctx line [] = fail_node ctx (leaf line []) "one identifier"
one_name ctx line (t ∷ []) = elim (t.token) [
  | ident n ↦ ok n
  | _ ↦ fail_node ctx (leaf line (t ∷ [])) "one identifier"
]
one_name ctx line (t ∷ u ∷ us) = fail_node ctx (leaf line (t ∷ u ∷ us)) "one identifier"

mutual
  pub name_value : Ctx → Node → Outcome Stop Text
  name_value ctx (leaf line toks) = one_name ctx line toks
  name_value ctx (braced line items) = only_name ctx line items

  pub only_name : Ctx → ℕ → Nodes → Outcome Stop Text
  only_name ctx line no_nodes = fail_node ctx (braced line no_nodes) "one identifier"
  only_name ctx line (node n no_nodes) = name_value ctx n
  only_name ctx line (node n (node m rest)) =
      fail_node ctx (braced line (node n (node m rest))) "one identifier"

-- The text up to its first NUL.
abbrev pub before_nul : Text → Text
before_nul text = take (span (λ c. not (c == 0)) text) text

unfoldable pub text_value : Ctx → Node → Outcome Stop Text
text_value ctx (leaf line (t ∷ [])) = elim (t.token) [
  | str text ↦ ok (before_nul text)
  | _ ↦ fail_node ctx (leaf line (t ∷ [])) "a string literal"
]
text_value ctx n = fail_node ctx n "a string literal"

-- The loop of `ints` over at most `arity` items, and its fill of zeros.
abbrev pub push_int : ℕ → List ℕ → Outcome Stop (List ℕ)
push_int v out = ok (v ∷ out)

unfoldable pub ints_of : Ctx → ℕ → Nodes → Outcome Stop (List ℕ)
ints_of ctx zero items = ok []
ints_of ctx (suc n) no_nodes = ok (0 ∷ replicate n 0)
ints_of ctx (suc n) (node i items) =
    and_then (int_value ctx i) (λ v. and_then (ints_of ctx n items) (push_int v))

unfoldable pub ints : Ctx → Node → ℕ → Outcome Stop (List ℕ)
ints ctx n arity = and_then (list ctx n) (ints_of ctx arity)

-- `leaf_end`, as the number of tokens in the leaf.
abbrev pub opens_group : Token → Bool
opens_group (punct p) = text_eq p (b'(' ∷ []) || text_eq p (b'[' ∷ [])
opens_group _ = false

abbrev pub separates : Token → Bool
separates t = is_punct (b',' ∷ []) t || is_punct (b'}' ∷ []) t

abbrev pub leaf_end : ℤ → List Tok → ℕ
leaf_end depth [] = 0
leaf_end depth (t ∷ ts) =
    let deeper = leaf_end (depth +ℤ pos 1) ts in
    let shallower = leaf_end (depth +ℤ negsuc 0) ts in
    let level = leaf_end depth ts in
    if opens_group t.token
    then suc deeper
    else if closes t.token
    then suc shallower
    else if separates t.token && is_zero depth
    then 0
    else suc level

abbrev pub first_line : List Tok → ℕ
first_line [] = 0
first_line (t ∷ ts) = t.line

abbrev pub ReadNodes : Type 0
ReadNodes = Outcome Stop (Nodes × List Tok)

abbrev pub ReadNode : Type 0
ReadNode = Outcome Stop (Node × List Tok)

abbrev pub push_node : Node → Nodes × List Tok → ReadNodes
push_node n (items, rest) = ok (node n items, rest)

-- The loop over the items, after the brace.
abbrev pub item_step : (List Tok → ReadNode) → (List Tok → ReadNodes) → Tok → List Tok → ReadNodes
item_step read again t ts =
    if is_punct (b'}' ∷ []) t.token
    then ok (no_nodes, ts)
    else if is_punct (b',' ∷ []) t.token
    then again ts
    else and_then (read (t ∷ ts)) (λ r. and_then (again (r.1)) (push_node (r.0)))

unfoldable pub read_items : ℕ → (List Tok → ReadNode) → List Tok → ReadNodes
read_items zero read ts = err no_fuel
read_items (suc n) read [] = ok (no_nodes, [])
read_items (suc n) read (t ∷ ts) = item_step read (read_items n read) t ts

abbrev pub as_list : ℕ → Nodes × List Tok → ReadNode
as_list line (items, rest) = ok (braced line items, rest)

unfoldable pub read_node : ℕ → List Tok → ReadNode
read_node zero ts = err no_fuel
read_node (suc n) ts =
    let toks = drop 1 ts in
    let end = leaf_end (pos 0) ts in
    if next_is (b'{' ∷ []) ts
    then and_then (read_items (suc (length toks)) (read_node n) toks) (as_list (first_line ts))
    else ok (leaf (first_line ts) (take end ts), drop end ts)

-- `read_bounds`: the tokens up to a `]`.
abbrev pub bound_end : List Tok → ℕ
bound_end [] = 0
bound_end (t ∷ ts) = let rest = bound_end ts in if is_punct (b']' ∷ []) t.token then 0 else suc rest

abbrev pub Bounds : Type 0
Bounds = List (Option ℕ) × List Tok

unfoldable pub bound_value : Ctx → List Tok → Outcome Stop (Option ℕ)
bound_value ctx [] = ok none
bound_value ctx (t ∷ ts) = and_then (eval ctx.file (t ∷ ts) ctx.symbols) (λ v. ok (some v))

abbrev pub push_bound : Option ℕ → Bounds → Outcome Stop Bounds
push_bound b (bounds, rest) = ok (b ∷ bounds, rest)

abbrev pub bounds_step : Ctx → List Tok → (List Tok → Outcome Stop Bounds) → Outcome Stop Bounds
bounds_step ctx ts again =
    let toks = drop 1 ts in
    let end = bound_end toks in
    if next_is (b'[' ∷ []) ts
    then and_then (bound_value ctx (take end toks))
        (λ b. and_then (again (drop (suc end) toks)) (push_bound b))
    else ok ([], ts)

unfoldable pub read_bounds : ℕ → Ctx → List Tok → Outcome Stop Bounds
read_bounds zero ctx ts = err no_fuel
read_bounds (suc n) ctx ts = bounds_step ctx ts (read_bounds n ctx)

-- `find_array` at each token in turn.
abbrev pub array_of : Outcome Stop Array → List (Option ℕ) → Node → Outcome Stop Array
array_of next bounds (braced line items) = ok (record { bounds = bounds; root = braced line items })
array_of next bounds (leaf line toks) = next

abbrev pub initialized : Outcome Stop Array → Bounds → Outcome Stop Array
initialized next ([], rest) = next
initialized next (b ∷ bs, rest) =
    if next_is (b'=' ∷ []) rest
    then and_then (read_node (suc (length (drop 1 rest))) (drop 1 rest))
        (λ r. array_of next (b ∷ bs) (r.0))
    else next

abbrev pub is_name : Text → Token → Bool
is_name name (ident n) = text_eq n name
is_name name _ = false

unfoldable pub find_array : Ctx → Text → List Tok → Outcome Stop Array
find_array ctx name [] = err (stopped (no_array ctx.file name))
find_array ctx name (t ∷ ts) =
    let next = find_array ctx name ts in
    if is_name name t.token
    then and_then (read_bounds (suc (length ts)) ctx ts) (initialized next)
    else next
