-- ===== src/Csource/Init/Arrays.antt =====
-- `find_array` of native/src/csource/init.rs.
use click_doom.Base.{
  ℕ, zero, suc, ◌≤◌, ◌<◌, Option, some, List, [], ◌∷◌, arith, if_both, length, take, drop,
  length-drop, Outcome, ok, err, panic,
}
use click_doom.Csource.{Text, Tok, Stop, stopped, no_fuel, and_then}
use click_doom.Csource.Table.{Symbols}
use click_doom.Csource.Expr.{eval}
use click_doom.Csource.Symbols.{next_is}
use click_doom.Csource.Expr.Refine.{Evaluates, eval-Evaluates}
use click_doom.Csource.Init.{
  Ctx, Node, leaf, braced, Array, ReadNode, read_node, bound_end, Bounds, bound_value, push_bound,
  bounds_step, read_bounds, array_of, initialized, is_name, find_array,
}
use click_doom.Csource.Init.Laws.{Leaves, Leaves-and_then, next_is_pos, read_node-Leaves}

eval-Leaves :
    (n : ℕ) (at : Option ℕ → List Tok) (s : Symbols) (toks : List Tok) (r : Outcome Stop ℕ)
    → ((v : ℕ) → length (at (some v)) ≤ n)
    → Evaluates s toks r
    → Leaves n at (and_then r (λ v. ok (some v)))
unfolding Leaves Evaluates
eval-Leaves n at s toks (ok v) le h = le v
eval-Leaves n at s toks (err (stopped e)) le h = tt
eval-Leaves n at s toks (err no_fuel) le h = h
eval-Leaves n at s toks panic le h = tt

bound_value-Leaves : (ctx : Ctx) (toks : List Tok) → Leaves 0 (λ o. []) (bound_value ctx toks)
unfolding Leaves bound_value
bound_value-Leaves ctx [] = omega arith
bound_value-Leaves ctx (t ∷ ts) =
    eval-Leaves 0 (λ o. []) ctx.symbols (t ∷ ts) (eval ctx.file (t ∷ ts) ctx.symbols)
      (λ v. omega arith) (eval-Evaluates ctx.file (t ∷ ts) ctx.symbols)

push_bound-Leaves :
    (n : ℕ) (b : Option ℕ) (r : Bounds) → length (r.1) ≤ n → Leaves n (λ q. q.1) (push_bound b r)
unfolding Leaves
push_bound-Leaves n b (bounds, rest) h = h

bounds_step-Leaves :
    (n : ℕ) (ctx : Ctx) (ts : List Tok) (again : List Tok → Outcome Stop Bounds)
    → length ts < suc n
    → ((us : List Tok) → length us < n → Leaves (length us) (λ r. r.1) (again us))
    → Leaves (length ts) (λ r. r.1) (bounds_step ctx ts again)
unfolding Leaves
bounds_step-Leaves n ctx ts again fuel next =
    let toks = drop 1 ts in
    let end = bound_end toks in
    let us = drop (suc end) toks in
    if_both (Leaves (length ts) (λ r. r.1)) (next_is (b'[' ∷ []) ts)
      (λ bracket.
        let more = next_is_pos (b'[' ∷ []) ts bracket in
        let fewer : length us < n =
          omega (arith, more, length-drop 1 ts, length-drop (suc end) toks) in
        Leaves-and_then 0 (length ts) (λ o. []) (λ r. r.1) (bound_value ctx (take end toks))
          (λ b. and_then (again us) (push_bound b)) (bound_value-Leaves ctx (take end toks))
          (λ b _.
            Leaves-and_then (length us) (length ts) (λ r. r.1) (λ r. r.1) (again us) (push_bound b)
              (next us fewer)
              (λ r le.
                push_bound-Leaves (length ts) b r
                  (omega (arith, length-drop 1 ts, length-drop (suc end) toks)))))
      (λ _. omega arith)

pub read_bounds-Leaves :
    (n : ℕ) (ctx : Ctx) (ts : List Tok)
    → length ts < n
    → Leaves (length ts) (λ r. r.1) (read_bounds n ctx ts)
unfolding read_bounds
read_bounds-Leaves zero ctx ts fuel = absurd (omega arith)
read_bounds-Leaves (suc n) ctx ts fuel =
    bounds_step-Leaves n ctx ts (read_bounds n ctx) fuel (read_bounds-Leaves n ctx)

-- What `find_array` gives: an array with a bound and a braced list. The fuel does not run out.
abbrev pub IsBraced : Node → Type 0
IsBraced (braced line items) = Unit
IsBraced (leaf line toks) = ⊥

unfoldable pub Finds : Outcome Stop Array → Type 0
Finds (ok a) = (1 ≤ length a.bounds) × IsBraced a.root
Finds (err (stopped e)) = Unit
Finds (err no_fuel) = ⊥
Finds panic = Unit

array_of-Finds :
    (next : Outcome Stop Array) (b : Option ℕ) (bs : List (Option ℕ)) (r : ReadNode) (ts : List Tok)
    → Finds next
    → Leaves (length ts) (λ q. q.1) r
    → Finds (and_then r (λ q. array_of next (b ∷ bs) (q.0)))
unfolding Finds Leaves
array_of-Finds next b bs (ok (braced line items, rest)) ts h l = (omega arith, tt)
array_of-Finds next b bs (ok (leaf line toks, rest)) ts h l = h
array_of-Finds next b bs (err (stopped e)) ts h l = tt
array_of-Finds next b bs (err no_fuel) ts h l = l
array_of-Finds next b bs panic ts h l = tt

initialized-Finds :
    (next : Outcome Stop Array) (r : Bounds) → Finds next → Finds (initialized next r)
initialized-Finds next ([], rest) h = h
initialized-Finds next (b ∷ bs, rest) h =
    let ts = drop 1 rest in
    if_both Finds (next_is (b'=' ∷ []) rest)
      (λ _. array_of-Finds next b bs (read_node (suc (length ts)) ts) ts h (read_node-Leaves ts))
      (λ _. h)

bounded-Finds :
    (n : ℕ) (next : Outcome Stop Array) (r : Outcome Stop Bounds)
    → Leaves n (λ q. q.1) r
    → Finds next
    → Finds (and_then r (initialized next))
unfolding Finds Leaves
bounded-Finds n next (ok r) l h = initialized-Finds next r h
bounded-Finds n next (err (stopped e)) l h = tt
bounded-Finds n next (err no_fuel) l h = l
bounded-Finds n next panic l h = tt

-- `find_array` ends on every list of tokens, and the array that it gives has one bound at least and a
-- braced list for its initializer.
pub find_array-Finds :
    (ctx : Ctx) (name : Text) (toks : List Tok) → Finds (find_array ctx name toks)
unfolding Finds find_array
find_array-Finds ctx name [] = tt
find_array-Finds ctx name (t ∷ ts) =
    if_both Finds (is_name name t.token)
      (λ _.
        bounded-Finds (length ts) (find_array ctx name ts) (read_bounds (suc (length ts)) ctx ts)
          (read_bounds-Leaves (suc (length ts)) ctx ts (omega arith))
          (find_array-Finds ctx name ts))
      (λ _. find_array-Finds ctx name ts)
