-- ===== src/Csource/Init/Laws.antt =====
-- The reading of initializers in native/src/csource/init.rs ends and moves on.
use click_doom.Base.{
  ℕ, zero, suc, ◌-◌, ◌≤◌, ◌<◌, ◌≡◌, true, false, List, [], ◌∷◌, arith, if_both, length, drop,
  length-drop, Outcome, ok, err, panic,
}
use click_doom.Base.Int.{ℤ, pos, negsuc, ◌+ℤ◌}
use click_doom.Csource.{Text, Tok, Stop, stopped, no_fuel, and_then}
use click_doom.Csource.Symbols.{is_punct, next_is}
use click_doom.Csource.Init.{
  Node, Nodes, separates, leaf_end, first_line, ReadNodes, ReadNode, push_node, item_step,
  read_items, as_list, read_node,
}

leaf_end_le : (depth : ℤ) (ts : List Tok) → leaf_end depth ts ≤ length ts
leaf_end_le depth [] = omega arith
leaf_end_le depth (t ∷ ts) = ground (
  arith,
  leaf_end_le (depth +ℤ pos 1) ts,
  leaf_end_le (depth +ℤ negsuc 0) ts,
  leaf_end_le depth ts,
)

leaf_end_pos : (t : Tok) (ts : List Tok) → separates t.token ≡ false → 1 ≤ leaf_end (pos 0) (t ∷ ts)
leaf_end_pos t ts h = ground (arith, h)

-- A result with at most `n` tokens left. The fuel does not run out.
unfoldable pub Leaves : {A : Type 0} → ℕ → (A → List Tok) → Outcome Stop A → Type 0
Leaves n at (ok a) = length (at a) ≤ n
Leaves n at (err (stopped e)) = Unit
Leaves n at (err no_fuel) = ⊥
Leaves n at panic = Unit

pub Leaves-and_then :
    {A B : Type 0} (n m : ℕ) (at : A → List Tok) (to : B → List Tok) (r : Outcome Stop A)
    (f : A → Outcome Stop B)
    → Leaves n at r
    → ((a : A) → length (at a) ≤ n → Leaves m to (f a))
    → Leaves m to (and_then r f)
unfolding Leaves
Leaves-and_then n m at to (ok a) f h next = next a h
Leaves-and_then n m at to (err (stopped e)) f h next = tt
Leaves-and_then n m at to (err no_fuel) f h next = h
Leaves-and_then n m at to panic f h next = tt

Leaves-weaken :
    {A : Type 0} (n m : ℕ) (at : A → List Tok) (r : Outcome Stop A)
    → n ≤ m
    → Leaves n at r
    → Leaves m at r
unfolding Leaves
Leaves-weaken n m at (ok a) le h = omega arith
Leaves-weaken n m at (err (stopped e)) le h = tt
Leaves-weaken n m at (err no_fuel) le h = h
Leaves-weaken n m at panic le h = tt

-- A reader of nodes that moves on, on every list of fewer than `bound` tokens that does not start with
-- a separator.
abbrev MovesOn : ℕ → (List Tok → ReadNode) → Type 0
MovesOn bound read =
    (t : Tok) (ts : List Tok)
    → suc (length ts) < bound
    → separates t.token ≡ false
    → Leaves (length ts) (λ r. r.1) (read (t ∷ ts))

push_node-Leaves :
    (n : ℕ) (i : Node) (r : Nodes × List Tok)
    → length (r.1) ≤ n
    → Leaves n (λ q. q.1) (push_node i r)
unfolding Leaves
push_node-Leaves n i (items, rest) h = h

item_step-Leaves :
    (n bound : ℕ) (read : List Tok → ReadNode) (again : List Tok → ReadNodes) (t : Tok)
    (ts : List Tok)
    → MovesOn bound read
    → suc (length ts) < bound
    → length ts < n
    → ((us : List Tok)
        → length us < n
        → length us < bound
        → Leaves (length us) (λ r. r.1) (again us))
    → Leaves (suc (length ts)) (λ r. r.1) (item_step read again t ts)
unfolding Leaves
item_step-Leaves n bound read again t ts moves small fuel next =
    if_both P (is_punct (b'}' ∷ []) t.token) (λ _. omega arith)
      (λ not_end.
        if_both P (is_punct (b',' ∷ []) t.token)
          (λ _.
            Leaves-weaken (length ts) (suc (length ts)) (λ r. r.1) (again ts) (omega arith)
              (next ts fuel (omega arith)))
          (λ not_comma.
            Leaves-and_then (length ts) (suc (length ts)) (λ r. r.1) (λ r. r.1) (read (t ∷ ts))
              (λ r. and_then (again (r.1)) (push_node (r.0)))
              (moves t ts small (ground (arith, not_end, not_comma)))
              (λ r le.
                Leaves-and_then (length (r.1)) (suc (length ts)) (λ q. q.1) (λ q. q.1) (again (r.1))
                  (push_node (r.0)) (next (r.1) (omega arith) (omega arith))
                  (λ q le2. push_node-Leaves (suc (length ts)) (r.0) q (omega arith)))))
  where
    P : ReadNodes → Type 0
    P = Leaves (suc (length ts)) (λ r. r.1)

read_items-Leaves :
    (n bound : ℕ) (read : List Tok → ReadNode) (ts : List Tok)
    → MovesOn bound read
    → length ts < n
    → length ts < bound
    → Leaves (length ts) (λ r. r.1) (read_items n read ts)
unfolding Leaves read_items
read_items-Leaves zero bound read ts moves fuel small = absurd (omega arith)
read_items-Leaves (suc n) bound read [] moves fuel small = omega arith
read_items-Leaves (suc n) bound read (t ∷ ts) moves fuel small =
    item_step-Leaves n bound read (read_items n read) t ts moves small (omega arith)
      (λ us fewer below. read_items-Leaves n bound read us moves fewer below)

as_list-Leaves :
    (n line : ℕ) (r : Nodes × List Tok) → length (r.1) ≤ n → Leaves n (λ q. q.1) (as_list line r)
unfolding Leaves
as_list-Leaves n line (items, rest) h = h

pub next_is_pos : (sign : Text) (ts : List Tok) → next_is sign ts ≡ true → 1 ≤ length ts
next_is_pos sign [] h = absurd (cc h)
next_is_pos sign (t ∷ ts) h = omega arith

-- The list after its brace, read by a reader that moves on.
braced-Leaves :
    (n : ℕ) (read : List Tok → ReadNode) (ts : List Tok)
    → MovesOn n read
    → 1 ≤ length ts
    → length ts < suc n
    → Leaves
        (length ts - 1)
        (λ r. r.1)
        (and_then
          (read_items (suc (length (drop 1 ts))) read (drop 1 ts))
          (as_list (first_line ts)))
braced-Leaves n read ts moves more fuel =
    let size = length-drop 1 ts in
    Leaves-and_then (length (drop 1 ts)) (length ts - 1) (λ r. r.1) (λ r. r.1)
      (read_items (suc (length (drop 1 ts))) read (drop 1 ts)) (as_list (first_line ts))
      (read_items-Leaves (suc (length (drop 1 ts))) n read (drop 1 ts) moves (omega arith)
        (omega (arith, size)))
      (λ r le. as_list-Leaves (length ts - 1) (first_line ts) r (omega (arith, size)))

read_node-MovesOn : (n : ℕ) → MovesOn n (read_node n)
unfolding Leaves read_node
read_node-MovesOn zero t ts small sep = absurd (omega arith)
read_node-MovesOn (suc n) t ts small sep =
    if_both (Leaves (length ts) (λ r. r.1)) (next_is (b'{' ∷ []) (t ∷ ts))
      (λ _.
        Leaves-weaken (suc (length ts) - 1) (length ts) (λ r. r.1)
          (and_then (read_items (suc (length ts)) (read_node n) ts) (as_list t.line)) (omega arith)
          (braced-Leaves n (read_node n) (t ∷ ts) (read_node-MovesOn n) (omega arith)
            (omega arith)))
      (λ _. omega (arith, length-drop (leaf_end (pos 0) (t ∷ ts)) (t ∷ ts), leaf_end_pos t ts sep))

pub read_node-Leaves :
    (ts : List Tok) → Leaves (length ts) (λ r. r.1) (read_node (suc (length ts)) ts)
unfolding Leaves read_node
read_node-Leaves ts =
    if_both (Leaves (length ts) (λ r. r.1)) (next_is (b'{' ∷ []) ts)
      (λ brace.
        Leaves-weaken (length ts - 1) (length ts) (λ r. r.1)
          (and_then (read_items (suc (length (drop 1 ts))) (read_node (length ts)) (drop 1 ts))
            (as_list (first_line ts)))
          (omega arith)
          (braced-Leaves (length ts) (read_node (length ts)) ts (read_node-MovesOn (length ts))
            (next_is_pos (b'{' ∷ []) ts brace) (omega arith)))
      (λ _. omega (arith, length-drop (leaf_end (pos 0) ts) ts))

-- `read_node` on a list of tokens that does not start with `,` or `}` ends, whatever brackets are
-- nested or left open, and moves over one token at least.
pub read_node-Leaves_fewer :
    (t : Tok) (ts : List Tok)
    → separates t.token ≡ false
    → Leaves (length ts) (λ r. r.1) (read_node (suc (length (t ∷ ts))) (t ∷ ts))
read_node-Leaves_fewer t ts sep = read_node-MovesOn (suc (length (t ∷ ts))) t ts (omega arith) sep
