-- ===== src/Csource/Lex/Moving.antt =====
-- How the cursor of native/src/csource/lex.rs moves: every step of the lexer is one `bump`.
use click_doom.Base.{
  ℕ, zero, suc, ◌+◌, ◌-◌, ◌^◌, ◌≤◌, ◌<◌, ◌≡◌, refl, sym, ap, subst, ap₂, ◌∙◌, [], ◌∷◌, arith, ltb,
  if_both, length, take, drop, All, All-drop, length-drop, ok, err, panic,
}
use click_doom.Csource.{Text, stopped, no_fuel, and_then}
use click_doom.Csource.Chars.{newlines, first_byte}
use click_doom.Csource.Lex.{Cursor, Scan, bump, bump_byte, peek, first_of, or_fail}
use Prim.Native.String.{String}

abbrev pub IsAscii : Text → Type 0
IsAscii = All (λ c. c < 0x80)

drop-nil : (n : ℕ) → drop {A = ℕ} n [] ≡ []
drop-nil zero = refl
drop-nil (suc n) = refl

zero_plus : (m : ℕ) → m ≡ 0 + m
zero_plus m = omega arith

succ_plus : (n m : ℕ) → suc (n + m) ≡ suc n + m
succ_plus n m = omega arith

no_newlines : (n : ℕ) → newlines (take n []) ≡ 0
no_newlines zero = refl
no_newlines (suc n) = refl

drop-drop : (n m : ℕ) (xs : Text) → drop m (drop n xs) ≡ drop (n + m) xs
drop-drop zero m xs = ap (λ k. drop k xs) (zero_plus m)
drop-drop (suc n) zero [] = sym (drop-nil (suc n + 0))
drop-drop (suc n) (suc m) [] = sym (drop-nil (suc n + suc m))
drop-drop (suc n) m (x ∷ xs) = drop-drop n m xs ∙ ap (λ k. drop k (x ∷ xs)) (succ_plus n m)

newlines-take_add :
    (n m : ℕ) (xs : Text)
    → newlines (take (n + m) xs) ≡ newlines (take n xs) + newlines (take m (drop n xs))
newlines-take_add zero m xs = omega (arith, ap (λ k. newlines (take k xs)) (zero_plus m))
newlines-take_add (suc n) m [] = omega (
  arith,
  no_newlines (suc n + m),
  ap (λ xs. newlines (take m xs)) (drop-nil (suc n)),
  no_newlines m,
)
newlines-take_add (suc n) m (x ∷ xs) =
    ground (arith, newlines-take_add n m xs, ap (λ k. newlines (take k (x ∷ xs))) (succ_plus n m))

pub bump-bump : (n m : ℕ) (c : Cursor) → bump m (bump n c) ≡ bump (n + m) c
unfolding bump
bump-bump n m c =
    ap₂ (λ r l. record { rest = r; line = l }) (drop-drop n m c.rest)
      (omega (arith, newlines-take_add n m c.rest))

abbrev pub Fits : Cursor → Type 0
Fits c = c.line < 2 ^ 32

-- The cursor moved from `c` by at least `low` characters and has at least `room` before it.
abbrev pub Moved : ℕ → ℕ → Cursor → Cursor → Type 0
Moved low room c c1 = (k : ℕ) × (low ≤ k) × (k + room ≤ length c.rest) × (c1 ≡ bump k c)

-- A result at a moved cursor, or an error of the source, or a panic, which only a text that is not
-- ASCII can cause. The fuel does not run out.
unfoldable pub Moves : {A : Type 0} → ℕ → ℕ → Cursor → (A → Cursor) → Scan A → Type 0
Moves low room c at (ok a) = Moved low room c (at a)
Moves low room c at (err (stopped e)) = Unit
Moves low room c at (err no_fuel) = ⊥
Moves low room c at panic = IsAscii c.rest → ⊥

pub length-bump : (k : ℕ) (c : Cursor) → length ((bump k c).rest) ≡ length c.rest - k
unfolding bump
length-bump k c = length-drop k c.rest

pub bump-Fits : (k : ℕ) (c : Cursor) → Fits (bump k c)
unfolding bump
bump-Fits k c = omega arith

pub bump_zero : (c : Cursor) → Fits c → c ≡ bump 0 c
unfolding bump
bump_zero c h = ap (λ l. record { rest = c.rest; line = l }) (omega arith)

pub Moved-Fits : (low room : ℕ) (c c1 : Cursor) → Moved low room c c1 → Fits c1
Moved-Fits low room c c1 (k, h, b, e) = subst Fits (sym e) (bump-Fits k c)

pub Moved-length :
    (low room : ℕ) (c c1 : Cursor)
    → Moved low room c c1
    → (room ≤ length c1.rest) × (length c1.rest + low ≤ length c.rest)
Moved-length low room c c1 (k, h, b, e) =
    let size : length c1.rest ≡ length c.rest - k = ap (λ d. length d.rest) e ∙ length-bump k c in
    (omega (arith, size), omega (arith, size))

pub Moved-trans :
    (i room j room2 : ℕ) (c c1 c2 : Cursor)
    → Moved i room c c1
    → Moved j room2 c1 c2
    → Moved (i + j) room2 c c2
Moved-trans i room j room2 c c1 c2 (k, h, b, e) (k2, h2, b2, e2) =
    let size : length c1.rest ≡ length c.rest - k = ap (λ d. length d.rest) e ∙ length-bump k c in
    (k + k2, omega arith, omega (arith, size), e2 ∙ ap (bump k2) e ∙ bump-bump k k2 c)

pub Moved-IsAscii :
    (low room : ℕ) (c c1 : Cursor) → Moved low room c c1 → IsAscii c.rest → IsAscii c1.rest
unfolding bump
Moved-IsAscii low room c c1 (k, h, b, e) a =
    subst (λ d. IsAscii d.rest) (sym e) (All-drop (λ x. x < 0x80) k c.rest a)

pub Moves-after :
    {A : Type 0} (i room j room2 : ℕ) (c c1 : Cursor) (at : A → Cursor) (r : Scan A)
    → Moved i room c c1
    → Moves j room2 c1 at r
    → Moves (i + j) room2 c at r
unfolding Moves
Moves-after i room j room2 c c1 at (ok a) m h = Moved-trans i room j room2 c c1 (at a) m h
Moves-after i room j room2 c c1 at (err (stopped e)) m h = tt
Moves-after i room j room2 c c1 at (err no_fuel) m h = h
Moves-after i room j room2 c c1 at panic m h = λ a. h (Moved-IsAscii i room c c1 m a)

pub Moves-and_then :
    {A B : Type 0} (i room j room2 : ℕ) (c : Cursor) (at : A → Cursor) (to : B → Cursor)
    (r : Scan A) (f : A → Scan B)
    → Moves i room c at r
    → ((a : A) → Moved i room c (at a) → Moves j room2 (at a) to (f a))
    → Moves (i + j) room2 c to (and_then r f)
unfolding Moves
Moves-and_then i room j room2 c at to (ok a) f h next =
    Moves-after i room j room2 c (at a) to (f a) h (next a h)
Moves-and_then i room j room2 c at to (err (stopped e)) f h next = tt
Moves-and_then i room j room2 c at to (err no_fuel) f h next = h
Moves-and_then i room j room2 c at to panic f h next = h

-- The same with a `f` that only keeps the cursor and gives another value.
pub Moves-map :
    {A B : Type 0} (i room : ℕ) (c : Cursor) (at : A → Cursor) (to : B → Cursor) (r : Scan A)
    (f : A → B)
    → ((a : A) → to (f a) ≡ at a)
    → Moves i room c at r
    → Moves i room c to (and_then r (λ a. ok (f a)))
unfolding Moves
Moves-map i room c at to (ok a) f same h = subst (Moved i room c) (sym (same a)) h
Moves-map i room c at to (err (stopped e)) f same h = tt
Moves-map i room c at to (err no_fuel) f same h = h
Moves-map i room c at to panic f same h = h

-- Fewer characters and less room.
pub Moves-weaken :
    {A : Type 0} (i room j room2 : ℕ) (c : Cursor) (at : A → Cursor) (r : Scan A)
    → j ≤ i
    → room2 ≤ room
    → Moves i room c at r
    → Moves j room2 c at r
unfolding Moves
Moves-weaken i room j room2 c at (ok a) h1 h2 (k, low, high, e) = (k, omega arith, omega arith, e)
Moves-weaken i room j room2 c at (err (stopped e)) h1 h2 h = tt
Moves-weaken i room j room2 c at (err no_fuel) h1 h2 h = h
Moves-weaken i room j room2 c at panic h1 h2 h = h

bump_byte-Moves_at :
    (rest : Text) (line : ℕ)
    → 1 ≤ length rest
    → Moves 1 0
        (record { rest = rest; line = line })
        (λ c. c)
        (bump_byte (record { rest = rest; line = line }))
unfolding Moves bump_byte
bump_byte-Moves_at [] line h = absurd (omega arith)
bump_byte-Moves_at (b ∷ bs) line h =
    if_both (Moves 1 0 (record { rest = b ∷ bs; line = line }) (λ c. c)) (ltb b 0x80)
      (λ _. (1, omega arith, omega arith, refl)) (λ high a. absurd (ground (arith, a.0)))

pub bump_byte-Moves : (c : Cursor) → 1 ≤ length c.rest → Moves 1 0 c (λ d. d) (bump_byte c)
bump_byte-Moves c h = bump_byte-Moves_at c.rest c.line h

-- `peek` and an error, before a step that may then read a byte.
or_fail-Moves_at :
    {A : Type 0} (i room : ℕ) (file : Text) (c : Cursor) (what : String) (at : A → Cursor)
    (f : ℕ → Scan A) (rest : Text)
    → rest ≡ c.rest
    → ((b : ℕ) → 1 ≤ length c.rest → Moves i room c at (f b))
    → Moves i room c at (and_then (or_fail file c what (first_of rest)) f)
unfolding Moves
or_fail-Moves_at i room file c what at f [] e h = tt
or_fail-Moves_at i room file c what at f (b ∷ bs) e h =
    h (first_byte b) (subst (λ xs. 1 ≤ length xs) e (omega arith))

pub or_fail-Moves :
    {A : Type 0} (i room : ℕ) (file : Text) (c : Cursor) (what : String) (at : A → Cursor)
    (f : ℕ → Scan A)
    → ((b : ℕ) → 1 ≤ length c.rest → Moves i room c at (f b))
    → Moves i room c at (and_then (or_fail file c what (peek c)) f)
or_fail-Moves i room file c what at f h = or_fail-Moves_at i room file c what at f c.rest refl h
