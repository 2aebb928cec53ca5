-- ===== src/Csource/Symbols/Absorbed.antt =====
-- `absorb` of native/src/csource/symbols.rs only adds definitions that wait.
use click_doom.Base.{
  ℕ, zero, suc, ◌≤◌, ◌<◌, ◌≡◌, refl, sym, ap, ◌∙◌, ◌||◌, ◌&&◌, ltb, Option, none, some, List, [],
  ◌∷◌, ◌++◌, arith, if_both, length, take, drop, length-drop, append-nil, Outcome, ok, err, panic,
}
use click_doom.Base.Int.{ℤ, pos, negsuc, ◌+ℤ◌}
use click_doom.Csource.{
  Text, Token, ident, int, str, punct, directive, Tok, Stop, stopped, no_fuel, and_then,
}
use click_doom.Csource.Chars.{span, is_name_char, strip_prefix, starts_with, trim, trim_start}
use click_doom.Csource.Table.{Pending, define, value, Symbols, text_eq}
use click_doom.Csource.Symbols.{
  push_pending, is_empty, define_word, define_line, absorb_define, skip_to_separator, opens, closes,
  is_punct, is_zero, next_is, after_previous, skip_comma, name_of, enumerator, enumerator_step,
  enumerators, skip_tag, absorb_enum, enum_word, absorb_step, absorb_loop, absorb,
}
use mathlib.Core.List.{append_assoc}

-- The values and the names with two are as before, and more definitions wait behind the others.
unfoldable pub Extends : Symbols → Symbols → Type 0
Extends s s1 =
    (s1.values ≡ s.values)
    × (s1.ambiguous ≡ s.ambiguous)
    × ((more : List (Text × Pending)) × (s1.pending ≡ s.pending ++ more))

Extends-refl : (s : Symbols) → Extends s s
unfolding Extends
Extends-refl s = (refl, refl, ([], sym (append-nil s.pending)))

Extends-trans : (s s1 s2 : Symbols) → Extends s s1 → Extends s1 s2 → Extends s s2
unfolding Extends
Extends-trans s s1 s2 (v, a, (more, e)) (v2, a2, (more2, e2)) = (
  v2 ∙ v,
  a2 ∙ a,
  (more ++ more2, e2 ∙ ap (λ l. l ++ more2) e ∙ append_assoc s.pending more more2),
)

push_pending-Extends : (n : Text) (d : Pending) (s : Symbols) → Extends s (push_pending n d s)
unfolding Extends
push_pending-Extends n d s = (refl, refl, ((n, d) ∷ [], refl))

define_line-Extends :
    (file : Text) (o : Option Text) (s : Symbols) → Extends s (define_line file o s)
define_line-Extends file none s = Extends-refl s
define_line-Extends file (some rest) s =
    let body = trim_start rest in
    let n = span is_name_char body in
    let tail = drop n body in
    if_both (Extends s)
      (is_empty (take n body) || starts_with (b'(' ∷ []) tail || is_empty (trim tail))
      (λ _. Extends-refl s) (λ _. push_pending-Extends (take n body) (define file (trim tail)) s)

-- A result that extends the table of `s`, or an error. The fuel does not run out.
unfoldable pub Grows :
    {A : Type 0} → Symbols → (A → Symbols) → (A → Type 0) → Outcome Stop A → Type 0
Grows s table P (ok a) = Extends s (table a) × P a
Grows s table P (err (stopped e)) = Unit
Grows s table P (err no_fuel) = ⊥
Grows s table P panic = ⊥

Grows-after :
    {A : Type 0} (s s1 : Symbols) (table : A → Symbols) (P Q : A → Type 0) (r : Outcome Stop A)
    → Extends s s1
    → ((a : A) → P a → Q a)
    → Grows s1 table P r
    → Grows s table Q r
unfolding Grows
Grows-after s s1 table P Q (ok a) e f (h, p) = (Extends-trans s s1 (table a) e h, f a p)
Grows-after s s1 table P Q (err (stopped x)) e f h = tt
Grows-after s s1 table P Q (err no_fuel) e f h = h
Grows-after s s1 table P Q panic e f h = h

abbrev Enumerated : Type 0
Enumerated = Outcome Stop (Symbols × List Tok)

abbrev NoMore : ℕ → Symbols × List Tok → Type 0
NoMore n r = length (r.1) ≤ n

skip_comma_le : (ts : List Tok) → length (skip_comma ts) ≤ length ts
skip_comma_le ts =
    if_both (λ us. length us ≤ length ts) (next_is (b',' ∷ []) ts)
      (λ _. omega (arith, length-drop 1 ts)) (λ _. omega arith)

-- The scan for the end of a value stays inside the tokens.
skip_to_separator_le : (depth : ℤ) (ts : List Tok) → skip_to_separator depth ts ≤ length ts
skip_to_separator_le depth [] = omega arith
skip_to_separator_le depth (t ∷ ts) =
    let deeper = skip_to_separator_le (depth +ℤ pos 1) ts in
    let shallower = skip_to_separator_le (depth +ℤ negsuc 0) ts in
    let level = skip_to_separator_le depth ts in
    let P : ℕ → Type 0 = λ k. k ≤ suc (length ts) in
    if_both P (opens t.token) (λ _. omega (arith, deeper))
      (λ _.
        if_both P (closes t.token) (λ _. omega (arith, shallower))
          (λ _.
            if_both P (is_punct (b'}' ∷ []) t.token && is_zero depth) (λ _. omega arith)
              (λ _.
                if_both P (is_punct (b'}' ∷ []) t.token) (λ _. omega (arith, shallower))
                  (λ _.
                    if_both P (is_punct (b',' ∷ []) t.token && is_zero depth) (λ _. omega arith)
                      (λ _. omega (arith, level))))))

skip_value_le :
    (ts : List Tok)
    → length (skip_comma (drop (skip_to_separator (pos 0) (drop 1 ts)) (drop 1 ts))) ≤ length ts
skip_value_le ts =
    let toks = drop 1 ts in
    let k = skip_to_separator (pos 0) toks in
    omega (arith, skip_comma_le (drop k toks), length-drop k toks, length-drop 1 ts)

-- What the rest of the loop does with fewer tokens than it has fuel for.
abbrev Continues : ℕ → (Option Text → Symbols → List Tok → Enumerated) → Type 0
Continues n again =
    (previous : Option Text) (s : Symbols) (ts : List Tok)
    → length ts < n
    → Grows s (λ r. r.0) (NoMore (length ts)) (again previous s ts)

enumerator-Grows :
    (n : ℕ) (file name : Text) (previous : Option Text) (s : Symbols) (ts : List Tok)
    (again : Option Text → Symbols → List Tok → Enumerated)
    → Continues n again
    → length ts < n
    → Grows s (λ r. r.0) (NoMore (length ts)) (enumerator file name previous s ts again)
enumerator-Grows n file name previous s ts again h fuel =
    let toks = drop 1 ts in
    let k = skip_to_separator (pos 0) toks in
    if_both (Grows s (λ r. r.0) (NoMore (length ts))) (next_is (b'=' ∷ []) ts)
      (λ _.
        if_both (Grows s (λ r. r.0) (NoMore (length ts))) (ltb (length toks) k)
          (λ past. absurd (ground (arith, past, skip_to_separator_le (pos 0) toks)))
          (λ _. go (value file (take k toks)) (skip_comma (drop k toks)) (skip_value_le ts)))
      (λ _. go (after_previous previous) (skip_comma ts) (skip_comma_le ts))
  where
    go :
        (d : Pending) (us : List Tok)
        → length us ≤ length ts
        → Grows s (λ r. r.0) (NoMore (length ts)) (again (some name) (push_pending name d s) us)
    go d us le =
        Grows-after s (push_pending name d s) (λ r. r.0) (NoMore (length us)) (NoMore (length ts))
          (again (some name) (push_pending name d s) us) (push_pending-Extends name d s)
          (λ r b. omega arith) (h (some name) (push_pending name d s) us (omega arith))

enumerator_step-Grows :
    (n : ℕ) (file : Text) (previous : Option Text) (s : Symbols) (o : Option Text) (ts : List Tok)
    (again : Option Text → Symbols → List Tok → Enumerated)
    → Continues n again
    → length ts < n
    → Grows s (λ r. r.0) (NoMore (length ts)) (enumerator_step file previous s o ts again)
unfolding Grows
enumerator_step-Grows n file previous s none ts again h fuel = (Extends-refl s, omega arith)
enumerator_step-Grows n file previous s (some name) ts again h fuel =
    enumerator-Grows n file name previous s ts again h fuel

enumerators-Grows :
    (n : ℕ) (file : Text) (previous : Option Text) (s : Symbols) (ts : List Tok)
    → length ts < n
    → Grows s (λ r. r.0) (NoMore (length ts)) (enumerators n file previous s ts)
unfolding Grows enumerators
enumerators-Grows zero file previous s ts fuel = absurd (omega arith)
enumerators-Grows (suc n) file previous s [] fuel = (Extends-refl s, omega arith)
enumerators-Grows (suc n) file previous s (t ∷ ts) fuel =
    Grows-after s s (λ r. r.0) (NoMore (length ts)) (NoMore (suc (length ts)))
      (enumerator_step file previous s (name_of t.token) ts (enumerators n file)) (Extends-refl s)
      (λ r b. omega arith)
      (enumerator_step-Grows n file previous s (name_of t.token) ts (enumerators n file)
        (enumerators-Grows n file) (omega arith))

skip_tag_le : (toks : List Tok) → length (skip_tag toks) ≤ length toks
skip_tag_le [] = omega arith
skip_tag_le (t ∷ ts) = tagged (name_of t.token)
  where
    tagged : (o : Option Text) → length (elim o [ none ↦ t ∷ ts | some n ↦ ts ]) ≤ suc (length ts)
    tagged none = omega arith
    tagged (some n) = omega arith

absorb_enum-Grows :
    (file : Text) (s : Symbols) (toks : List Tok)
    → Grows s (λ r. r.0) (NoMore (length toks)) (absorb_enum file s toks)
unfolding Grows absorb_enum
absorb_enum-Grows file s toks =
    let ts = skip_tag toks in
    let le = skip_tag_le toks in
    if_both (Grows s (λ r. r.0) (NoMore (length toks))) (next_is (b'{' ∷ []) ts)
      (λ _.
        Grows-after s s (λ r. r.0) (NoMore (length (drop 1 ts))) (NoMore (length toks))
          (enumerators (suc (length (drop 1 ts))) file none s (drop 1 ts)) (Extends-refl s)
          (λ r b. omega (arith, le, length-drop 1 ts))
          (enumerators-Grows (suc (length (drop 1 ts))) file none s (drop 1 ts) (omega arith)))
      (λ _. (Extends-refl s, le))

abbrev pub AnyTable : Symbols → Type 0
AnyTable s = Unit

after_enum-Grows :
    (n k : ℕ) (s : Symbols) (r : Enumerated) (again : Symbols → List Tok → Outcome Stop Symbols)
    → Grows s (λ q. q.0) (NoMore k) r
    → k < n
    → ((t : Symbols) (us : List Tok) → length us < n → Grows t (λ q. q) AnyTable (again t us))
    → Grows s (λ q. q) AnyTable (and_then r (λ q. again (q.0) (q.1)))
unfolding Grows
after_enum-Grows n k s (ok (s1, us)) again (e, le) fuel h =
    Grows-after s s1 (λ q. q) AnyTable AnyTable (again s1 us) e (λ a p. tt) (h s1 us (omega arith))
after_enum-Grows n k s (err (stopped x)) again h fuel next = tt
after_enum-Grows n k s (err no_fuel) again h fuel next = h
after_enum-Grows n k s panic again h fuel next = h

absorb_step-Grows :
    (n : ℕ) (file : Text) (s : Symbols) (t : Token) (ts : List Tok)
    (again : Symbols → List Tok → Outcome Stop Symbols)
    → length ts < n
    → ((s1 : Symbols) (us : List Tok) → length us < n → Grows s1 (λ q. q) AnyTable (again s1 us))
    → Grows s (λ q. q) AnyTable (absorb_step file s t ts again)
unfolding absorb_define
absorb_step-Grows n file s (directive body) ts again fuel h =
    Grows-after s (absorb_define file body s) (λ q. q) AnyTable AnyTable
      (again (absorb_define file body s) ts)
      (define_line-Extends file (strip_prefix define_word body) s) (λ a p. tt)
      (h (absorb_define file body s) ts fuel)
absorb_step-Grows n file s (ident name) ts again fuel h =
    if_both (Grows s (λ q. q) AnyTable) (text_eq name enum_word)
      (λ _.
        after_enum-Grows n (length ts) s (absorb_enum file s ts) again (absorb_enum-Grows file s ts)
          fuel h)
      (λ _. h s ts fuel)
absorb_step-Grows n file s (int v) ts again fuel h = h s ts fuel
absorb_step-Grows n file s (str v) ts again fuel h = h s ts fuel
absorb_step-Grows n file s (punct p) ts again fuel h = h s ts fuel

absorb_loop-Grows :
    (n : ℕ) (file : Text) (s : Symbols) (ts : List Tok)
    → length ts < n
    → Grows s (λ q. q) AnyTable (absorb_loop n file s ts)
unfolding Grows absorb_loop
absorb_loop-Grows zero file s ts fuel = absurd (omega arith)
absorb_loop-Grows (suc n) file s [] fuel = (Extends-refl s, tt)
absorb_loop-Grows (suc n) file s (t ∷ ts) fuel =
    absorb_step-Grows n file s t.token ts (absorb_loop n file) (omega arith)
      (absorb_loop-Grows n file)

-- `absorb` ends on every list of tokens and never panics. It leaves the values and the names with two
-- as they are, and the definitions that it adds wait behind those that waited.
pub absorb-Grows :
    (file : Text) (toks : List Tok) (s : Symbols) → Grows s (λ q. q) AnyTable (absorb file toks s)
unfolding absorb
absorb-Grows file toks s = absorb_loop-Grows (suc (length toks)) file s toks (omega arith)
