-- ===== src/Csource/Symbols/Resolve.antt =====
-- `resolve` of native/src/csource/symbols.rs: rounds over the definitions that wait.
use click_doom.Base.{
  ℕ, zero, suc, ◌+◌, ◌-◌, ◌^◌, ◌<◌, ◌≡◌, ◌⊎◌, inl, inr, refl, sym, ap, ◌∙◌, subst, Option, none,
  some, List, [], ◌∷◌, arith, ◌==◌, if_both, length, Outcome, ok, err, panic,
}
use click_doom.Csource.{Text, Tok, Stop, stopped, no_fuel, and_then}
use click_doom.Csource.Lex.{lex}
use click_doom.Csource.Lex.Tokens.{Lexed, lex-Lexed}
use click_doom.Csource.Table.{Pending, define, value, after, first, Symbols, get, is_ambiguous}
use click_doom.Csource.Expr.{eval}
use click_doom.Csource.Expr.Refine.{Evaluates, eval-Evaluates}
use click_doom.Csource.Symbols.{
  ok_or_none, one_past, evaluate, define_name, Round, defer, count_one, round_step, round,
  with_pending, after_round, resolve_step, resolve_loop, resolve,
}
use click_doom.Csource.Symbols.Laws.{
  Separate, Known, define_name-Separate, define_name-Known_self, define_name-Known,
}

-- The fuel does not run out.
unfoldable pub Ends : {A : Type 0} → Outcome Stop A → Type 0
Ends (ok a) = Unit
Ends (err (stopped e)) = Unit
Ends (err no_fuel) = ⊥
Ends panic = Unit

ok_or_none-Ends :
    (s : Symbols) (toks : List Tok) (r : Outcome Stop ℕ) → Evaluates s toks r → Ends (ok_or_none r)
unfolding Ends Evaluates
ok_or_none-Ends s toks (ok v) h = tt
ok_or_none-Ends s toks (err (stopped e)) h = tt
ok_or_none-Ends s toks (err no_fuel) h = h
ok_or_none-Ends s toks panic h = tt

one_past-Ends : (o : Option ℕ) → Ends (one_past o)
unfolding Ends
one_past-Ends none = tt
one_past-Ends (some v) = if_both Ends (v == 2 ^ 63 - 1) (λ _. tt) (λ _. tt)

Lexed-Ends :
    (s : Symbols) (file text : Text) (r : Outcome Stop (List Tok))
    → Lexed text r
    → Ends (and_then r (λ toks. ok_or_none (eval file toks s)))
unfolding Ends Lexed
Lexed-Ends s file text (ok toks) h =
    ok_or_none-Ends s toks (eval file toks s) (eval-Evaluates file toks s)
Lexed-Ends s file text (err (stopped e)) h = tt
Lexed-Ends s file text (err no_fuel) h = h
Lexed-Ends s file text panic h = tt

evaluate-Ends : (s : Symbols) (d : Pending) → Ends (evaluate s d)
unfolding Ends evaluate
evaluate-Ends s first = tt
evaluate-Ends s (after before) = one_past-Ends (get s before)
evaluate-Ends s (value file toks) =
    ok_or_none-Ends s toks (eval file toks s) (eval-Evaluates file toks s)
evaluate-Ends s (define file body) = Lexed-Ends s file body (lex file body) (lex-Lexed file body)

abbrev pub Definition : Type 0
Definition = Text × Pending

abbrev pub Among : Definition → List Definition → Type 0
Among p [] = ⊥
Among p (q ∷ qs) = (p ≡ q) ⊎ Among p qs

-- A round counts what it evaluates and defers the rest, makes every name that it evaluates known, and
-- where it evaluates nothing it changes nothing.
unfoldable RoundGood : Symbols → List Definition → Outcome Stop Round → Type 0
RoundGood s ps (ok (s1, k, ds)) =
    (length ds + k ≡ length ps)
    × Separate s1
    × (s1.pending ≡ s.pending)
    × ((n : Text) → Known s n → Known s1 n)
    × ((p : Definition) → Among p ps → Known s1 (p.0) ⊎ Among p ds)
    × (k ≡ 0 → (s1 ≡ s) × ((p : Definition) → Among p ds → evaluate s (p.1) ≡ ok none))
RoundGood s ps (err (stopped e)) = Unit
RoundGood s ps (err no_fuel) = ⊥
RoundGood s ps panic = Unit

defer-RoundGood :
    (n : Text) (d : Pending) (s : Symbols) (ps : List Definition) (r : Outcome Stop Round)
    → evaluate s d ≡ ok none
    → RoundGood s ps r
    → RoundGood s ((n, d) ∷ ps) (and_then r (λ q. ok (defer (n, d) q)))
unfolding RoundGood
defer-RoundGood n d s ps (ok (s1, k, ds)) e (size, sep, wait, mono, handled, idle) = (
  omega (arith, size),
  sep,
  wait,
  mono,
  λ p a. elim a [
    | inl same ↦ inr (inl same)
    | inr later ↦ elim (handled p later) [ inl known ↦ inl known | inr at ↦ inr (inr at) ]
  ],
  λ none_yet.
      let (same, stuck) = idle none_yet in
      (
        same,
        λ p a. elim a [
          | inl first_one ↦ ap (λ q. evaluate s (q.1)) first_one ∙ e
          | inr at ↦ stuck p at
        ],
      ),
)
defer-RoundGood n d s ps (err (stopped x)) e h = tt
defer-RoundGood n d s ps (err no_fuel) e h = h
defer-RoundGood n d s ps panic e h = tt

define_name-pending : (n : Text) (v : ℕ) (s : Symbols) → (define_name n v s).pending ≡ s.pending
unfolding define_name
define_name-pending n v s = ground arith

count_one-RoundGood :
    (n : Text) (d : Pending) (v : ℕ) (s : Symbols) (ps : List Definition) (r : Outcome Stop Round)
    → RoundGood (define_name n v s) ps r
    → RoundGood s ((n, d) ∷ ps) (and_then r (λ q. ok (count_one q)))
unfolding RoundGood
count_one-RoundGood n d v s ps (ok (s1, k, ds)) (size, sep, wait, mono, handled, idle) = (
  omega (arith, size),
  sep,
  wait ∙ define_name-pending n v s,
  λ m h. mono m (define_name-Known s n m v h),
  λ p a. elim a [
    | inl same ↦
        inl (subst (λ q. Known s1 (q.0)) (sym same) (mono n (define_name-Known_self s n v)))
    | inr later ↦ handled p later
  ],
  λ none_yet. absurd (omega arith),
)
count_one-RoundGood n d v s ps (err (stopped x)) h = tt
count_one-RoundGood n d v s ps (err no_fuel) h = h
count_one-RoundGood n d v s ps panic h = tt

round_step-RoundGood :
    (n : Text) (d : Pending) (s : Symbols) (ps : List Definition) (r : Outcome Stop (Option ℕ))
    → evaluate s d ≡ r
    → Ends r
    → Separate s
    → ((s1 : Symbols) → Separate s1 → RoundGood s1 ps (round ps s1))
    → RoundGood s ((n, d) ∷ ps) (and_then r (round_step n d s (round ps)))
unfolding RoundGood Ends
round_step-RoundGood n d s ps (ok none) e h sep next =
    defer-RoundGood n d s ps (round ps s) e (next s sep)
round_step-RoundGood n d s ps (ok (some v)) e h sep next =
    count_one-RoundGood n d v s ps (round ps (define_name n v s))
      (next (define_name n v s) (define_name-Separate s n v sep))
round_step-RoundGood n d s ps (err (stopped x)) e h sep next = tt
round_step-RoundGood n d s ps (err no_fuel) e h sep next = h
round_step-RoundGood n d s ps panic e h sep next = tt

round-RoundGood : (ps : List Definition) (s : Symbols) → Separate s → RoundGood s ps (round ps s)
unfolding RoundGood round
round-RoundGood [] s sep =
    (refl, sep, refl, λ n h. h, λ p a. absurd a, λ _. (refl, λ p a. absurd a))
round-RoundGood ((n, d) ∷ ps) s sep =
    round_step-RoundGood n d s ps (evaluate s d) refl (evaluate-Ends s d) sep (round-RoundGood ps)

-- What `resolve` gives: no definition waits, no name has both a value and more than one, every name
-- known before is known, and each definition that waited has made its name known or has no value in
-- the table that results. The fuel does not run out.
unfoldable pub Resolved : Symbols → Outcome Stop Symbols → Type 0
Resolved s (ok s1) =
    (s1.pending ≡ [])
    × Separate s1
    × ((n : Text) → Known s n → Known s1 n)
    × ((p : Definition) → Among p s.pending → Known s1 (p.0) ⊎ (evaluate s1 (p.1) ≡ ok none))
Resolved s (err (stopped e)) = Unit
Resolved s (err no_fuel) = ⊥
Resolved s panic = Unit

-- The rounds after one that left `ds`.
Resolved-after :
    (s s1 : Symbols) (ds : List Definition) (r : Outcome Stop Symbols)
    → ((n : Text) → Known s n → Known s1 n)
    → ((p : Definition) → Among p s.pending → Known s1 (p.0) ⊎ Among p ds)
    → Resolved (with_pending ds s1) r
    → Resolved s r
unfolding Resolved get is_ambiguous
Resolved-after s s1 ds (ok s2) mono handled (wait, sep, mono2, handled2) = (
  wait,
  sep,
  λ n h. mono2 n (mono n h),
  λ p a. elim (handled p a) [ inl known ↦ inl (mono2 (p.0) known) | inr later ↦ handled2 p later ],
)
Resolved-after s s1 ds (err (stopped e)) mono handled h = tt
Resolved-after s s1 ds (err no_fuel) mono handled h = h
Resolved-after s s1 ds panic mono handled h = tt

after_round-Resolved :
    (n : ℕ) (s : Symbols) (again : Symbols → Outcome Stop Symbols) (r : Outcome Stop Round)
    → RoundGood (with_pending [] s) s.pending r
    → length s.pending < suc n
    → ((t : Symbols) → Separate t → length t.pending < n → Resolved t (again t))
    → Resolved s (and_then r (after_round again))
unfolding RoundGood Resolved get is_ambiguous
after_round-Resolved n s again (err (stopped e)) h fuel next = tt
after_round-Resolved n s again (err no_fuel) h fuel next = h
after_round-Resolved n s again panic h fuel next = tt
after_round-Resolved n s again (ok (s1, k, ds)) (size, sep, wait, mono, handled, idle) fuel next =
    if_both (Resolved s) (k == 0)
      (λ z.
        let (same, stuck) = idle (ground (arith, z)) in
        (
          wait,
          sep,
          mono,
          λ p a. elim (handled p a) [
            | inl known ↦ inl known
            | inr later ↦ inr (ap (λ t. evaluate t (p.1)) same ∙ stuck p later)
          ],
        ))
      (λ some_done.
        let fewer : length ds < n = ground (arith, some_done, size, fuel) in
        Resolved-after s s1 ds (again (with_pending ds s1)) mono handled
          (next (with_pending ds s1) sep fewer))

resolve_step-Resolved :
    (n : ℕ) (s : Symbols) (again : Symbols → Outcome Stop Symbols) (ps : List Definition)
    → s.pending ≡ ps
    → Separate s
    → length s.pending < suc n
    → ((t : Symbols) → Separate t → length t.pending < n → Resolved t (again t))
    → Resolved s (resolve_step s again ps)
unfolding Resolved get is_ambiguous
resolve_step-Resolved n s again [] e sep fuel next =
    (e, sep, λ m h. h, λ p a. absurd (subst (Among p) e a))
resolve_step-Resolved n s again (p ∷ ps) e sep fuel next =
    after_round-Resolved n s again (round (p ∷ ps) (with_pending [] s))
      (subst (λ qs. RoundGood (with_pending [] s) qs (round (p ∷ ps) (with_pending [] s))) (sym e)
        (round-RoundGood (p ∷ ps) (with_pending [] s) sep))
      fuel next

resolve_loop-Resolved :
    (n : ℕ) (s : Symbols) → Separate s → length s.pending < n → Resolved s (resolve_loop n s)
unfolding resolve_loop
resolve_loop-Resolved zero s sep fuel = absurd (omega arith)
resolve_loop-Resolved (suc n) s sep fuel =
    resolve_step-Resolved n s (resolve_loop n) s.pending refl sep fuel (resolve_loop-Resolved n)

-- `resolve` ends on every table in which no name has both a value and more than one. In the table it
-- gives, that is so, no definition waits, every name known before is known, and each definition that
-- waited has made its name known or has no value in that table.
pub resolve-Resolved : (s : Symbols) → Separate s → Resolved s (resolve s)
unfolding resolve
resolve-Resolved s sep = resolve_loop-Resolved (suc (length s.pending)) s sep (omega arith)
