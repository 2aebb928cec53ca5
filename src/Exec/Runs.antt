-- ===== src/Exec/Runs.antt =====
-- A step, and any number of them, keep the machine valid and never panic.
use click_doom.Base.{
  ℕ, zero, suc, ◌+◌, ◌^◌, ◌<◌, sym, subst, ap, arith, if_both, ltb, ok, err, panic, Returns,
}
use click_doom.Decode.{Instruction}
use click_doom.Exec.{Cpu}
use click_doom.Exec.Execute.{Executed, execute}
use click_doom.Exec.Step.{
  Fetched, fetch, retire, run_fetched, step_reporting, Ran, run_after, run_steps, run_until_halt,
}
use click_doom.Exec.Valid.{IsValid, GoodResult, Good, execute-Good}
use click_doom.Exec.Fetches.{FetchGood, fetch-Good}
use click_doom.Exec.Precise.{
  Precise, FetchPrecise, StepPrecise, fetch-Precise, execute-Precise, step_reporting-Precise,
}

-- What a step leaves where it does not panic: a valid machine.
abbrev pub StepValid : Fetched → Type 0
StepValid (ok reported, c) = IsValid c
StepValid (err halt, c) = IsValid c
StepValid (panic, c) = Unit

retired-IsValid :
    (c : Cpu) (next : ℕ)
    → Good (ok next, c)
    → IsValid (record c { icount = c.icount + 1; pc = next })
retired-IsValid c next h = record {
  memory = h.1.memory;
  register_count = h.1.register_count;
  register_words = h.1.register_words;
  x0 = h.1.x0;
  pc_word = h.0.0;
  pc_aligned = h.0.1;
  cache = h.1.cache;
}

retire-StepValid :
    (word : ℕ) (insn : Instruction) (r : Executed) → Good r → StepValid (retire word insn r)
retire-StepValid word insn (ok next, c) h =
    if_both StepValid (ltb (c.icount + 1) (2 ^ 64)) (λ _. retired-IsValid c next h) (λ _. tt)
retire-StepValid word insn (err halt, c) h = h.1
retire-StepValid word insn (panic, c) h = tt

run_fetched-StepValid : (pc : ℕ) (f : Fetched) → FetchGood pc f → StepValid (run_fetched pc f)
run_fetched-StepValid pc (ok (word, insn), c) h =
    subst (λ p. StepValid (retire word insn (execute c p word insn))) h.1
      (retire-StepValid word insn (execute c c.pc word insn) (execute-Good c word insn h.2 h.0))
run_fetched-StepValid pc (err halt, c) h = h
run_fetched-StepValid pc (panic, c) h = tt

-- Whatever the count, a step of a valid machine leaves a valid machine where it does not panic.
pub step_reporting-StepValid : (c : Cpu) → IsValid c → StepValid (step_reporting c)
unfolding step_reporting
step_reporting-StepValid c v = run_fetched-StepValid c.pc (fetch c) (fetch-Good c v)

-- A step whose count stays a `u64` does not panic.
retire-Returns :
    (c : Cpu) (pc word : ℕ) (insn : Instruction) (r : Executed)
    → c.icount + 1 < 2 ^ 64
    → GoodResult r.0
    → Precise c pc r
    → Returns (retire word insn r).0
retire-Returns c pc word insn (ok next, d) bound good same =
    if_both (λ (f : Fetched). Returns f.0) (ltb (d.icount + 1) (2 ^ 64)) (λ _. tt)
      (λ over. absurd (ground (arith, over, bound, same)))
retire-Returns c pc word insn (err halt, d) bound good same = tt
retire-Returns c pc word insn (panic, d) bound good same = absurd good

run_fetched-Returns :
    (c : Cpu) (f : Fetched)
    → c.icount + 1 < 2 ^ 64
    → FetchGood c.pc f
    → FetchPrecise c f
    → Returns (run_fetched c.pc f).0
run_fetched-Returns c (ok (word, insn), d) bound good same =
    retire-Returns d c.pc word insn (execute d c.pc word insn)
      (subst (λ n. n + 1 < 2 ^ 64) (sym (ap (λ x. x.icount) same.0.0)) bound)
      (subst (λ p. GoodResult (execute d p word insn).0) good.1
        (execute-Good d word insn good.2 good.0).0)
      (execute-Precise d c.pc word insn good.2 good.0)
run_fetched-Returns c (err halt, d) bound good same = tt
run_fetched-Returns c (panic, d) bound good same = absurd good

-- What a step gives: no panic, and a valid machine.
abbrev pub StepGood : Fetched → Type 0
StepGood (ok reported, c) = IsValid c
StepGood (err halt, c) = IsValid c
StepGood (panic, c) = ⊥

StepGood-intro : (f : Fetched) → StepValid f → Returns f.0 → StepGood f
StepGood-intro (ok reported, c) v r = v
StepGood-intro (err halt, c) v r = v
StepGood-intro (panic, c) v r = r

-- A step of a valid machine whose count is below the last `u64` never panics, and leaves a valid
-- machine, whether it retires or halts.
pub step_reporting-Good :
    (c : Cpu) → IsValid c → c.icount + 1 < 2 ^ 64 → StepGood (step_reporting c)
unfolding step_reporting
step_reporting-Good c v bound =
    StepGood-intro (step_reporting c) (step_reporting-StepValid c v)
      (run_fetched-Returns c (fetch c) bound (fetch-Good c v) (fetch-Precise c))

abbrev pub RunGood : Ran → Type 0
RunGood (ok halt, c) = IsValid c
RunGood (err bound, c) = IsValid c
RunGood (panic, c) = ⊥

run_steps-Good :
    (bound left : ℕ) (c : Cpu)
    → IsValid c
    → c.icount + left < 2 ^ 64
    → RunGood (run_steps bound left c)
unfolding run_steps
run_steps-Good bound zero c v fits = v
run_steps-Good bound (suc left) c v fits =
    after (run_steps-Good bound left) (step_reporting c)
      (step_reporting-Good c v (omega (arith, fits))) (step_reporting-Precise c v)
  where
    after :
        ((d : Cpu) → IsValid d → d.icount + left < 2 ^ 64 → RunGood (run_steps bound left d))
        → (f : Fetched) → StepGood f
        → StepPrecise c f
        → RunGood (run_after (run_steps bound left) f)
    after rest (ok reported, d) h p = rest d h (omega (arith, p, fits))
    after rest (err halt, d) h p = h
    after rest (panic, d) h p = h

-- `run_until_halt` on a valid machine, with a bound that keeps the count a `u64`, never panics: it
-- ends with a halt or with its bound reached, and the machine is valid.
pub run_until_halt-Good :
    (max_steps : ℕ) (c : Cpu)
    → IsValid c
    → c.icount + max_steps < 2 ^ 64
    → RunGood (run_until_halt max_steps c)
unfolding run_until_halt
run_until_halt-Good max_steps c v fits = run_steps-Good max_steps max_steps c v fits
