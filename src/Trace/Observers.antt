-- ===== src/Trace/Observers.antt =====
-- The observers of refemu/src/trace.rs that are made of others: none, one that may be absent, and two.
use click_doom.Base.{
  ℕ, zero, suc, ◌≡◌, refl, sym, subst, Bool, true, false, Option, none, some, ltb, if◌then◌else◌,
  Outcome, ok, err, panic,
}
use click_doom.Spec.Checkpoint.{
  TraceConfig, TraceConfigError, validate, is_checkpoint, is_ram_hash, Hasher, Checkpoint,
}
use click_doom.Decode.{Instruction}
use click_doom.Exec.{Cpu}
use click_doom.Exec.Step.{Fetched, step_reporting}
use click_doom.Trace.{
  Stop, Step, go_on, stop, Observer, Ended, observed, emitted, stepped, round, asserted, rounds,
  run, checkpoint_of,
}

-- The defaults of the trait, which `()` takes.
abbrev pub silent : Observer (Unit {0})
silent = record {
  before_step = λ s c. (go_on, s, c);
  after_step = λ s c retired_pc insn. (go_on, s, c);
  checkpoint = λ s line. s;
}

abbrev pub wrap : {S : Type 0} → Step × S × Cpu → Step × Option S × Cpu
wrap (x, s, c) = (x, some s, c)

abbrev pub maybe_before : {S : Type 0} → Observer S → Option S → Cpu → Step × Option S × Cpu
maybe_before o none c = (go_on, none, c)
maybe_before o (some s) c = wrap (o.before_step s c)

abbrev pub maybe_after :
    {S : Type 0} → Observer S → Option S → Cpu → ℕ → Instruction → Step × Option S × Cpu
maybe_after o none c retired_pc insn = (go_on, none, c)
maybe_after o (some s) c retired_pc insn = wrap (o.after_step s c retired_pc insn)

abbrev pub maybe_checkpoint : {S : Type 0} → Observer S → Option S → Checkpoint → Option S
maybe_checkpoint o none line = none
maybe_checkpoint o (some s) line = some (o.checkpoint s line)

abbrev pub maybe : {S : Type 0} → Observer S → Observer (Option S)
maybe o = record {
  before_step = maybe_before o;
  after_step = maybe_after o;
  checkpoint = maybe_checkpoint o;
}

-- `Both`: the second looks at the machine as the first left it, and either stops the run.
abbrev pub both_go : Step → Step → Step
both_go go_on go_on = go_on
both_go go_on stop = stop
both_go stop y = stop

abbrev pub joined : {A B : Type 0} → Step → A → Step × B × Cpu → Step × (A × B) × Cpu
joined x s (y, t, c) = (both_go x y, (s, t), c)

abbrev pub then_second :
    {A B : Type 0} → (Cpu → Step × B × Cpu) → Step × A × Cpu → Step × (A × B) × Cpu
then_second second (x, s, c) = joined x s (second c)

abbrev pub both : {A B : Type 0} → Observer A → Observer B → Observer (A × B)
both a b = record {
  before_step = λ p c. then_second (b.before_step (p.1)) (a.before_step (p.0) c);
  after_step = λ p c retired_pc insn.
      then_second (λ c1. b.after_step (p.1) c1 retired_pc insn)
        (a.after_step (p.0) c retired_pc insn);
  checkpoint = λ p line. (a.checkpoint (p.0) line, b.checkpoint (p.1) line);
}

-- An observer that never stops a run and leaves the machine as it is.
abbrev pub IsQuiet : {B : Type 0} → Observer B → Type 0
IsQuiet {B} b =
    ((t : B) (c : Cpu) → ((b.before_step t c).0 ≡ go_on) × ((b.before_step t c).2 ≡ c))
    × ((t : B) (c : Cpu) (pc : ℕ) (insn : Instruction)
        → ((b.after_step t c pc insn).0 ≡ go_on) × ((b.after_step t c pc insn).2 ≡ c))

-- The same end, machine and state of the first observer.
abbrev pub SameRun : {A B : Type 0} → Ended A → Ended (A × B) → Type 0
SameRun r p = (p.0 ≡ r.0) × ((p.1).0 ≡ r.1) × (p.2 ≡ r.2)

SameRun-if :
    {A B : Type 0} (q : Bool) (r r2 : Ended A) (p p2 : Ended (A × B))
    → SameRun r p
    → SameRun r2 p2
    → SameRun (if q then r else r2) (if q then p else p2)
SameRun-if true r r2 p p2 h k = h
SameRun-if false r r2 p p2 h k = k

SameRun-asserted :
    {A B : Type 0} (o : Outcome TraceConfigError (Unit {0})) (s : A) (t : B) (c : Cpu) (r : Ended A)
    (p : Ended (A × B))
    → SameRun r p
    → SameRun (asserted o s c r) (asserted o (s, t) c p)
SameRun-asserted (ok u) s t c r p h = h
SameRun-asserted (err e) s t c r p h = (refl, refl, refl)
SameRun-asserted panic s t c r p h = (refl, refl, refl)

module _ {A B : Type 0} (restA : A → Cpu → Ended A) (restB : A × B → Cpu → Ended (A × B)) where
  joined-SameRun :
      (s : A) (c : Cpu) (y : Step) (t : B) (c1 : Cpu)
      → y ≡ go_on
      → c1 ≡ c
      → ((s : A) (t : B) (c : Cpu) → SameRun (restA s c) (restB (s, t) c))
      → SameRun (restA s c) (observed restB (joined go_on s (y, t, c1)))
  joined-SameRun s c go_on t c1 e e2 h =
      subst (λ d. SameRun (restA s c) (restB (s, t) d)) (sym e2) (h s t c)
  joined-SameRun s c stop t c1 e e2 h = absurd (cc e)

  observed-SameRun :
      (r : Step × A × Cpu) (second : Cpu → Step × B × Cpu)
      → ((c : Cpu) → ((second c).0 ≡ go_on) × ((second c).2 ≡ c))
      → ((s : A) (t : B) (c : Cpu) → SameRun (restA s c) (restB (s, t) c))
      → SameRun (observed restA r) (observed restB (then_second second r))
  observed-SameRun (go_on, s, c) second quiet h =
      joined-SameRun s c (second c).0 (second c).1 (second c).2 (quiet c).0 (quiet c).1 h
  observed-SameRun (stop, s, c) second quiet h = (refl, refl, (quiet c).1)

module _ {A B : Type 0} (h : Hasher) (config : TraceConfig) (a : Observer A) (b : Observer B) where
  emitted-both :
      (c : Cpu) (s : A) (t : B)
      → ◌≡◌ {A = A × B}
          (emitted h config (both a b) c (s, t))
          (emitted h config a c s, emitted h config b c t)
  emitted-both c s t = pair (is_checkpoint config c.icount)
    where
      line : Checkpoint
      line = checkpoint_of h c (is_ram_hash config c.icount)

      pair :
          (q : Bool)
          → ◌≡◌ {A = A × B}
              (if q then (a.checkpoint s line, b.checkpoint t line) else (s, t))
              ((if q then a.checkpoint s line else s), (if q then b.checkpoint t line else t))
      pair true = refl
      pair false = refl

  stepped-SameRun :
      (restA : A → Cpu → Ended A) (restB : A × B → Cpu → Ended (A × B)) (pc : ℕ) (s : A) (t : B)
      (r : Fetched)
      → IsQuiet b
      → ((s : A) (t : B) (c : Cpu) → SameRun (restA s c) (restB (s, t) c))
      → SameRun (stepped h config a restA pc s r) (stepped h config (both a b) restB pc (s, t) r)
  stepped-SameRun restA restB pc s t (ok (word, insn), c) quiet next =
      subst
        (λ p.
          SameRun (observed restA (a.after_step (emitted h config a c s) c pc insn))
            (observed restB ((both a b).after_step p c pc insn)))
        (sym (emitted-both c s t))
        (observed-SameRun restA restB (a.after_step (emitted h config a c s) c pc insn)
          (λ c1. b.after_step (emitted h config b c t) c1 pc insn)
          (λ c1. quiet.1 (emitted h config b c t) c1 pc insn) next)
  stepped-SameRun restA restB pc s t (err halt, c) quiet next = (refl, refl, refl)
  stepped-SameRun restA restB pc s t (panic, c) quiet next = (refl, refl, refl)

  rounds-both :
      (limit fuel : ℕ) (s : A) (t : B) (c : Cpu)
      → IsQuiet b
      → SameRun (rounds h config a limit fuel s c) (rounds h config (both a b) limit fuel (s, t) c)
  unfolding rounds
  rounds-both limit zero s t c quiet =
      SameRun-if (ltb c.icount limit) (err tt, s, c) (ok Stop.budget, s, c) (err tt, (s, t), c)
        (ok Stop.budget, (s, t), c) (refl, refl, refl) (refl, refl, refl)
  rounds-both limit (suc fuel) s t c quiet =
      let restA = rounds h config a limit fuel in
      let restB = rounds h config (both a b) limit fuel in
      SameRun-if (ltb c.icount limit) (round h config a restA s c) (ok Stop.budget, s, c)
        (round h config (both a b) restB (s, t) c) (ok Stop.budget, (s, t), c)
        (observed-SameRun (λ s1 c1. stepped h config a restA c1.pc s1 (step_reporting c1))
          (λ p c1. stepped h config (both a b) restB c1.pc p (step_reporting c1))
          (a.before_step s c) (b.before_step t) (quiet.0 t)
          (λ s1 t1 c1.
            stepped-SameRun restA restB c1.pc s1 t1 (step_reporting c1) quiet
              (λ s2 t2 c2. rounds-both limit fuel s2 t2 c2 quiet)))
        (refl, refl, refl)

  -- A second observer that never stops a run and leaves the machine as it is changes nothing: the run
  -- of both ends in the same way, with the same machine and the same state of the first observer, at
  -- every bound and on every fuel.
  pub run-both :
      (limit fuel : ℕ) (s : A) (t : B) (c : Cpu)
      → IsQuiet b
      → SameRun (run h config a limit fuel s c) (run h config (both a b) limit fuel (s, t) c)
  unfolding run
  run-both limit fuel s t c quiet =
      SameRun-asserted (validate config) s t c (rounds h config a limit fuel s c)
        (rounds h config (both a b) limit fuel (s, t) c) (rounds-both limit fuel s t c quiet)
