-- ===== src/Trace.antt =====
-- refemu/src/trace.rs: one loop that drives the machine, tells an observer what happens and takes
-- checkpoints. The loop is recursion on fuel.
pub mod Laws
pub mod Observers
use click_doom.Base.{
  ℕ, zero, suc, Bool, List, [], ◌∷◌, ◌++◌, ltb, if◌then◌else◌, Outcome, ok, err, panic,
}
use click_doom.Spec.Checkpoint.{
  TraceConfig, TraceConfigError, validate, is_checkpoint, is_ram_hash, Hasher, reg_hash, ram_hash,
  fb_hash, Checkpoint, registers_only, with_memory,
}
use click_doom.Decode.{Instruction}
use click_doom.Exec.{Cpu}
use click_doom.Exec.Halted.{Halt}
use click_doom.Exec.Step.{Fetched, step_reporting}

unfoldable pub checkpoint_of : Hasher → Cpu → Bool → Checkpoint
unfolding reg_hash ram_hash fb_hash
checkpoint_of h c with_memory_hashes =
    if with_memory_hashes
    then with_memory c.icount c.pc (reg_hash h c.pc c.regs) (ram_hash h c.memory.ram_bytes)
        (fb_hash h c.memory.framebuffer_bytes c.memory.palette_bytes)
    else registers_only c.icount c.pc (reg_hash h c.pc c.regs)

pub data Stop : Type 0 where
  halted : Halt → Stop
  budget observer : Stop

pub data Step : Type 0 where
  go_on stop : Step

-- What a run reports to, with the observer's own state. The machine is mutable to it.
pub record Observer (S : Type 0) : Type 0 where
  pub before_step : S → Cpu → Step × S × Cpu
  pub after_step : S → Cpu → ℕ → Instruction → Step × S × Cpu
  pub checkpoint : S → Checkpoint → S

-- The end of a run: `err` is fuel that ran out.
abbrev pub Ended : Type 0 → Type 0
Ended S = Outcome (Unit {0}) Stop × S × Cpu

abbrev pub observed : {S : Type 0} → (S → Cpu → Ended S) → Step × S × Cpu → Ended S
observed rest (go_on, s, c) = rest s c
observed rest (stop, s, c) = (ok Stop.observer, s, c)

-- The `debug_assert!` on the configuration, which panics in a checked build.
abbrev pub asserted :
    {S : Type 0} → Outcome TraceConfigError (Unit {0}) → S → Cpu → Ended S → Ended S
asserted (ok u) s c rest = rest
asserted (err e) s c rest = (panic, s, c)
asserted panic s c rest = (panic, s, c)

module _ {S : Type 0} (h : Hasher) (config : TraceConfig) (o : Observer S) where
  abbrev pub emitted : Cpu → S → S
  emitted c s =
      if is_checkpoint config c.icount
      then o.checkpoint s (checkpoint_of h c (is_ram_hash config c.icount))
      else s

  abbrev pub stepped : (S → Cpu → Ended S) → ℕ → S → Fetched → Ended S
  stepped rest retired_pc s (ok (word, insn), c) =
      observed rest (o.after_step (emitted c s) c retired_pc insn)
  stepped rest retired_pc s (err halt, c) = (ok (Stop.halted halt), s, c)
  stepped rest retired_pc s (panic, c) = (panic, s, c)

  abbrev pub round : (S → Cpu → Ended S) → S → Cpu → Ended S
  round rest s c = observed (λ s' c'. stepped rest c'.pc s' (step_reporting c')) (o.before_step s c)

  unfoldable pub rounds : ℕ → ℕ → S → Cpu → Ended S
  rounds limit zero s c = if ltb c.icount limit then (err tt, s, c) else (ok Stop.budget, s, c)
  rounds limit (suc fuel) s c =
      if ltb c.icount limit then round (rounds limit fuel) s c else (ok Stop.budget, s, c)

  unfoldable pub run : ℕ → ℕ → S → Cpu → Ended S
  unfolding rounds
  run limit fuel s c = asserted (validate config) s c (rounds limit fuel s c)

-- `Collector`: it records the checkpoints in order and never stops a run.
abbrev pub collector : Observer (List Checkpoint)
collector = record {
  before_step = λ s c. (go_on, s, c);
  after_step = λ s c retired_pc insn. (go_on, s, c);
  checkpoint = λ lines line. lines ++ (line ∷ []);
}

-- One step of the machine adds one to its count, so the rest of the budget is fuel enough.
unfoldable pub collect : Hasher → TraceConfig → ℕ → ℕ → Cpu → Ended (List Checkpoint)
unfolding run
collect h config limit fuel c = run h config collector limit fuel [] c
