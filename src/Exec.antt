-- ===== src/Exec.antt =====
-- refemu/src/exec.rs: the machine, its register file and why it stops.
pub mod Halted
pub mod Sources
pub mod Execute
pub mod Step
pub mod Cache
pub mod Kinds
pub mod Valid
pub mod Fetches
pub mod Runs
pub mod Precise
pub mod Cacheless
pub mod Uncached
pub mod Setup
use click_doom.Base.{
  ℕ, ◌%◌, Option, none, some, List, [], ◌∷◌, ◌==◌, if◌then◌else◌, get_or, set, replicate, Outcome,
  ok, err, panic, Bool, ltb, length,
}
use click_doom.Spec.Halt.{HaltReason}
use click_doom.Memory.{Memory, MemFault, bad_addr, misaligned, self_modify, exit}
use click_doom.Predecode.{DecodeCache}
use Halted.{Halt}

pub record Cpu : Type 0 where
  pub memory : Memory
  pub pc : ℕ
  pub regs : List ℕ
  pub icount : ℕ
  pub cache : Option DecodeCache

unfoldable pub new_cpu : Memory → ℕ → Cpu
new_cpu memory entry = record {
  memory = memory;
  pc = entry;
  regs = replicate 32 0;
  icount = 0;
  cache = none;
}

-- `self.regs[index as usize]` panics on an index outside the register file. `set_reg` tests for it;
-- for the registers that an instruction reads, `execute` does, before it takes their words by `reg`.
abbrev pub in_regs : Cpu → ℕ → Bool
in_regs c index = ltb index (length c.regs)

abbrev pub reg : Cpu → ℕ → ℕ
reg c index = get_or c.regs index 0

-- The write lands and then zero is put back in `x0`.
abbrev pub put_reg : Cpu → ℕ → ℕ → Cpu
put_reg c index value = record c { regs = set (set c.regs index value) 0 0 }

-- The write, then `Ok(next)`, as every arm of `execute` that writes a register ends.
abbrev pub set_reg : Cpu → ℕ → ℕ → ℕ → Outcome Halt ℕ × Cpu
set_reg c index value next =
    if in_regs c index then (ok next, put_reg c index value) else (panic, c)

unfoldable pub set_pc : Cpu → ℕ → Cpu
set_pc c pc = record c { pc = pc }

unfoldable pub restore : Cpu → ℕ → List ℕ → ℕ → Cpu
restore c pc regs icount = record c { pc = pc; regs = set regs 0 0; icount = icount }

-- A fault of a fetch, and of an access by an instruction, as a halt.
unfoldable pub fetch_halt : ℕ → MemFault → Halt
fetch_halt pc (bad_addr addr) = Halted.on_fetch HaltReason.bad_addr pc addr
fetch_halt pc (misaligned addr width) = Halted.on_fetch HaltReason.misaligned pc addr
fetch_halt pc (self_modify addr) = Halted.on_fetch HaltReason.self_modify pc addr
fetch_halt pc (exit code) = record (Halted.new HaltReason.exit pc) { exit_code = some code }

unfoldable pub access_halt : ℕ → ℕ → MemFault → Halt
access_halt pc word (bad_addr addr) = Halted.at HaltReason.bad_addr pc word addr
access_halt pc word (misaligned addr width) = Halted.at HaltReason.misaligned pc word addr
access_halt pc word (self_modify addr) = Halted.at HaltReason.self_modify pc word addr
access_halt pc word (exit code) = Halted.exit_with pc word code
