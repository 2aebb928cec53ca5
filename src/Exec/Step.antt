-- ===== src/Exec/Step.antt =====
-- `Cpu::step_reporting`, `step` and `run_until_halt` of refemu/src/exec.rs, with the operations of
-- the machine that load memory, declare the text region or build the decode cache.
use click_doom.Base.{
  ℕ, zero, suc, ◌+◌, ◌^◌, Bool, true, false, not, ◌&&◌, Option, none, some, List, ltb, leb,
  if◌then◌else◌, Outcome, ok, err, panic,
}
use click_doom.Spec.Halt.{HaltReason}
use click_doom.Memory.{Memory, MemFault, LoadError, load_image, restore_regions, set_text_region}
use click_doom.Memory.Access.{read}
use click_doom.Decode.{Instruction, decode}
use click_doom.Predecode.{Entry, DecodeCache, build, get}
use click_doom.Exec.{Cpu, fetch_halt}
use click_doom.Exec.Execute.{Executed, execute}
use click_doom.Exec.Halted
use click_doom.Exec.Halted.{Halt}

-- `load_image`, `restore_memory` and `set_text_region` of the machine drop the cache.
unfoldable pub load_cpu_image : Cpu → List ℕ → ℕ → Outcome LoadError (Unit {0}) × Cpu
load_cpu_image c image load_addr =
    let (result, m) = load_image c.memory image load_addr in
    (result, record c { memory = m; cache = none })

unfoldable pub restore_memory : Cpu → List ℕ → List ℕ → List ℕ → Cpu
restore_memory c ram framebuffer palette = record c {
  memory = restore_regions c.memory ram framebuffer palette;
  cache = none;
}

unfoldable pub declare_text : Cpu → Option (ℕ × ℕ) → Cpu
declare_text c region = record c { memory = set_text_region c.memory region; cache = none }

-- The cache of the declared region, if there is one; building it may panic.
abbrev pub region_cache : Memory → Option (ℕ × ℕ) → Outcome (Unit {0}) DecodeCache
region_cache m none = err tt
region_cache m (some (start, end)) = build m start end

abbrev pub keep_cache : Cpu → Outcome (Unit {0}) DecodeCache → Outcome Halt Bool × Cpu
keep_cache c (ok cache) = (ok true, record c { cache = some cache })
keep_cache c (err e) = (ok false, record c { cache = none })
keep_cache c panic = (panic, c)

unfoldable pub enable_decode_cache : Cpu → Outcome Halt Bool × Cpu
enable_decode_cache c = keep_cache c (region_cache c.memory c.memory.text)

-- Whether a fetch at `pc` is outside the declared text region.
abbrev pub outside_text : Option (ℕ × ℕ) → ℕ → Bool
outside_text none pc = false
outside_text (some (start, end)) pc = not (leb start pc && ltb pc end)

-- The word at `pc` and its decoded form, from the cache where it covers `pc`.
abbrev pub Fetched : Type 0
Fetched = Outcome Halt (ℕ × Instruction) × Cpu

abbrev pub cached : Option DecodeCache → ℕ → Option Entry
cached none pc = none
cached (some cache) pc = get cache pc

abbrev pub decoded : Cpu → Outcome MemFault ℕ × Memory → Fetched
decoded c (ok word, m) = (ok (word, decode word), record c { memory = m })
decoded c (err fault, m) = (err (fetch_halt c.pc fault), record c { memory = m })
decoded c (panic, m) = (panic, record c { memory = m })

abbrev pub fetch_entry : Cpu → Option Entry → Fetched
fetch_entry c (some entry) = (ok (entry.word, entry.insn), c)
fetch_entry c none = decoded c (read c.memory c.pc 4 c.icount)

unfoldable pub fetch : Cpu → Fetched
fetch c =
    if outside_text c.memory.text c.pc
    then (err (Halted.on_fetch HaltReason.bad_addr c.pc c.pc), c)
    else fetch_entry c (cached c.cache c.pc)

-- An instruction that does not halt retires: the count goes up and the program counter moves.
-- The count is a `u64`, whose addition panics at the end of its range.
abbrev pub retire : ℕ → Instruction → Executed → Fetched
retire word insn (ok next, c) =
    if ltb (c.icount + 1) (2 ^ 64)
    then (ok (word, insn), record c { icount = c.icount + 1; pc = next })
    else (panic, c)
retire word insn (err halt, c) = (err halt, c)
retire word insn (panic, c) = (panic, c)

abbrev pub run_fetched : ℕ → Fetched → Fetched
run_fetched pc (ok (word, insn), c) = retire word insn (execute c pc word insn)
run_fetched pc (err halt, c) = (err halt, c)
run_fetched pc (panic, c) = (panic, c)

unfoldable pub step_reporting : Cpu → Fetched
unfolding fetch execute
step_reporting c = run_fetched c.pc (fetch c)

-- `run_until_halt`: the error is `DidNotHalt`, of the bound.
abbrev pub Ran : Type 0
Ran = Outcome ℕ Halt × Cpu

abbrev pub run_after : (Cpu → Ran) → Fetched → Ran
run_after rest (ok reported, c) = rest c
run_after rest (err halt, c) = (ok halt, c)
run_after rest (panic, c) = (panic, c)

unfoldable pub run_steps : ℕ → ℕ → Cpu → Ran
unfolding step_reporting
run_steps max_steps zero c = (err max_steps, c)
run_steps max_steps (suc left) c = run_after (run_steps max_steps left) (step_reporting c)

unfoldable pub run_until_halt : ℕ → Cpu → Ran
unfolding run_steps
run_until_halt max_steps c = run_steps max_steps max_steps c
