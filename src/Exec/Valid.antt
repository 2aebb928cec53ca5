-- ===== src/Exec/Valid.antt =====
-- The invariant of the machine, and that a step keeps it and never panics.
use click_doom.Base.{
  ℕ, ◌%◌, ◌^◌, ◌<◌, ◌≡◌, ◌∙◌, Bool, arith, ◌==◌, ==_iff, if_both, length, length-set, set,
  get_or-set_self, All, All-set, Outcome, ok, err, panic, Returns, ◌*◌,
}
use click_doom.Word.{IsU32, wrapping_add}
use click_doom.Word.Signed.{sext-lt}
use click_doom.Exec.Halted.{Halt}
use click_doom.Memory.{Memory, MemFault}
use click_doom.Memory.Access.{read, write}
use click_doom.Memory.Valid as Memories
use click_doom.Memory.Valid.{read-IsValid, write-IsValid}
use click_doom.Mmio.Laws.{ReturnsU32}
use click_doom.Decode.{Instruction}
use click_doom.Decode.Bounds.{IsInRange}
use click_doom.Exec.{Cpu, in_regs, reg, put_reg, set_reg}
use click_doom.Exec.Cache.{CacheMatches, read-CacheMatches, write-CacheMatches}
use click_doom.Exec.Execute.{Executed, wrote, checked, loaded, stored, next_pc, execute}
use click_doom.Exec.Kinds.{
  Kind, writes, jumps, branches, loads, stores, passes, stops, execute-Kind,
}

pub record IsValid (c : Cpu) : Type 0 where
  pub memory : Memories.IsValid c.memory
  pub register_count : length c.regs ≡ 32
  pub register_words : All IsU32 c.regs
  pub x0 : reg c 0 ≡ 0
  pub pc_word : c.pc < 2 ^ 32
  pub pc_aligned : c.pc % 4 ≡ 0
  pub cache : CacheMatches c.memory c.cache

-- An executed instruction: an aligned next program counter, or a halt, and a valid machine.
abbrev pub GoodResult : Outcome Halt ℕ → Type 0
GoodResult (ok next) = (next < 2 ^ 32) × (next % 4 ≡ 0)
GoodResult (err halt) = Unit
GoodResult panic = ⊥

abbrev pub Good : Executed → Type 0
Good r = GoodResult r.0 × IsValid r.1

put_reg-IsValid :
    (c : Cpu) (index value : ℕ) → IsValid c → value < 2 ^ 32 → IsValid (put_reg c index value)
put_reg-IsValid c index value v h = record {
  memory = v.memory;
  register_count =
      length-set (set c.regs index value) 0 0 ∙ (length-set c.regs index value ∙ v.register_count);
  register_words =
      All-set IsU32 (set c.regs index value) 0 0
        (All-set IsU32 c.regs index value v.register_words h) (omega arith);
  x0 =
      get_or-set_self (set c.regs index value) 0 0 0
        (omega (arith, length-set c.regs index value, v.register_count));
  pc_word = v.pc_word;
  pc_aligned = v.pc_aligned;
  cache = v.cache;
}

-- A write to one of the 32 registers does not panic.
set_reg-Good :
    (c : Cpu) (index value next : ℕ)
    → IsValid c
    → index < 32
    → value < 2 ^ 32
    → (next < 2 ^ 32) × (next % 4 ≡ 0)
    → Good (set_reg c index value next)
set_reg-Good c index value next v h w n =
    if_both Good (in_regs c index) (λ _. (n, put_reg-IsValid c index value v w))
      (λ out. absurd (ground (arith, out, h, v.register_count)))

pub set_memory-IsValid :
    (c : Cpu) (m : Memory)
    → IsValid c
    → Memories.IsValid m
    → CacheMatches m c.cache
    → IsValid (record c { memory = m })
set_memory-IsValid c m v h k = record {
  memory = h;
  register_count = v.register_count;
  register_words = v.register_words;
  x0 = v.x0;
  pc_word = v.pc_word;
  pc_aligned = v.pc_aligned;
  cache = k;
}

module _ (c : Cpu) (word : ℕ) (i : Instruction) (v : IsValid c) (range : IsInRange i) where
  next_good : (next_pc c.pc < 2 ^ 32) × (next_pc c.pc % 4 ≡ 0)
  next_good = (omega arith, omega (arith, v.pc_aligned))

  wrote-Good : (d : Cpu) (value : ℕ) → IsValid d → value < 2 ^ 32 → Good (wrote d c.pc i value)
  wrote-Good d value w h = set_reg-Good d i.rd value (next_pc c.pc) w range.rd h next_good

  checked-Good :
      (target : ℕ) (after : Executed)
      → (target % 4 ≡ 0 → Good after)
      → Good (checked c target c.pc word after)
  checked-Good target after w =
      if_both Good (target % 4 == 0) (λ e. w ((==_iff (target % 4) 0).0 e)) (λ _. (tt, v))

  loaded-Good :
      (width : ℕ) (signed : Bool) (r : Outcome MemFault ℕ × Memory)
      → ReturnsU32 r.0
      → Memories.IsValid r.1
      → CacheMatches r.1 c.cache
      → Good (loaded c c.pc word i width signed r)
  loaded-Good width signed (ok raw, m) h k cache =
      wrote-Good (record c { memory = m }) _ (set_memory-IsValid c m v k cache)
        (if_both IsU32 signed (λ _. sext-lt raw (width * 8)) (λ _. h))
  loaded-Good width signed (err fault, m) h k cache = (tt, set_memory-IsValid c m v k cache)
  loaded-Good width signed (panic, m) h k cache = absurd h

  stored-Good :
      (r : Outcome MemFault (Unit {0}) × Memory)
      → Returns r.0
      → Memories.IsValid r.1
      → CacheMatches r.1 c.cache
      → Good (stored c c.pc word r)
  stored-Good (ok u, m) h k cache = (next_good, set_memory-IsValid c m v k cache)
  stored-Good (err fault, m) h k cache = (tt, set_memory-IsValid c m v k cache)
  stored-Good (panic, m) h k cache = absurd h

  Kind-Good : (r : Executed) → Kind c c.pc word i r → Good r
  Kind-Good r (writes value h e) = rw e (wrote-Good c value v h)
  Kind-Good r (jumps target h e) = rw e (
      checked-Good target (set_reg c i.rd (next_pc c.pc) target)
        (λ aligned. set_reg-Good c i.rd _ target v range.rd next_good.0 (h, aligned)))
  Kind-Good r (branches taken e) = rw e (
      if_both Good taken
        (λ _. checked-Good (wrapping_add c.pc i.imm) _ (λ aligned. ((omega arith, aligned), v)))
        (λ _. (next_good, v)))
  Kind-Good r (loads width signed w e) =
      let addr : ℕ = wrapping_add (reg c i.rs1) i.imm in
      let (value, valid) = read-IsValid c.memory addr width c.icount v.memory w in
      rw e (
        loaded-Good width signed (read c.memory addr width c.icount) value valid
          (read-CacheMatches c.memory addr width c.icount c.cache v.cache))
  Kind-Good r (stores width w e) =
      let addr : ℕ = wrapping_add (reg c i.rs1) i.imm in
      let (value, valid) = write-IsValid c.memory addr width (reg c i.rs2) c.icount v.memory w in
      rw e (
        stored-Good (write c.memory addr width (reg c i.rs2) c.icount) value valid (
          write-CacheMatches c.memory addr width (reg c i.rs2) c.icount v.memory w c.cache v.cache))
  Kind-Good r (passes e) = rw e (next_good, v)
  Kind-Good r (stops reason e) = rw e (tt, v)

-- Executing any instruction in range on a valid machine does not panic: it gives an aligned next
-- program counter or a halt, and a valid machine.
pub execute-Good :
    (c : Cpu) (word : ℕ) (i : Instruction) → IsValid c → IsInRange i → Good (execute c c.pc word i)
execute-Good c word i v h =
    Kind-Good c word i v h (execute c c.pc word i)
      (execute-Kind c c.pc word i v.register_count v.register_words h)
