-- ===== src/Exec/Cacheless.antt =====
-- No operation of `Cpu::execute` of refemu/src/exec.rs looks at the decode cache.
use click_doom.Base.{
  ℕ, ◌%◌, ◌≡◌, ◌∙◌, refl, ap, Bool, true, false, none, ◌==◌, if◌then◌else◌, Outcome, ok, err, panic,
}
use click_doom.Word.{wrapping_add}
use click_doom.Memory.{Memory, MemFault}
use click_doom.Decode.{Instruction}
use click_doom.Decode.Operation.{Op}
use click_doom.Exec.{Cpu, in_regs, set_reg}
use click_doom.Exec.Sources.{sources, readable}
use click_doom.Exec.Execute.{
  jumped, next_pc, Executed, checked, branched, loaded, stored, execute_op, execute,
}

-- The machine with its cache dropped, and a result with the cache of its machine dropped.
abbrev pub uncached : Cpu → Cpu
uncached c = record c { cache = none }

abbrev pub uncache {ℓ} : {R : Type ℓ} → R × Cpu → R × Cpu
uncache (r, c) = (r, uncached c)

-- A conditional under a function.
pub if_map {ℓ κ} :
    {A : Type ℓ} {B : Type κ} (f : A → B) (b : Bool) (x y : A)
    → (if b then f x else f y) ≡ f (if b then x else y)
if_map f true x y = refl
if_map f false x y = refl

set_reg-uncached :
    (c : Cpu) (index value next : ℕ)
    → set_reg (uncached c) index value next ≡ uncache (set_reg c index value next)
set_reg-uncached c index value next = if_map uncache (in_regs c index) _ _

module _ (c : Cpu) (pc word : ℕ) (i : Instruction) where
  checked-uncached :
      (target : ℕ) (after : Executed)
      → checked (uncached c) target pc word (uncache after)
        ≡ uncache (checked c target pc word after)
  checked-uncached target after = if_map uncache (target % 4 == 0) _ _

  branched-uncached :
      (taken : Bool) → branched (uncached c) taken pc word i ≡ uncache (branched c taken pc word i)
  branched-uncached true = checked-uncached (wrapping_add pc i.imm) (ok (wrapping_add pc i.imm), c)
  branched-uncached false = refl

  loaded-uncached :
      (width : ℕ) (signed : Bool) (r : Outcome MemFault ℕ × Memory)
      → loaded (uncached c) pc word i width signed r ≡ uncache (loaded c pc word i width signed r)
  loaded-uncached width signed (ok raw, m) =
      set_reg-uncached (record c { memory = m }) i.rd _ (next_pc pc)
  loaded-uncached width signed (err f, m) = refl
  loaded-uncached width signed (panic, m) = refl

  stored-uncached :
      (r : Outcome MemFault (Unit {0}) × Memory)
      → stored (uncached c) pc word r ≡ uncache (stored c pc word r)
  stored-uncached (ok u, m) = refl
  stored-uncached (err f, m) = refl
  stored-uncached (panic, m) = refl

  jumped-uncached :
      (target : ℕ) → jumped (uncached c) target pc word i ≡ uncache (jumped c target pc word i)
  jumped-uncached target =
      ap (checked (uncached c) target pc word) (set_reg-uncached c i.rd (next_pc pc) target)
      ∙ checked-uncached target (set_reg c i.rd (next_pc pc) target)

  -- No operation looks at the cache.
  execute_op-uncached :
      (op : Op) → execute_op op (uncached c) pc word i ≡ uncache (execute_op op c pc word i)
  unfolding execute_op
  execute_op-uncached Op.lui = set_reg-uncached c i.rd _ _
  execute_op-uncached Op.auipc = set_reg-uncached c i.rd _ _
  execute_op-uncached Op.jal = jumped-uncached _
  execute_op-uncached Op.jalr = jumped-uncached _
  execute_op-uncached Op.beq = branched-uncached _
  execute_op-uncached Op.bne = branched-uncached _
  execute_op-uncached Op.blt = branched-uncached _
  execute_op-uncached Op.bge = branched-uncached _
  execute_op-uncached Op.bltu = branched-uncached _
  execute_op-uncached Op.bgeu = branched-uncached _
  execute_op-uncached Op.lb = loaded-uncached 1 true _
  execute_op-uncached Op.lh = loaded-uncached 2 true _
  execute_op-uncached Op.lw = loaded-uncached 4 true _
  execute_op-uncached Op.lbu = loaded-uncached 1 false _
  execute_op-uncached Op.lhu = loaded-uncached 2 false _
  execute_op-uncached Op.sb = stored-uncached _
  execute_op-uncached Op.sh = stored-uncached _
  execute_op-uncached Op.sw = stored-uncached _
  execute_op-uncached Op.addi = set_reg-uncached c i.rd _ _
  execute_op-uncached Op.slti = set_reg-uncached c i.rd _ _
  execute_op-uncached Op.sltiu = set_reg-uncached c i.rd _ _
  execute_op-uncached Op.xori = set_reg-uncached c i.rd _ _
  execute_op-uncached Op.ori = set_reg-uncached c i.rd _ _
  execute_op-uncached Op.andi = set_reg-uncached c i.rd _ _
  execute_op-uncached Op.slli = set_reg-uncached c i.rd _ _
  execute_op-uncached Op.srli = set_reg-uncached c i.rd _ _
  execute_op-uncached Op.srai = set_reg-uncached c i.rd _ _
  execute_op-uncached Op.add = set_reg-uncached c i.rd _ _
  execute_op-uncached Op.sub = set_reg-uncached c i.rd _ _
  execute_op-uncached Op.sll = set_reg-uncached c i.rd _ _
  execute_op-uncached Op.slt = set_reg-uncached c i.rd _ _
  execute_op-uncached Op.sltu = set_reg-uncached c i.rd _ _
  execute_op-uncached Op.xor = set_reg-uncached c i.rd _ _
  execute_op-uncached Op.srl = set_reg-uncached c i.rd _ _
  execute_op-uncached Op.sra = set_reg-uncached c i.rd _ _
  execute_op-uncached Op.or = set_reg-uncached c i.rd _ _
  execute_op-uncached Op.and = set_reg-uncached c i.rd _ _
  execute_op-uncached Op.mul = set_reg-uncached c i.rd _ _
  execute_op-uncached Op.mulh = set_reg-uncached c i.rd _ _
  execute_op-uncached Op.mulhsu = set_reg-uncached c i.rd _ _
  execute_op-uncached Op.mulhu = set_reg-uncached c i.rd _ _
  execute_op-uncached Op.div = set_reg-uncached c i.rd _ _
  execute_op-uncached Op.divu = set_reg-uncached c i.rd _ _
  execute_op-uncached Op.rem = set_reg-uncached c i.rd _ _
  execute_op-uncached Op.remu = set_reg-uncached c i.rd _ _
  execute_op-uncached Op.fence = refl
  execute_op-uncached Op.ecall = refl
  execute_op-uncached Op.ebreak = refl
  execute_op-uncached Op.csr = refl
  execute_op-uncached Op.illegal = refl

  pub execute-uncached : execute (uncached c) pc word i ≡ uncache (execute c pc word i)
  unfolding execute
  execute-uncached =
      ap (λ r. if readable c i (sources i.op) then r else (panic, uncached c))
        (execute_op-uncached i.op)
      ∙ if_map uncache (readable c i (sources i.op)) _ _
