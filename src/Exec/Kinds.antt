-- ===== src/Exec/Kinds.antt =====
-- The few shapes that the fifty operations have, so that a property of `execute` is proved once for
-- each shape.
use native.Mathlib.Nat.{div-le_self, mod-le}
use click_doom.Base.{
  ℕ, ◌^◌, ◌<◌, ◌≡◌, inl, inr, refl, Bool, true, false, arith, if_both, ◌==◌, ok, All, All-get_or,
  length, ◌&&◌,
}
use click_doom.Word.{IsU32, from_bool}
use click_doom.Word.Bits.{bit_and-lt, bit_or-lt, bit_xor-lt}
use click_doom.Word.Signed.{to_u32-lt}
use click_doom.Spec.Halt.{HaltReason}
use click_doom.Memory.Bytes.{IsWidth}
use click_doom.Decode.{Instruction}
use click_doom.Decode.Operation.{Op}
use click_doom.Decode.Bounds.{IsInRange}
use click_doom.Exec.{Cpu, reg}
use click_doom.Exec.Sources.{
  Sources, no_register, first_register, both_registers, sources, readable,
}
use click_doom.Exec.Execute.{
  Executed, wrote, stopped, jumped, branched, load, store, next_pc, mulhu, div, divu, rem, remu,
  int_min, minus_one, mulh, mulhsu, execute_op, execute, amount,
}

-- What `execute` can do: write a register with a `u32`, jump and link, branch, load, store, do
-- nothing, or stop with one of the four reasons that name no address.
pub data Kind (c : Cpu) (pc word : ℕ) (i : Instruction) (r : Executed) : Type 0 where
  writes : (value : ℕ) → value < 2 ^ 32 → r ≡ wrote c pc i value → Kind c pc word i r
  jumps : (target : ℕ) → target < 2 ^ 32 → r ≡ jumped c target pc word i → Kind c pc word i r
  branches : (taken : Bool) → r ≡ branched c taken pc word i → Kind c pc word i r
  loads :
      (width : ℕ) (signed : Bool)
      → IsWidth width
      → r ≡ load c pc word i width signed
      → Kind c pc word i r
  stores : (width : ℕ) → IsWidth width → r ≡ store c pc word i width → Kind c pc word i r
  passes : r ≡ (ok (next_pc pc), c) → Kind c pc word i r
  stops : (reason : HaltReason) → r ≡ stopped c reason pc word → Kind c pc word i r

from_bool-lt : (b : Bool) → from_bool b < 2 ^ 32
from_bool-lt true = omega arith
from_bool-lt false = omega arith

div-lt : (a b : ℕ) → a < 2 ^ 32 → div a b < 2 ^ 32
unfolding div
div-lt a b h =
    if_both IsU32 (b == 0) (λ _. omega arith)
      (λ _. if_both IsU32 (a == int_min && b == minus_one) (λ _. omega arith) (λ _. to_u32-lt _))

divu-lt : (a b : ℕ) → a < 2 ^ 32 → divu a b < 2 ^ 32
unfolding divu
divu-lt a b h = if_both IsU32 (b == 0) (λ _. omega arith) (λ _. omega (arith, div-le_self a b))

rem-lt : (a b : ℕ) → a < 2 ^ 32 → rem a b < 2 ^ 32
unfolding rem
rem-lt a b h =
    if_both IsU32 (b == 0) (λ _. h)
      (λ _. if_both IsU32 (a == int_min && b == minus_one) (λ _. omega arith) (λ _. to_u32-lt _))

remu-lt : (a b : ℕ) → a < 2 ^ 32 → remu a b < 2 ^ 32
unfolding remu
remu-lt a b h = if_both IsU32 (b == 0) (λ _. h) (λ _. omega (arith, mod-le a b))

mulh-lt : (a b : ℕ) → mulh a b < 2 ^ 32
unfolding mulh
mulh-lt a b = to_u32-lt _

mulhsu-lt : (a b : ℕ) → mulhsu a b < 2 ^ 32
unfolding mulhsu
mulhsu-lt a b = to_u32-lt _

mulhu-lt : (a b : ℕ) → mulhu a b < 2 ^ 32
unfolding mulhu
mulhu-lt a b = omega arith

module _ (c : Cpu) (pc word : ℕ) (i : Instruction) (regs : All IsU32 c.regs)
    (imm : i.imm < 2 ^ 32) where
  -- The registers that an instruction reads hold a `u32`.
  reg-IsU32 : (index : ℕ) → reg c index < 2 ^ 32
  reg-IsU32 index = All-get_or IsU32 c.regs index 0 regs (omega arith)

  abbrev a-IsU32 : reg c i.rs1 < 2 ^ 32
  a-IsU32 = reg-IsU32 i.rs1

  abbrev b-IsU32 : reg c i.rs2 < 2 ^ 32
  b-IsU32 = reg-IsU32 i.rs2

  execute_op-Kind : (op : Op) → Kind c pc word i (execute_op op c pc word i)
  unfolding execute_op
  execute_op-Kind Op.lui = writes _ imm refl
  execute_op-Kind Op.auipc = writes _ (omega arith) refl
  execute_op-Kind Op.jal = jumps _ (omega arith) refl
  execute_op-Kind Op.jalr = jumps _ (bit_and-lt 32 _ _ (omega arith)) refl
  execute_op-Kind Op.beq = branches _ refl
  execute_op-Kind Op.bne = branches _ refl
  execute_op-Kind Op.blt = branches _ refl
  execute_op-Kind Op.bge = branches _ refl
  execute_op-Kind Op.bltu = branches _ refl
  execute_op-Kind Op.bgeu = branches _ refl
  execute_op-Kind Op.lb = loads 1 true (inl refl) refl
  execute_op-Kind Op.lh = loads 2 true (inr (inl refl)) refl
  execute_op-Kind Op.lw = loads 4 true (inr (inr refl)) refl
  execute_op-Kind Op.lbu = loads 1 false (inl refl) refl
  execute_op-Kind Op.lhu = loads 2 false (inr (inl refl)) refl
  execute_op-Kind Op.sb = stores 1 (inl refl) refl
  execute_op-Kind Op.sh = stores 2 (inr (inl refl)) refl
  execute_op-Kind Op.sw = stores 4 (inr (inr refl)) refl
  execute_op-Kind Op.addi = writes _ (omega arith) refl
  execute_op-Kind Op.slti = writes _ (from_bool-lt _) refl
  execute_op-Kind Op.sltiu = writes _ (from_bool-lt _) refl
  execute_op-Kind Op.xori = writes _ (bit_xor-lt 32 _ _ a-IsU32 imm) refl
  execute_op-Kind Op.ori = writes _ (bit_or-lt 32 _ _ a-IsU32 imm) refl
  execute_op-Kind Op.andi = writes _ (bit_and-lt 32 _ _ a-IsU32) refl
  execute_op-Kind Op.slli = writes _ (omega arith) refl
  execute_op-Kind Op.srli =
      writes _ (omega (arith, div-le_self (reg c i.rs1) (2 ^ amount i.imm), a-IsU32)) refl
  execute_op-Kind Op.srai = writes _ (to_u32-lt _) refl
  execute_op-Kind Op.add = writes _ (omega arith) refl
  execute_op-Kind Op.sub = writes _ (omega arith) refl
  execute_op-Kind Op.sll = writes _ (omega arith) refl
  execute_op-Kind Op.slt = writes _ (from_bool-lt _) refl
  execute_op-Kind Op.sltu = writes _ (from_bool-lt _) refl
  execute_op-Kind Op.xor = writes _ (bit_xor-lt 32 _ _ a-IsU32 b-IsU32) refl
  execute_op-Kind Op.srl =
      writes _ (omega (arith, div-le_self (reg c i.rs1) (2 ^ amount (reg c i.rs2)), a-IsU32)) refl
  execute_op-Kind Op.sra = writes _ (to_u32-lt _) refl
  execute_op-Kind Op.or = writes _ (bit_or-lt 32 _ _ a-IsU32 b-IsU32) refl
  execute_op-Kind Op.and = writes _ (bit_and-lt 32 _ _ a-IsU32) refl
  execute_op-Kind Op.mul = writes _ (omega arith) refl
  execute_op-Kind Op.mulh = writes _ (mulh-lt (reg c i.rs1) (reg c i.rs2)) refl
  execute_op-Kind Op.mulhsu = writes _ (mulhsu-lt (reg c i.rs1) (reg c i.rs2)) refl
  execute_op-Kind Op.mulhu = writes _ (mulhu-lt (reg c i.rs1) (reg c i.rs2)) refl
  execute_op-Kind Op.div = writes _ (div-lt (reg c i.rs1) (reg c i.rs2) a-IsU32) refl
  execute_op-Kind Op.divu = writes _ (divu-lt (reg c i.rs1) (reg c i.rs2) a-IsU32) refl
  execute_op-Kind Op.rem = writes _ (rem-lt (reg c i.rs1) (reg c i.rs2) a-IsU32) refl
  execute_op-Kind Op.remu = writes _ (remu-lt (reg c i.rs1) (reg c i.rs2) a-IsU32) refl
  execute_op-Kind Op.fence = passes refl
  execute_op-Kind Op.ecall = stops HaltReason.ecall refl
  execute_op-Kind Op.ebreak = stops HaltReason.ebreak refl
  execute_op-Kind Op.csr = stops HaltReason.csr refl
  execute_op-Kind Op.illegal = stops HaltReason.illegal_insn refl

module _ (c : Cpu) (pc word : ℕ) (i : Instruction) (count : length c.regs ≡ 32)
    (regs : All IsU32 c.regs) (range : IsInRange i) where
  -- The register file holds the registers of an instruction in range.
  readable-true : (s : Sources) → readable c i s ≡ true
  readable-true no_register = refl
  readable-true first_register = ground (arith, count, range.rs1)
  readable-true both_registers = ground (arith, count, range.rs1, range.rs2)

  pub execute-Kind : Kind c pc word i (execute c pc word i)
  unfolding execute
  execute-Kind = rw (readable-true (sources i.op)) (execute_op-Kind c pc word i regs range.imm i.op)
