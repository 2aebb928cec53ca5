-- ===== src/Exec/Execute.antt =====
-- `Cpu::execute` of refemu/src/exec.rs. Each operation is one clause: the result is the next program
-- counter or a halt, beside the machine, which a load or a store may change before it faults.
use click_doom.Base.{
  ℕ, ◌*◌, ◌/◌, ◌%◌, ◌^◌, Bool, true, false, not, ◌&&◌, bit_and, bit_or, bit_xor, ltb, leb, ◌==◌,
  if◌then◌else◌, Outcome, ok, err, panic,
}
use click_doom.Base.Int.{pos, ◌*ℤ◌, shr_ℤ, div_ℤ, rem_ℤ}
use click_doom.Word.{
  wrapping_add, wrapping_sub, wrapping_mul, ◌<<<◌, ◌>>>◌, signed32, to_u32, signed_lt, signed_shr,
  from_bool, sext,
}
use click_doom.Spec.Halt.{HaltReason}
use click_doom.Memory.{Memory, MemFault}
use click_doom.Memory.Access.{read, write}
use click_doom.Decode.{Instruction}
use click_doom.Decode.Operation.{Op}
use click_doom.Exec.{Cpu, reg, set_reg, access_halt}
use click_doom.Exec.Sources.{sources, readable}
use click_doom.Exec.Halted
use click_doom.Exec.Halted.{Halt}

abbrev pub int_min : ℕ
int_min = 0x8000_0000

abbrev pub minus_one : ℕ
minus_one = 0xFFFF_FFFF

abbrev pub u32_max : ℕ
u32_max = 0xFFFF_FFFF

-- `Ok(next)`.
abbrev pub next_pc : ℕ → ℕ
next_pc pc = wrapping_add pc 4

-- The result of an instruction.
abbrev pub Executed : Type 0
Executed = Outcome Halt ℕ × Cpu

-- `self.set_reg(rd, value)`, then `Ok(next)`.
abbrev pub wrote : Cpu → ℕ → Instruction → ℕ → Executed
wrote c pc i value = set_reg c i.rd value (next_pc pc)

-- A halt that names no address.
abbrev pub stopped : Cpu → HaltReason → ℕ → ℕ → Executed
stopped c reason pc word = (err (Halted.with_insn reason pc word), c)

-- `check_target(target, pc, word)?` and what follows it.
abbrev pub checked : Cpu → ℕ → ℕ → ℕ → Executed → Executed
checked c target pc word after =
    if target % 4 == 0 then after else (err (Halted.at HaltReason.misaligned pc word target), c)

abbrev pub jumped : Cpu → ℕ → ℕ → ℕ → Instruction → Executed
jumped c target pc word i = checked c target pc word (set_reg c i.rd (next_pc pc) target)

abbrev pub branched : Cpu → Bool → ℕ → ℕ → Instruction → Executed
branched c taken pc word i =
    let target = wrapping_add pc i.imm in
    if taken then checked c target pc word (ok target, c) else (ok (next_pc pc), c)

-- What a load does with what memory returned.
abbrev pub loaded : Cpu → ℕ → ℕ → Instruction → ℕ → Bool → Outcome MemFault ℕ × Memory → Executed
loaded c pc word i width signed (ok raw, m) =
    wrote (record c { memory = m }) pc i (if signed then sext raw (width * 8) else raw)
loaded c pc word i width signed (err fault, m) =
    (err (access_halt pc word fault), record c { memory = m })
loaded c pc word i width signed (panic, m) = (panic, record c { memory = m })

abbrev pub load : Cpu → ℕ → ℕ → Instruction → ℕ → Bool → Executed
load c pc word i width signed =
    loaded c pc word i width signed
      (read c.memory (wrapping_add (reg c i.rs1) i.imm) width c.icount)

abbrev pub stored : Cpu → ℕ → ℕ → Outcome MemFault (Unit {0}) × Memory → Executed
stored c pc word (ok u, m) = (ok (next_pc pc), record c { memory = m })
stored c pc word (err fault, m) = (err (access_halt pc word fault), record c { memory = m })
stored c pc word (panic, m) = (panic, record c { memory = m })

abbrev pub store : Cpu → ℕ → ℕ → Instruction → ℕ → Executed
store c pc word i width =
    stored c pc word
      (write c.memory (wrapping_add (reg c i.rs1) i.imm) width (reg c i.rs2) c.icount)

-- The multiply extension on two words.
unfoldable pub mulh : ℕ → ℕ → ℕ
mulh a b = to_u32 (shr_ℤ (signed32 a *ℤ signed32 b) 32)

unfoldable pub mulhsu : ℕ → ℕ → ℕ
mulhsu a b = to_u32 (shr_ℤ (signed32 a *ℤ pos b) 32)

unfoldable pub mulhu : ℕ → ℕ → ℕ
mulhu a b = (a * b) >>> 32 % 2 ^ 32

unfoldable pub div : ℕ → ℕ → ℕ
div a b =
    if b == 0
    then u32_max
    else if a == int_min && b == minus_one
    then int_min
    else to_u32 (div_ℤ (signed32 a) (signed32 b))

unfoldable pub divu : ℕ → ℕ → ℕ
divu a b = if b == 0 then u32_max else a / b

unfoldable pub rem : ℕ → ℕ → ℕ
rem a b =
    if b == 0
    then a
    else if a == int_min && b == minus_one
    then 0
    else to_u32 (rem_ℤ (signed32 a) (signed32 b))

unfoldable pub remu : ℕ → ℕ → ℕ
remu a b = if b == 0 then a else a % b

-- The amount of a shift: the low five bits.
abbrev pub amount : ℕ → ℕ
amount x = bit_and x 0x1F

-- `match op`.
unfoldable pub execute_op : Op → Cpu → ℕ → ℕ → Instruction → Executed
unfolding mulh mulhsu mulhu div divu rem remu
execute_op Op.lui c pc word i = wrote c pc i i.imm
execute_op Op.auipc c pc word i = wrote c pc i (wrapping_add pc i.imm)
execute_op Op.jal c pc word i = jumped c (wrapping_add pc i.imm) pc word i
execute_op Op.jalr c pc word i =
    jumped c (bit_and (wrapping_add (reg c i.rs1) i.imm) 0xFFFF_FFFE) pc word i
execute_op Op.beq c pc word i = branched c (reg c i.rs1 == reg c i.rs2) pc word i
execute_op Op.bne c pc word i = branched c (not (reg c i.rs1 == reg c i.rs2)) pc word i
execute_op Op.blt c pc word i = branched c (signed_lt (reg c i.rs1) (reg c i.rs2)) pc word i
execute_op Op.bge c pc word i = branched c (not (signed_lt (reg c i.rs1) (reg c i.rs2))) pc word i
execute_op Op.bltu c pc word i = branched c (ltb (reg c i.rs1) (reg c i.rs2)) pc word i
execute_op Op.bgeu c pc word i = branched c (leb (reg c i.rs2) (reg c i.rs1)) pc word i
execute_op Op.lb c pc word i = load c pc word i 1 true
execute_op Op.lh c pc word i = load c pc word i 2 true
execute_op Op.lw c pc word i = load c pc word i 4 true
execute_op Op.lbu c pc word i = load c pc word i 1 false
execute_op Op.lhu c pc word i = load c pc word i 2 false
execute_op Op.sb c pc word i = store c pc word i 1
execute_op Op.sh c pc word i = store c pc word i 2
execute_op Op.sw c pc word i = store c pc word i 4
execute_op Op.addi c pc word i = wrote c pc i (wrapping_add (reg c i.rs1) i.imm)
execute_op Op.slti c pc word i = wrote c pc i (from_bool (signed_lt (reg c i.rs1) i.imm))
execute_op Op.sltiu c pc word i = wrote c pc i (from_bool (ltb (reg c i.rs1) i.imm))
execute_op Op.xori c pc word i = wrote c pc i (bit_xor (reg c i.rs1) i.imm)
execute_op Op.ori c pc word i = wrote c pc i (bit_or (reg c i.rs1) i.imm)
execute_op Op.andi c pc word i = wrote c pc i (bit_and (reg c i.rs1) i.imm)
execute_op Op.slli c pc word i = wrote c pc i (reg c i.rs1 <<< amount i.imm)
execute_op Op.srli c pc word i = wrote c pc i (reg c i.rs1 >>> amount i.imm)
execute_op Op.srai c pc word i = wrote c pc i (signed_shr (reg c i.rs1) (amount i.imm))
execute_op Op.add c pc word i = wrote c pc i (wrapping_add (reg c i.rs1) (reg c i.rs2))
execute_op Op.sub c pc word i = wrote c pc i (wrapping_sub (reg c i.rs1) (reg c i.rs2))
execute_op Op.sll c pc word i = wrote c pc i (reg c i.rs1 <<< amount (reg c i.rs2))
execute_op Op.slt c pc word i = wrote c pc i (from_bool (signed_lt (reg c i.rs1) (reg c i.rs2)))
execute_op Op.sltu c pc word i = wrote c pc i (from_bool (ltb (reg c i.rs1) (reg c i.rs2)))
execute_op Op.xor c pc word i = wrote c pc i (bit_xor (reg c i.rs1) (reg c i.rs2))
execute_op Op.srl c pc word i = wrote c pc i (reg c i.rs1 >>> amount (reg c i.rs2))
execute_op Op.sra c pc word i = wrote c pc i (signed_shr (reg c i.rs1) (amount (reg c i.rs2)))
execute_op Op.or c pc word i = wrote c pc i (bit_or (reg c i.rs1) (reg c i.rs2))
execute_op Op.and c pc word i = wrote c pc i (bit_and (reg c i.rs1) (reg c i.rs2))
execute_op Op.mul c pc word i = wrote c pc i (wrapping_mul (reg c i.rs1) (reg c i.rs2))
execute_op Op.mulh c pc word i = wrote c pc i (mulh (reg c i.rs1) (reg c i.rs2))
execute_op Op.mulhsu c pc word i = wrote c pc i (mulhsu (reg c i.rs1) (reg c i.rs2))
execute_op Op.mulhu c pc word i = wrote c pc i (mulhu (reg c i.rs1) (reg c i.rs2))
execute_op Op.div c pc word i = wrote c pc i (div (reg c i.rs1) (reg c i.rs2))
execute_op Op.divu c pc word i = wrote c pc i (divu (reg c i.rs1) (reg c i.rs2))
execute_op Op.rem c pc word i = wrote c pc i (rem (reg c i.rs1) (reg c i.rs2))
execute_op Op.remu c pc word i = wrote c pc i (remu (reg c i.rs1) (reg c i.rs2))
execute_op Op.fence c pc word i = (ok (next_pc pc), c)
execute_op Op.ecall c pc word i = stopped c HaltReason.ecall pc word
execute_op Op.ebreak c pc word i = stopped c HaltReason.ebreak pc word
execute_op Op.csr c pc word i = stopped c HaltReason.csr pc word
execute_op Op.illegal c pc word i = stopped c HaltReason.illegal_insn pc word

-- An arm reads its registers before it does anything else.
unfoldable pub execute : Cpu → ℕ → ℕ → Instruction → Executed
unfolding execute_op sources
execute c pc word i =
    if readable c i (sources i.op) then execute_op i.op c pc word i else (panic, c)
