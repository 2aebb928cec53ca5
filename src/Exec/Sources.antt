-- ===== src/Exec/Sources.antt =====
-- `Cpu::execute` of refemu/src/exec.rs: the registers that each of its arms reads.
use click_doom.Base.{Bool, true, ◌&&◌}
use click_doom.Decode.{Instruction}
use click_doom.Decode.Operation.{Op}
use click_doom.Exec.{Cpu, in_regs}

-- None, `rs1`, or `rs1` and `rs2`.
pub data Sources : Type 0 where
  no_register first_register both_registers : Sources

unfoldable pub sources : Op → Sources
sources Op.lui = no_register
sources Op.auipc = no_register
sources Op.jal = no_register
sources Op.jalr = first_register
sources Op.beq = both_registers
sources Op.bne = both_registers
sources Op.blt = both_registers
sources Op.bge = both_registers
sources Op.bltu = both_registers
sources Op.bgeu = both_registers
sources Op.lb = first_register
sources Op.lh = first_register
sources Op.lw = first_register
sources Op.lbu = first_register
sources Op.lhu = first_register
sources Op.sb = both_registers
sources Op.sh = both_registers
sources Op.sw = both_registers
sources Op.addi = first_register
sources Op.slti = first_register
sources Op.sltiu = first_register
sources Op.xori = first_register
sources Op.ori = first_register
sources Op.andi = first_register
sources Op.slli = first_register
sources Op.srli = first_register
sources Op.srai = first_register
sources Op.add = both_registers
sources Op.sub = both_registers
sources Op.sll = both_registers
sources Op.slt = both_registers
sources Op.sltu = both_registers
sources Op.xor = both_registers
sources Op.srl = both_registers
sources Op.sra = both_registers
sources Op.or = both_registers
sources Op.and = both_registers
sources Op.mul = both_registers
sources Op.mulh = both_registers
sources Op.mulhsu = both_registers
sources Op.mulhu = both_registers
sources Op.div = both_registers
sources Op.divu = both_registers
sources Op.rem = both_registers
sources Op.remu = both_registers
sources Op.fence = no_register
sources Op.ecall = no_register
sources Op.ebreak = no_register
sources Op.csr = no_register
sources Op.illegal = no_register

-- Whether the register file holds them all; an index outside it is a panic.
abbrev pub readable : Cpu → Instruction → Sources → Bool
readable c i no_register = true
readable c i first_register = in_regs c i.rs1
readable c i both_registers = in_regs c i.rs1 && in_regs c i.rs2
