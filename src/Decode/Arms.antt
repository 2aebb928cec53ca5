-- ===== src/Decode/Arms.antt =====
-- The inner matches of `decode`: which operation a function code names under each opcode.
use click_doom.Base.{ℕ, Bool, ◌||◌, Option, none, some, ◌==◌, if◌then◌else◌}
use click_doom.Decode.Operation.{Op}

unfoldable pub branch_op : ℕ → Option Op
branch_op funct3 =
    if funct3 == 0b000
    then some Op.beq
    else if funct3 == 0b001
    then some Op.bne
    else if funct3 == 0b100
    then some Op.blt
    else if funct3 == 0b101
    then some Op.bge
    else if funct3 == 0b110
    then some Op.bltu
    else if funct3 == 0b111
    then some Op.bgeu
    else none

unfoldable pub load_op : ℕ → Option Op
load_op funct3 =
    if funct3 == 0b000
    then some Op.lb
    else if funct3 == 0b001
    then some Op.lh
    else if funct3 == 0b010
    then some Op.lw
    else if funct3 == 0b100
    then some Op.lbu
    else if funct3 == 0b101
    then some Op.lhu
    else none

unfoldable pub store_op : ℕ → Option Op
store_op funct3 =
    if funct3 == 0b000
    then some Op.sb
    else if funct3 == 0b001
    then some Op.sh
    else if funct3 == 0b010
    then some Op.sw
    else none

unfoldable pub imm_op : ℕ → ℕ → Option Op
imm_op funct3 funct7 =
    if funct3 == 0b000
    then some Op.addi
    else if funct3 == 0b010
    then some Op.slti
    else if funct3 == 0b011
    then some Op.sltiu
    else if funct3 == 0b100
    then some Op.xori
    else if funct3 == 0b110
    then some Op.ori
    else if funct3 == 0b111
    then some Op.andi
    else if funct3 == 0b001
    then (if funct7 == 0x00 then some Op.slli else none)
    else if funct3 == 0b101
    then (if funct7 == 0x00 then some Op.srli else if funct7 == 0x20 then some Op.srai else none)
    else none

-- Every function code under the multiply extension names an arm.
unfoldable pub mul_op : ℕ → Op
mul_op funct3 =
    if funct3 == 0b000
    then Op.mul
    else if funct3 == 0b001
    then Op.mulh
    else if funct3 == 0b010
    then Op.mulhsu
    else if funct3 == 0b011
    then Op.mulhu
    else if funct3 == 0b100
    then Op.div
    else if funct3 == 0b101
    then Op.divu
    else if funct3 == 0b110
    then Op.rem
    else Op.remu

unfoldable pub reg_op : ℕ → ℕ → Option Op
reg_op funct3 funct7 =
    if funct3 == 0b000
    then (if funct7 == 0x00 then some Op.add else if funct7 == 0x20 then some Op.sub else none)
    else if funct3 == 0b101
    then (if funct7 == 0x00 then some Op.srl else if funct7 == 0x20 then some Op.sra else none)
    else if funct7 == 0x00
    then (if funct3 == 0b001
        then some Op.sll
        else if funct3 == 0b010
        then some Op.slt
        else if funct3 == 0b011
        then some Op.sltu
        else if funct3 == 0b100
        then some Op.xor
        else if funct3 == 0b110
        then some Op.or
        else if funct3 == 0b111
        then some Op.and
        else none)
    else none

unfoldable pub is_csr : ℕ → Bool
is_csr funct3 =
    funct3 == 0b001
    || funct3 == 0b010
    || funct3 == 0b011
    || funct3 == 0b101
    || funct3 == 0b110
    || funct3 == 0b111
