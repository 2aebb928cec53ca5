-- ===== src/Asm.antt =====
-- refemu/src/asm.rs: the instruction-word encoders. Operands are `u32`, and an immediate is an `i32`
-- kept as its bit pattern; `<<` drops what leaves the 32 bits.
pub mod Words
pub mod RoundTrip
pub mod Immediates
pub mod Branches
pub mod Jumps
pub mod Uppers
use click_doom.Base.{ℕ, ◌-◌, List, [], ◌∷◌, ◌++◌, bit_and, bit_or}
use click_doom.Word.{◌<<<◌, ◌>>>◌}
use click_doom.Memory.{to_le_bytes}

abbrev pub imm_bits : ℕ → ℕ → ℕ
imm_bits value bits = bit_and value ((1 <<< bits) - 1)

-- `|`
infixl 60 ◌‖◌
abbrev ◌‖◌ : ℕ → ℕ → ℕ
a ‖ b = bit_or a b

unfoldable pub r_type : ℕ → ℕ → ℕ → ℕ → ℕ → ℕ → ℕ
r_type opcode rd funct3 rs1 rs2 funct7 =
    funct7 <<< 25 ‖ rs2 <<< 20 ‖ rs1 <<< 15 ‖ funct3 <<< 12 ‖ rd <<< 7 ‖ opcode

unfoldable pub i_type : ℕ → ℕ → ℕ → ℕ → ℕ → ℕ
i_type opcode rd funct3 rs1 imm =
    imm_bits imm 12 <<< 20 ‖ rs1 <<< 15 ‖ funct3 <<< 12 ‖ rd <<< 7 ‖ opcode

unfoldable pub s_type : ℕ → ℕ → ℕ → ℕ → ℕ → ℕ
s_type opcode funct3 rs1 rs2 imm =
    let low = imm_bits imm 12 in
    (low >>> 5) <<< 25 ‖ rs2 <<< 20 ‖ rs1 <<< 15 ‖ funct3 <<< 12 ‖ bit_and low 0x1F <<< 7 ‖ opcode

-- Branch offsets are even, so bit 0 is not encoded.
unfoldable pub b_type : ℕ → ℕ → ℕ → ℕ → ℕ → ℕ
b_type opcode funct3 rs1 rs2 imm =
    let low = imm_bits imm 13 in
    bit_and (low >>> 12) 1 <<< 31
    ‖ bit_and (low >>> 5) 0x3F <<< 25
    ‖ rs2 <<< 20
    ‖ rs1 <<< 15
    ‖ funct3 <<< 12
    ‖ bit_and (low >>> 1) 0xF <<< 8
    ‖ bit_and (low >>> 11) 1 <<< 7
    ‖ opcode

unfoldable pub u_type : ℕ → ℕ → ℕ → ℕ
u_type opcode rd imm20 = imm_bits imm20 20 <<< 12 ‖ rd <<< 7 ‖ opcode

-- Jump offsets are even, so bit 0 is not encoded.
unfoldable pub j_type : ℕ → ℕ → ℕ → ℕ
j_type opcode rd imm =
    let low = imm_bits imm 21 in
    bit_and (low >>> 20) 1 <<< 31
    ‖ bit_and (low >>> 1) 0x3FF <<< 21
    ‖ bit_and (low >>> 11) 1 <<< 20
    ‖ bit_and (low >>> 12) 0xFF <<< 12
    ‖ rd <<< 7
    ‖ opcode

abbrev pub lui : ℕ → ℕ → ℕ
lui rd imm20 = u_type 0x37 rd imm20

abbrev pub auipc : ℕ → ℕ → ℕ
auipc rd imm20 = u_type 0x17 rd imm20

abbrev pub jal : ℕ → ℕ → ℕ
jal rd imm = j_type 0x6F rd imm

abbrev pub jalr : ℕ → ℕ → ℕ → ℕ
jalr rd rs1 imm = i_type 0x67 rd 0b000 rs1 imm

abbrev pub lb : ℕ → ℕ → ℕ → ℕ
lb rd rs1 imm = i_type 0x03 rd 0b000 rs1 imm

abbrev pub lh : ℕ → ℕ → ℕ → ℕ
lh rd rs1 imm = i_type 0x03 rd 0b001 rs1 imm

abbrev pub lw : ℕ → ℕ → ℕ → ℕ
lw rd rs1 imm = i_type 0x03 rd 0b010 rs1 imm

abbrev pub lbu : ℕ → ℕ → ℕ → ℕ
lbu rd rs1 imm = i_type 0x03 rd 0b100 rs1 imm

abbrev pub lhu : ℕ → ℕ → ℕ → ℕ
lhu rd rs1 imm = i_type 0x03 rd 0b101 rs1 imm

abbrev pub addi : ℕ → ℕ → ℕ → ℕ
addi rd rs1 imm = i_type 0x13 rd 0b000 rs1 imm

abbrev pub slti : ℕ → ℕ → ℕ → ℕ
slti rd rs1 imm = i_type 0x13 rd 0b010 rs1 imm

abbrev pub sltiu : ℕ → ℕ → ℕ → ℕ
sltiu rd rs1 imm = i_type 0x13 rd 0b011 rs1 imm

abbrev pub xori : ℕ → ℕ → ℕ → ℕ
xori rd rs1 imm = i_type 0x13 rd 0b100 rs1 imm

abbrev pub ori : ℕ → ℕ → ℕ → ℕ
ori rd rs1 imm = i_type 0x13 rd 0b110 rs1 imm

abbrev pub andi : ℕ → ℕ → ℕ → ℕ
andi rd rs1 imm = i_type 0x13 rd 0b111 rs1 imm

abbrev pub beq : ℕ → ℕ → ℕ → ℕ
beq rs1 rs2 imm = b_type 0x63 0b000 rs1 rs2 imm

abbrev pub bne : ℕ → ℕ → ℕ → ℕ
bne rs1 rs2 imm = b_type 0x63 0b001 rs1 rs2 imm

abbrev pub blt : ℕ → ℕ → ℕ → ℕ
blt rs1 rs2 imm = b_type 0x63 0b100 rs1 rs2 imm

abbrev pub bge : ℕ → ℕ → ℕ → ℕ
bge rs1 rs2 imm = b_type 0x63 0b101 rs1 rs2 imm

abbrev pub bltu : ℕ → ℕ → ℕ → ℕ
bltu rs1 rs2 imm = b_type 0x63 0b110 rs1 rs2 imm

abbrev pub bgeu : ℕ → ℕ → ℕ → ℕ
bgeu rs1 rs2 imm = b_type 0x63 0b111 rs1 rs2 imm

abbrev pub sb : ℕ → ℕ → ℕ → ℕ
sb rs1 rs2 imm = s_type 0x23 0b000 rs1 rs2 imm

abbrev pub sh : ℕ → ℕ → ℕ → ℕ
sh rs1 rs2 imm = s_type 0x23 0b001 rs1 rs2 imm

abbrev pub sw : ℕ → ℕ → ℕ → ℕ
sw rs1 rs2 imm = s_type 0x23 0b010 rs1 rs2 imm

abbrev pub slli : ℕ → ℕ → ℕ → ℕ
slli rd rs1 shamt = r_type 0x13 rd 0b001 rs1 shamt 0x00

abbrev pub srli : ℕ → ℕ → ℕ → ℕ
srli rd rs1 shamt = r_type 0x13 rd 0b101 rs1 shamt 0x00

abbrev pub srai : ℕ → ℕ → ℕ → ℕ
srai rd rs1 shamt = r_type 0x13 rd 0b101 rs1 shamt 0x20

abbrev pub add : ℕ → ℕ → ℕ → ℕ
add rd rs1 rs2 = r_type 0x33 rd 0b000 rs1 rs2 0x00

abbrev pub sub : ℕ → ℕ → ℕ → ℕ
sub rd rs1 rs2 = r_type 0x33 rd 0b000 rs1 rs2 0x20

abbrev pub sll : ℕ → ℕ → ℕ → ℕ
sll rd rs1 rs2 = r_type 0x33 rd 0b001 rs1 rs2 0x00

abbrev pub slt : ℕ → ℕ → ℕ → ℕ
slt rd rs1 rs2 = r_type 0x33 rd 0b010 rs1 rs2 0x00

abbrev pub sltu : ℕ → ℕ → ℕ → ℕ
sltu rd rs1 rs2 = r_type 0x33 rd 0b011 rs1 rs2 0x00

abbrev pub xor : ℕ → ℕ → ℕ → ℕ
xor rd rs1 rs2 = r_type 0x33 rd 0b100 rs1 rs2 0x00

abbrev pub srl : ℕ → ℕ → ℕ → ℕ
srl rd rs1 rs2 = r_type 0x33 rd 0b101 rs1 rs2 0x00

abbrev pub sra : ℕ → ℕ → ℕ → ℕ
sra rd rs1 rs2 = r_type 0x33 rd 0b101 rs1 rs2 0x20

abbrev pub or : ℕ → ℕ → ℕ → ℕ
or rd rs1 rs2 = r_type 0x33 rd 0b110 rs1 rs2 0x00

abbrev pub and : ℕ → ℕ → ℕ → ℕ
and rd rs1 rs2 = r_type 0x33 rd 0b111 rs1 rs2 0x00

abbrev pub mul : ℕ → ℕ → ℕ → ℕ
mul rd rs1 rs2 = r_type 0x33 rd 0b000 rs1 rs2 0x01

abbrev pub mulh : ℕ → ℕ → ℕ → ℕ
mulh rd rs1 rs2 = r_type 0x33 rd 0b001 rs1 rs2 0x01

abbrev pub mulhsu : ℕ → ℕ → ℕ → ℕ
mulhsu rd rs1 rs2 = r_type 0x33 rd 0b010 rs1 rs2 0x01

abbrev pub mulhu : ℕ → ℕ → ℕ → ℕ
mulhu rd rs1 rs2 = r_type 0x33 rd 0b011 rs1 rs2 0x01

abbrev pub div : ℕ → ℕ → ℕ → ℕ
div rd rs1 rs2 = r_type 0x33 rd 0b100 rs1 rs2 0x01

abbrev pub divu : ℕ → ℕ → ℕ → ℕ
divu rd rs1 rs2 = r_type 0x33 rd 0b101 rs1 rs2 0x01

abbrev pub rem : ℕ → ℕ → ℕ → ℕ
rem rd rs1 rs2 = r_type 0x33 rd 0b110 rs1 rs2 0x01

abbrev pub remu : ℕ → ℕ → ℕ → ℕ
remu rd rs1 rs2 = r_type 0x33 rd 0b111 rs1 rs2 0x01

abbrev pub csrrw : ℕ → ℕ → ℕ → ℕ
csrrw rd rs1 csr = i_type 0x73 rd 0b001 rs1 csr

abbrev pub fence : ℕ
fence = i_type 0x0F 0 0b000 0 0

abbrev pub ecall : ℕ
ecall = i_type 0x73 0 0b000 0 0

abbrev pub ebreak : ℕ
ebreak = i_type 0x73 0 0b000 0 1

abbrev pub reserved_opcode : ℕ
reserved_opcode = 0

abbrev pub nop : ℕ
nop = addi 0 0 0

-- The bytes of a program, each word little-endian.
unfoldable pub program : List ℕ → List ℕ
program [] = []
program (word ∷ words) = to_le_bytes word ++ program words
