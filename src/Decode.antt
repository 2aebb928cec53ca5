-- ===== src/Decode.antt =====
-- refemu/src/decode.rs: instruction words to a decoded form. A register number is a `u8`, and the
-- immediate an `i32`, kept as its bit pattern. `render` is text for a listing and is not modelled.
pub mod Operation
pub mod Arms
pub mod Bounds
pub mod Compressed
use click_doom.Base.{ℕ, ◌+◌, ◌*◌, Option, none, some, bit_and, bit_or, ◌==◌, if◌then◌else◌}
use click_doom.Word.{◌<<<◌, ◌>>>◌, sext}
use Operation.{Op}
use Arms.{branch_op, load_op, store_op, imm_op, mul_op, reg_op, is_csr}

pub record Instruction : Type 0 where
  pub op : Op
  pub rd : ℕ
  pub rs1 : ℕ
  pub rs2 : ℕ
  pub imm : ℕ

abbrev pub illegal : Instruction
illegal = record { op = Op.illegal; rd = 0; rs1 = 0; rs2 = 0; imm = 0 }

-- The opcodes, in the order of the source.
abbrev pub op_lui : ℕ
op_lui = 0x37

abbrev pub op_auipc : ℕ
op_auipc = 0x17

abbrev pub op_jal : ℕ
op_jal = 0x6F

abbrev pub op_jalr : ℕ
op_jalr = 0x67

abbrev pub op_branch : ℕ
op_branch = 0x63

abbrev pub op_load : ℕ
op_load = 0x03

abbrev pub op_store : ℕ
op_store = 0x23

abbrev pub op_imm : ℕ
op_imm = 0x13

abbrev pub op_reg : ℕ
op_reg = 0x33

abbrev pub op_fence : ℕ
op_fence = 0x0F

abbrev pub op_system : ℕ
op_system = 0x73

-- The scattered immediates.
abbrev pub i_imm : ℕ → ℕ
i_imm word = sext (word >>> 20) 12

abbrev pub s_imm : ℕ → ℕ
s_imm word = sext (bit_or (bit_and (word >>> 25) 0x7F <<< 5) (bit_and (word >>> 7) 0x1F)) 12

abbrev pub b_imm : ℕ → ℕ
b_imm word =
    sext
      (bit_or
        (bit_or (bit_or (bit_and (word >>> 31) 0x1 <<< 12) (bit_and (word >>> 7) 0x1 <<< 11))
          (bit_and (word >>> 25) 0x3F <<< 5))
        (bit_and (word >>> 8) 0xF <<< 1))
      13

abbrev pub u_imm : ℕ → ℕ
u_imm word = bit_and word 0xFFFF_F000

abbrev pub j_imm : ℕ → ℕ
j_imm word =
    sext
      (bit_or
        (bit_or (bit_or (bit_and (word >>> 31) 0x1 <<< 20) (bit_and (word >>> 12) 0xFF <<< 12))
          (bit_and (word >>> 20) 0x1 <<< 11))
        (bit_and (word >>> 21) 0x3FF <<< 1))
      21

-- An arm that may be a hole: `return Instruction::illegal()` where it is.
abbrev pub arm : Option Op → ℕ → ℕ → ℕ → ℕ → Instruction
arm none rd rs1 rs2 imm = illegal
arm (some op) rd rs1 rs2 imm = record { op = op; rd = rd; rs1 = rs1; rs2 = rs2; imm = imm }

-- `match opcode`, over the fields that `decode` reads first.
unfoldable pub decode_opcode : ℕ → ℕ → ℕ → ℕ → ℕ → ℕ → ℕ → Instruction
unfolding branch_op load_op store_op imm_op mul_op reg_op is_csr
decode_opcode opcode rd funct3 rs1 rs2 funct7 word =
    let insn = λ (op : Op) (imm : ℕ). arm (some op) rd rs1 rs2 imm in
    if opcode == op_lui
    then insn Op.lui (u_imm word)
    else if opcode == op_auipc
    then insn Op.auipc (u_imm word)
    else if opcode == op_jal
    then insn Op.jal (j_imm word)
    else if opcode == op_jalr
    then (if funct3 == 0 then insn Op.jalr (i_imm word) else illegal)
    else if opcode == op_branch
    then arm (branch_op funct3) rd rs1 rs2 (b_imm word)
    else if opcode == op_load
    then arm (load_op funct3) rd rs1 rs2 (i_imm word)
    else if opcode == op_store
    then arm (store_op funct3) rd rs1 rs2 (s_imm word)
    else if opcode == op_imm
    then arm (imm_op funct3 funct7) rd rs1 rs2 (i_imm word)
    else if opcode == op_reg
    then (if funct7 == 0x01
        then insn (mul_op funct3) 0
        else arm (reg_op funct3 funct7) rd rs1 rs2 0)
    else if opcode == op_fence
    then insn Op.fence 0
    else if opcode == op_system
    then (if funct3 == 0
        then (if (word >>> 20) == 0
            then insn Op.ecall 0
            else if (word >>> 20) == 1
            then insn Op.ebreak 0
            else illegal)
        else if is_csr funct3
        then insn Op.csr (i_imm word)
        else illegal)
    else illegal

unfoldable pub decode : ℕ → Instruction
unfolding decode_opcode
decode word =
    decode_opcode (bit_and word 0x7F) (bit_and (word >>> 7) 0x1F) (bit_and (word >>> 12) 0x7)
      (bit_and (word >>> 15) 0x1F) (bit_and (word >>> 20) 0x1F) (bit_and (word >>> 25) 0x7F) word
