-- ===== src/Asm/RoundTrip.antt =====
-- `decode` after an encoder of refemu/src/asm.rs: the format with two source registers.
use click_doom.Base.{ℕ, ◌<◌, ◌≡◌, ◌∙◌, ap, arith}
use click_doom.Decode.{decode, decode_opcode}
use click_doom.Decode.Operation.{Op}
use click_doom.Asm
use click_doom.Asm.{r_type, i_type, s_type}
use click_doom.Asm.Words.{Fit, fields, decode-fields, r_type-fields}

-- The instructions with two source registers.
pub data RegForm : Type 0 where
  add sub sll slt sltu xor srl sra or and mul mulh mulhsu mulhu div divu rem remu : RegForm

abbrev pub reg_word : RegForm → ℕ → ℕ → ℕ → ℕ
reg_word RegForm.add = Asm.add
reg_word RegForm.sub = Asm.sub
reg_word RegForm.sll = Asm.sll
reg_word RegForm.slt = Asm.slt
reg_word RegForm.sltu = Asm.sltu
reg_word RegForm.xor = Asm.xor
reg_word RegForm.srl = Asm.srl
reg_word RegForm.sra = Asm.sra
reg_word RegForm.or = Asm.or
reg_word RegForm.and = Asm.and
reg_word RegForm.mul = Asm.mul
reg_word RegForm.mulh = Asm.mulh
reg_word RegForm.mulhsu = Asm.mulhsu
reg_word RegForm.mulhu = Asm.mulhu
reg_word RegForm.div = Asm.div
reg_word RegForm.divu = Asm.divu
reg_word RegForm.rem = Asm.rem
reg_word RegForm.remu = Asm.remu

abbrev pub reg_operation : RegForm → Op
reg_operation RegForm.add = Op.add
reg_operation RegForm.sub = Op.sub
reg_operation RegForm.sll = Op.sll
reg_operation RegForm.slt = Op.slt
reg_operation RegForm.sltu = Op.sltu
reg_operation RegForm.xor = Op.xor
reg_operation RegForm.srl = Op.srl
reg_operation RegForm.sra = Op.sra
reg_operation RegForm.or = Op.or
reg_operation RegForm.and = Op.and
reg_operation RegForm.mul = Op.mul
reg_operation RegForm.mulh = Op.mulh
reg_operation RegForm.mulhsu = Op.mulhsu
reg_operation RegForm.mulhu = Op.mulhu
reg_operation RegForm.div = Op.div
reg_operation RegForm.divu = Op.divu
reg_operation RegForm.rem = Op.rem
reg_operation RegForm.remu = Op.remu

module _ (rd rs1 rs2 : ℕ) (h1 : rd < 32) (h2 : rs1 < 32) (h3 : rs2 < 32) where
  pub decode-r_type :
      (opcode funct3 funct7 : ℕ)
      → opcode < 128
      → funct3 < 8
      → funct7 < 128
      → decode (r_type opcode rd funct3 rs1 rs2 funct7)
        ≡ decode_opcode opcode rd funct3 rs1 rs2 funct7 (fields opcode rd funct3 rs1 rs2 funct7)
  decode-r_type opcode funct3 funct7 g1 g2 g3 =
      ap decode (r_type-fields opcode rd funct3 rs1 rs2 funct7 fit)
      ∙ decode-fields opcode rd funct3 rs1 rs2 funct7 fit
    where
      fit : Fit opcode rd funct3 rs1 rs2 funct7
      fit = omega arith

  reg_fields :
      (funct3 funct7 : ℕ)
      → funct3 < 8
      → funct7 < 128
      → decode (r_type 0x33 rd funct3 rs1 rs2 funct7)
        ≡ decode_opcode 0x33 rd funct3 rs1 rs2 funct7 (fields 0x33 rd funct3 rs1 rs2 funct7)
  reg_fields funct3 funct7 g2 g3 = decode-r_type 0x33 funct3 funct7 (omega arith) g2 g3

  -- Every encoder with two source registers is decoded to its operation and its registers, when
  -- these are below 32.
  pub decode-reg_word :
      (f : RegForm)
      → decode (reg_word f rd rs1 rs2)
        ≡ record { op = reg_operation f; rd = rd; rs1 = rs1; rs2 = rs2; imm = 0 }
  unfolding decode_opcode
  decode-reg_word RegForm.add = reg_fields 0 0 (omega arith) (omega arith)
  decode-reg_word RegForm.sub = reg_fields 0 0x20 (omega arith) (omega arith)
  decode-reg_word RegForm.sll = reg_fields 1 0 (omega arith) (omega arith)
  decode-reg_word RegForm.slt = reg_fields 2 0 (omega arith) (omega arith)
  decode-reg_word RegForm.sltu = reg_fields 3 0 (omega arith) (omega arith)
  decode-reg_word RegForm.xor = reg_fields 4 0 (omega arith) (omega arith)
  decode-reg_word RegForm.srl = reg_fields 5 0 (omega arith) (omega arith)
  decode-reg_word RegForm.sra = reg_fields 5 0x20 (omega arith) (omega arith)
  decode-reg_word RegForm.or = reg_fields 6 0 (omega arith) (omega arith)
  decode-reg_word RegForm.and = reg_fields 7 0 (omega arith) (omega arith)
  decode-reg_word RegForm.mul = reg_fields 0 1 (omega arith) (omega arith)
  decode-reg_word RegForm.mulh = reg_fields 1 1 (omega arith) (omega arith)
  decode-reg_word RegForm.mulhsu = reg_fields 2 1 (omega arith) (omega arith)
  decode-reg_word RegForm.mulhu = reg_fields 3 1 (omega arith) (omega arith)
  decode-reg_word RegForm.div = reg_fields 4 1 (omega arith) (omega arith)
  decode-reg_word RegForm.divu = reg_fields 5 1 (omega arith) (omega arith)
  decode-reg_word RegForm.rem = reg_fields 6 1 (omega arith) (omega arith)
  decode-reg_word RegForm.remu = reg_fields 7 1 (omega arith) (omega arith)
