-- ===== src/Asm/Branches.antt =====
-- `decode` after an encoder of refemu/src/asm.rs: the branches.
use click_doom.Base.{ℕ, ◌+◌, ◌*◌, ◌/◌, ◌%◌, ◌^◌, ◌<◌, ◌≡◌, ◌∙◌, refl, ap, arith, bit_and}
use click_doom.Word.{◌<<<◌, ◌>>>◌, sext}
use click_doom.Word.Bits.{bit_and-mask}
use click_doom.Word.Signed.{sext-13}
use click_doom.Decode.{decode, decode_opcode, b_imm}
use click_doom.Decode.Operation.{Op}
use click_doom.Asm
use click_doom.Asm.{imm_bits, ◌‖◌, b_type, j_type, u_type}
use click_doom.Asm.Words.{fields, join, decode-fields}
use click_doom.Asm.Immediates.{IsSigned}

pub data BranchForm : Type 0 where
  beq bne blt bge bltu bgeu : BranchForm

abbrev pub branch_word : BranchForm → ℕ → ℕ → ℕ → ℕ
branch_word BranchForm.beq = Asm.beq
branch_word BranchForm.bne = Asm.bne
branch_word BranchForm.blt = Asm.blt
branch_word BranchForm.bge = Asm.bge
branch_word BranchForm.bltu = Asm.bltu
branch_word BranchForm.bgeu = Asm.bgeu

abbrev pub branch_operation : BranchForm → Op
branch_operation BranchForm.beq = Op.beq
branch_operation BranchForm.bne = Op.bne
branch_operation BranchForm.blt = Op.blt
branch_operation BranchForm.bge = Op.bge
branch_operation BranchForm.bltu = Op.bltu
branch_operation BranchForm.bgeu = Op.bgeu

-- The fields of a branch offset, as they stand in the place of the destination and of `funct7`.
abbrev pub branch_rd : ℕ → ℕ
branch_rd imm = imm / 2 % 2 ^ 4 * 2 + imm / 2 ^ 11 % 2

abbrev pub branch_funct7 : ℕ → ℕ
branch_funct7 imm = imm / 2 ^ 12 % 2 * 2 ^ 6 + imm / 2 ^ 5 % 2 ^ 6

module _ (funct3 rs1 rs2 imm : ℕ) (h0 : funct3 < 8) (h1 : rs1 < 32) (h2 : rs2 < 32) where
  abbrev branch_fields : ℕ
  branch_fields = fields 0x63 (branch_rd imm) funct3 rs1 rs2 (branch_funct7 imm)

  b_type-fields : b_type 0x63 funct3 rs1 rs2 imm ≡ branch_fields
  unfolding b_type
  b_type-fields =
      let low : imm_bits imm 13 ≡ imm % 2 ^ 13 = bit_and-mask 13 imm in
      let v = imm_bits imm 13 in
      let a : bit_and (v >>> 12) 1 <<< 31 ≡ imm / 2 ^ 12 % 2 * 2 ^ 31 =
        omega (arith, low, bit_and-mask 1 (v >>> 12)) in
      let b : bit_and (v >>> 5) 0x3F <<< 25 ≡ imm / 2 ^ 5 % 2 ^ 6 * 2 ^ 25 =
        omega (arith, low, bit_and-mask 6 (v >>> 5)) in
      let c : bit_and (v >>> 1) 0xF <<< 8 ≡ imm / 2 % 2 ^ 4 * 2 ^ 8 =
        omega (arith, low, bit_and-mask 4 (v >>> 1)) in
      let d : bit_and (v >>> 11) 1 <<< 7 ≡ imm / 2 ^ 11 % 2 * 2 ^ 7 =
        omega (arith, low, bit_and-mask 1 (v >>> 11)) in
      let top = branch_funct7 imm in
      join 7 (top * 2 ^ 18 + rs2 * 2 ^ 13 + rs1 * 2 ^ 8 + funct3 * 2 ^ 5 + branch_rd imm)
        (join 8 (top * 2 ^ 17 + rs2 * 2 ^ 12 + rs1 * 2 ^ 7 + funct3 * 2 ^ 4 + imm / 2 % 2 ^ 4)
          (join 12 (top * 2 ^ 13 + rs2 * 2 ^ 8 + rs1 * 2 ^ 3 + funct3)
            (join 15 (top * 2 ^ 10 + rs2 * 2 ^ 5 + rs1) {t = funct3 * 2 ^ 12}
              (join 20 (top * 2 ^ 5 + rs2) {t = rs1 * 2 ^ 15}
                (join 25 top {t = rs2 * 2 ^ 20} (join 31 (imm / 2 ^ 12 % 2) a b refl (omega arith))
                  (omega arith) (omega arith) (omega arith))
                (omega arith) (omega arith) (omega arith))
              (omega arith) (omega arith) (omega arith))
            c (omega arith) (omega arith))
          d (omega arith) (omega arith))
        refl (omega arith) (omega arith)
      ∙ omega arith

  b_imm-branch_fields : IsSigned 13 imm → imm % 2 ≡ 0 → b_imm branch_fields ≡ imm
  b_imm-branch_fields h even =
      let w = branch_fields in
      let a : bit_and (w >>> 31) 1 <<< 12 ≡ imm / 2 ^ 12 % 2 * 2 ^ 12 =
        omega (arith, bit_and-mask 1 (w >>> 31)) in
      let d : bit_and (w >>> 7) 1 <<< 11 ≡ imm / 2 ^ 11 % 2 * 2 ^ 11 =
        omega (arith, bit_and-mask 1 (w >>> 7)) in
      let b : bit_and (w >>> 25) 0x3F <<< 5 ≡ imm / 2 ^ 5 % 2 ^ 6 * 2 ^ 5 =
        omega (arith, bit_and-mask 6 (w >>> 25)) in
      let c : bit_and (w >>> 8) 0xF <<< 1 ≡ imm / 2 % 2 ^ 4 * 2 =
        omega (arith, bit_and-mask 4 (w >>> 8)) in
      ap (λ x. sext x 13)
        (join 5 (imm / 2 ^ 12 % 2 * 2 ^ 7 + imm / 2 ^ 11 % 2 * 2 ^ 6 + imm / 2 ^ 5 % 2 ^ 6)
            (join 11 (imm / 2 ^ 12 % 2 * 2 + imm / 2 ^ 11 % 2)
              (join 12 (imm / 2 ^ 12 % 2) a d refl (omega arith)) b (omega arith) (omega arith))
            c (omega arith) (omega arith)
          ∙ omega arith)
      ∙ sext-13 (imm % 2 ^ 13) (omega arith)
      ∙ ground arith

  decode-b_type :
      (op : Op)
      → IsSigned 13 imm
      → imm % 2 ≡ 0
      → decode_opcode 0x63 (branch_rd imm) funct3 rs1 rs2 (branch_funct7 imm) branch_fields
        ≡ record { op = op; rd = branch_rd imm; rs1 = rs1; rs2 = rs2; imm = b_imm branch_fields }
      → decode (b_type 0x63 funct3 rs1 rs2 imm)
        ≡ record { op = op; rd = branch_rd imm; rs1 = rs1; rs2 = rs2; imm = imm }
  decode-b_type op h even e =
      ap decode b_type-fields
      ∙ decode-fields 0x63 (branch_rd imm) funct3 rs1 rs2 (branch_funct7 imm) (omega arith)
      ∙ e
      ∙ ap (λ x. record { op = op; rd = branch_rd imm; rs1 = rs1; rs2 = rs2; imm = x })
          (b_imm-branch_fields h even)

-- Every branch encoder is decoded to its operation, its registers and its offset, when the registers
-- are below 32 and the offset is even and that of a 13-bit signed number. The field of the
-- destination holds bits of the offset.
pub decode-branch_word :
    (f : BranchForm) (rs1 rs2 imm : ℕ)
    → rs1 < 32
    → rs2 < 32
    → IsSigned 13 imm
    → imm % 2 ≡ 0
    → decode (branch_word f rs1 rs2 imm)
      ≡ record { op = branch_operation f; rd = branch_rd imm; rs1 = rs1; rs2 = rs2; imm = imm }
unfolding decode_opcode
decode-branch_word BranchForm.beq rs1 rs2 imm h1 h2 h even =
    decode-b_type 0 rs1 rs2 imm (omega arith) h1 h2 Op.beq h even refl
decode-branch_word BranchForm.bne rs1 rs2 imm h1 h2 h even =
    decode-b_type 1 rs1 rs2 imm (omega arith) h1 h2 Op.bne h even refl
decode-branch_word BranchForm.blt rs1 rs2 imm h1 h2 h even =
    decode-b_type 4 rs1 rs2 imm (omega arith) h1 h2 Op.blt h even refl
decode-branch_word BranchForm.bge rs1 rs2 imm h1 h2 h even =
    decode-b_type 5 rs1 rs2 imm (omega arith) h1 h2 Op.bge h even refl
decode-branch_word BranchForm.bltu rs1 rs2 imm h1 h2 h even =
    decode-b_type 6 rs1 rs2 imm (omega arith) h1 h2 Op.bltu h even refl
decode-branch_word BranchForm.bgeu rs1 rs2 imm h1 h2 h even =
    decode-b_type 7 rs1 rs2 imm (omega arith) h1 h2 Op.bgeu h even refl
