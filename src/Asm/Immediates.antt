-- ===== src/Asm/Immediates.antt =====
-- `decode` after an encoder of refemu/src/asm.rs: the formats with a 12-bit immediate.
use click_doom.Base.{
  ℕ, ◌+◌, ◌-◌, ◌*◌, ◌/◌, ◌%◌, ◌^◌, ◌≤◌, ◌<◌, ◌≡◌, ◌⊎◌, ◌∙◌, refl, ap, arith, bit_and, bit_or,
}
use click_doom.Word.{◌<<<◌, ◌>>>◌, sext}
use click_doom.Word.Bits.{bit_and-mask, bit_or-fields}
use click_doom.Word.Signed.{sext-12}
use click_doom.Decode.{decode, decode_opcode, i_imm, s_imm}
use click_doom.Decode.Operation.{Op}
use click_doom.Asm
use click_doom.Asm.{r_type, i_type, s_type}
use click_doom.Asm.Words.{Fit, fields, decode-fields, i_type-fields, s_type-fields}

-- The pattern of an `i32` that `bits` bits hold, as the encoders are given it.
abbrev pub IsSigned : ℕ → ℕ → Type 0
IsSigned bits imm = (imm < 2 ^ (bits - 1)) ⊎ ((2 ^ 32 ≤ imm + 2 ^ (bits - 1)) × (imm < 2 ^ 32))

pub sext-mod-12 : (imm : ℕ) → IsSigned 12 imm → sext (imm % 2 ^ 12) 12 ≡ imm
sext-mod-12 imm h = sext-12 (imm % 2 ^ 12) (omega arith) ∙ ground arith

-- The instructions with a 12-bit immediate and a destination, and the stores.
pub data ImmForm : Type 0 where
  jalr lb lh lw lbu lhu addi slti sltiu xori ori andi csrrw : ImmForm

pub data StoreForm : Type 0 where
  sb sh sw : StoreForm

abbrev pub imm_word : ImmForm → ℕ → ℕ → ℕ → ℕ
imm_word ImmForm.jalr = Asm.jalr
imm_word ImmForm.lb = Asm.lb
imm_word ImmForm.lh = Asm.lh
imm_word ImmForm.lw = Asm.lw
imm_word ImmForm.lbu = Asm.lbu
imm_word ImmForm.lhu = Asm.lhu
imm_word ImmForm.addi = Asm.addi
imm_word ImmForm.slti = Asm.slti
imm_word ImmForm.sltiu = Asm.sltiu
imm_word ImmForm.xori = Asm.xori
imm_word ImmForm.ori = Asm.ori
imm_word ImmForm.andi = Asm.andi
imm_word ImmForm.csrrw = Asm.csrrw

abbrev pub imm_operation : ImmForm → Op
imm_operation ImmForm.jalr = Op.jalr
imm_operation ImmForm.lb = Op.lb
imm_operation ImmForm.lh = Op.lh
imm_operation ImmForm.lw = Op.lw
imm_operation ImmForm.lbu = Op.lbu
imm_operation ImmForm.lhu = Op.lhu
imm_operation ImmForm.addi = Op.addi
imm_operation ImmForm.slti = Op.slti
imm_operation ImmForm.sltiu = Op.sltiu
imm_operation ImmForm.xori = Op.xori
imm_operation ImmForm.ori = Op.ori
imm_operation ImmForm.andi = Op.andi
imm_operation ImmForm.csrrw = Op.csr

abbrev pub store_word : StoreForm → ℕ → ℕ → ℕ → ℕ
store_word StoreForm.sb = Asm.sb
store_word StoreForm.sh = Asm.sh
store_word StoreForm.sw = Asm.sw

abbrev pub store_operation : StoreForm → Op
store_operation StoreForm.sb = Op.sb
store_operation StoreForm.sh = Op.sh
store_operation StoreForm.sw = Op.sw

module _ (rd rs1 imm : ℕ) (h1 : rd < 32) (h2 : rs1 < 32) (h3 : IsSigned 12 imm) where
  abbrev imm_fields : ℕ → ℕ → ℕ
  imm_fields opcode funct3 = fields opcode rd funct3 rs1 (imm % 2 ^ 5) (imm / 2 ^ 5 % 2 ^ 7)

  i_imm-imm_fields :
      (opcode funct3 : ℕ) → opcode < 128 → funct3 < 8 → i_imm (imm_fields opcode funct3) ≡ imm
  i_imm-imm_fields opcode funct3 g1 g2 = ap (λ x. sext x 12) (omega arith) ∙ sext-mod-12 imm h3

  decode-i_type :
      (opcode funct3 : ℕ) (op : Op)
      → opcode < 128
      → funct3 < 8
      → decode_opcode opcode rd funct3 rs1
          (imm % 2 ^ 5)
          (imm / 2 ^ 5 % 2 ^ 7)
          (imm_fields opcode funct3)
        ≡ record {
          op = op;
          rd = rd;
          rs1 = rs1;
          rs2 = imm % 2 ^ 5;
          imm = i_imm (imm_fields opcode funct3);
        }
      → decode (i_type opcode rd funct3 rs1 imm)
        ≡ record { op = op; rd = rd; rs1 = rs1; rs2 = imm % 2 ^ 5; imm = imm }
  decode-i_type opcode funct3 op g1 g2 e =
      ap decode (i_type-fields opcode rd funct3 rs1 imm fit)
      ∙ decode-fields opcode rd funct3 rs1 (imm % 2 ^ 5) (imm / 2 ^ 5 % 2 ^ 7) fit
      ∙ e
      ∙ ap (λ x. record { op = op; rd = rd; rs1 = rs1; rs2 = imm % 2 ^ 5; imm = x })
          (i_imm-imm_fields opcode funct3 g1 g2)
    where
      fit : Fit opcode rd funct3 rs1 (imm % 2 ^ 5) (imm / 2 ^ 5 % 2 ^ 7)
      fit = omega arith

  -- Every encoder with a destination and a 12-bit immediate is decoded to its operation, its
  -- registers and its immediate, when the registers are below 32 and the immediate is that of a
  -- 12-bit signed number. The field of the second source register is the low bits of the immediate.
  pub decode-imm_word :
      (f : ImmForm)
      → decode (imm_word f rd rs1 imm)
        ≡ record { op = imm_operation f; rd = rd; rs1 = rs1; rs2 = imm % 2 ^ 5; imm = imm }
  unfolding decode_opcode
  decode-imm_word ImmForm.jalr = decode-i_type 0x67 0 Op.jalr (omega arith) (omega arith) refl
  decode-imm_word ImmForm.lb = decode-i_type 0x03 0 Op.lb (omega arith) (omega arith) refl
  decode-imm_word ImmForm.lh = decode-i_type 0x03 1 Op.lh (omega arith) (omega arith) refl
  decode-imm_word ImmForm.lw = decode-i_type 0x03 2 Op.lw (omega arith) (omega arith) refl
  decode-imm_word ImmForm.lbu = decode-i_type 0x03 4 Op.lbu (omega arith) (omega arith) refl
  decode-imm_word ImmForm.lhu = decode-i_type 0x03 5 Op.lhu (omega arith) (omega arith) refl
  decode-imm_word ImmForm.addi = decode-i_type 0x13 0 Op.addi (omega arith) (omega arith) refl
  decode-imm_word ImmForm.slti = decode-i_type 0x13 2 Op.slti (omega arith) (omega arith) refl
  decode-imm_word ImmForm.sltiu = decode-i_type 0x13 3 Op.sltiu (omega arith) (omega arith) refl
  decode-imm_word ImmForm.xori = decode-i_type 0x13 4 Op.xori (omega arith) (omega arith) refl
  decode-imm_word ImmForm.ori = decode-i_type 0x13 6 Op.ori (omega arith) (omega arith) refl
  decode-imm_word ImmForm.andi = decode-i_type 0x13 7 Op.andi (omega arith) (omega arith) refl
  decode-imm_word ImmForm.csrrw = decode-i_type 0x73 1 Op.csr (omega arith) (omega arith) refl

module _ (rs1 rs2 imm : ℕ) (h1 : rs1 < 32) (h2 : rs2 < 32) (h3 : IsSigned 12 imm) where
  abbrev store_fields : ℕ → ℕ
  store_fields funct3 = fields 0x23 (imm % 2 ^ 5) funct3 rs1 rs2 (imm / 2 ^ 5 % 2 ^ 7)

  s_imm-store_fields : (funct3 : ℕ) → funct3 < 8 → s_imm (store_fields funct3) ≡ imm
  s_imm-store_fields funct3 g =
      let w = store_fields funct3 in
      let high : bit_and (w >>> 25) 0x7F <<< 5 ≡ imm / 2 ^ 5 % 2 ^ 7 * 2 ^ 5 =
        omega (arith, bit_and-mask 7 (w >>> 25)) in
      let low : bit_and (w >>> 7) 0x1F ≡ imm % 2 ^ 5 = bit_and-mask 5 (w >>> 7) ∙ omega arith in
      let whole : bit_or (bit_and (w >>> 25) 0x7F <<< 5) (bit_and (w >>> 7) 0x1F) ≡ imm % 2 ^ 12 =
        ap (λ x. bit_or x (bit_and (w >>> 7) 0x1F)) high
        ∙ ap (bit_or (imm / 2 ^ 5 % 2 ^ 7 * 2 ^ 5)) low
        ∙ bit_or-fields 5 (imm / 2 ^ 5 % 2 ^ 7) (imm % 2 ^ 5) (omega arith)
        ∙ omega arith in
      ap (λ x. sext x 12) whole ∙ sext-mod-12 imm h3

  decode-s_type :
      (funct3 : ℕ) (op : Op)
      → funct3 < 8
      → decode_opcode 0x23 (imm % 2 ^ 5) funct3 rs1 rs2 (imm / 2 ^ 5 % 2 ^ 7) (store_fields funct3)
        ≡ record {
          op = op;
          rd = imm % 2 ^ 5;
          rs1 = rs1;
          rs2 = rs2;
          imm = s_imm (store_fields funct3);
        }
      → decode (s_type 0x23 funct3 rs1 rs2 imm)
        ≡ record { op = op; rd = imm % 2 ^ 5; rs1 = rs1; rs2 = rs2; imm = imm }
  decode-s_type funct3 op g e =
      ap decode (s_type-fields 0x23 funct3 rs1 rs2 imm fit)
      ∙ decode-fields 0x23 (imm % 2 ^ 5) funct3 rs1 rs2 (imm / 2 ^ 5 % 2 ^ 7) fit
      ∙ e
      ∙ ap (λ x. record { op = op; rd = imm % 2 ^ 5; rs1 = rs1; rs2 = rs2; imm = x })
          (s_imm-store_fields funct3 g)
    where
      fit : Fit 0x23 (imm % 2 ^ 5) funct3 rs1 rs2 (imm / 2 ^ 5 % 2 ^ 7)
      fit = omega arith

  -- Every store encoder is decoded to its operation, its registers and its offset, when the
  -- registers are below 32 and the offset is that of a 12-bit signed number. The field of the
  -- destination is the low bits of the offset.
  pub decode-store_word :
      (f : StoreForm)
      → decode (store_word f rs1 rs2 imm)
        ≡ record { op = store_operation f; rd = imm % 2 ^ 5; rs1 = rs1; rs2 = rs2; imm = imm }
  unfolding decode_opcode
  decode-store_word StoreForm.sb = decode-s_type 0 Op.sb (omega arith) refl
  decode-store_word StoreForm.sh = decode-s_type 1 Op.sh (omega arith) refl
  decode-store_word StoreForm.sw = decode-s_type 2 Op.sw (omega arith) refl
