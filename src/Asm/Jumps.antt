-- ===== src/Asm/Jumps.antt =====
-- `decode` after an encoder of refemu/src/asm.rs: the jump.
use click_doom.Base.{ℕ, ◌+◌, ◌*◌, ◌/◌, ◌%◌, ◌^◌, ◌<◌, ◌≡◌, ◌∙◌, refl, ap, arith, bit_and}
use click_doom.Word.{◌<<<◌, ◌>>>◌, sext}
use click_doom.Word.Bits.{bit_and-mask}
use click_doom.Word.Signed.{sext-21}
use click_doom.Decode.{decode, decode_opcode, j_imm}
use click_doom.Decode.Operation.{Op}
use click_doom.Asm
use click_doom.Asm.{imm_bits, ◌‖◌, b_type, j_type, u_type}
use click_doom.Asm.Words.{fields, join, decode-fields}
use click_doom.Asm.Immediates.{IsSigned}

-- The fields of a jump offset, as they stand in the place of `funct3`, `rs1`, `rs2` and `funct7`.
abbrev pub jump_funct3 : ℕ → ℕ
jump_funct3 imm = imm / 2 ^ 12 % 2 ^ 3

abbrev pub jump_rs1 : ℕ → ℕ
jump_rs1 imm = imm / 2 ^ 15 % 2 ^ 5

abbrev pub jump_rs2 : ℕ → ℕ
jump_rs2 imm = imm / 2 % 2 ^ 4 * 2 + imm / 2 ^ 11 % 2

abbrev pub jump_funct7 : ℕ → ℕ
jump_funct7 imm = imm / 2 ^ 20 % 2 * 2 ^ 6 + imm / 2 ^ 5 % 2 ^ 6

module _ (rd imm : ℕ) (h0 : rd < 32) where
  abbrev jump_fields : ℕ
  jump_fields = fields 0x6F rd (jump_funct3 imm) (jump_rs1 imm) (jump_rs2 imm) (jump_funct7 imm)

  j_type-fields : j_type 0x6F rd imm ≡ jump_fields
  unfolding j_type
  j_type-fields =
      let low : imm_bits imm 21 ≡ imm % 2 ^ 21 = bit_and-mask 21 imm in
      let v = imm_bits imm 21 in
      let a : bit_and (v >>> 20) 1 <<< 31 ≡ imm / 2 ^ 20 % 2 * 2 ^ 31 =
        omega (arith, low, bit_and-mask 1 (v >>> 20)) in
      let b : bit_and (v >>> 1) 0x3FF <<< 21 ≡ imm / 2 % 2 ^ 10 * 2 ^ 21 =
        omega (arith, low, bit_and-mask 10 (v >>> 1)) in
      let c : bit_and (v >>> 11) 1 <<< 20 ≡ imm / 2 ^ 11 % 2 * 2 ^ 20 =
        omega (arith, low, bit_and-mask 1 (v >>> 11)) in
      let d : bit_and (v >>> 12) 0xFF <<< 12 ≡ imm / 2 ^ 12 % 2 ^ 8 * 2 ^ 12 =
        omega (arith, low, bit_and-mask 8 (v >>> 12)) in
      let top = imm / 2 ^ 20 % 2 * 2 ^ 10 + imm / 2 % 2 ^ 10 in
      join 7 (top * 2 ^ 14 + imm / 2 ^ 11 % 2 * 2 ^ 13 + imm / 2 ^ 12 % 2 ^ 8 * 2 ^ 5 + rd)
        (join 12 (top * 2 ^ 9 + imm / 2 ^ 11 % 2 * 2 ^ 8 + imm / 2 ^ 12 % 2 ^ 8) {t = rd * 2 ^ 7}
          (join 20 (top * 2 + imm / 2 ^ 11 % 2)
            (join 21 top (join 31 (imm / 2 ^ 20 % 2) a b refl (omega arith)) c (omega arith)
              (omega arith))
            d (omega arith) (omega arith))
          (omega arith) (omega arith) (omega arith))
        refl (omega arith) (omega arith)
      ∙ omega arith

  j_imm-jump_fields : IsSigned 21 imm → imm % 2 ≡ 0 → j_imm jump_fields ≡ imm
  j_imm-jump_fields h even =
      let w = jump_fields in
      let a : bit_and (w >>> 31) 1 <<< 20 ≡ imm / 2 ^ 20 % 2 * 2 ^ 20 =
        omega (arith, bit_and-mask 1 (w >>> 31)) in
      let d : bit_and (w >>> 12) 0xFF <<< 12 ≡ imm / 2 ^ 12 % 2 ^ 8 * 2 ^ 12 =
        omega (arith, bit_and-mask 8 (w >>> 12)) in
      let c : bit_and (w >>> 20) 1 <<< 11 ≡ imm / 2 ^ 11 % 2 * 2 ^ 11 =
        omega (arith, bit_and-mask 1 (w >>> 20)) in
      let b : bit_and (w >>> 21) 0x3FF <<< 1 ≡ imm / 2 % 2 ^ 10 * 2 =
        omega (arith, bit_and-mask 10 (w >>> 21)) in
      ap (λ x. sext x 21)
        (join 11 (imm / 2 ^ 20 % 2 * 2 ^ 9 + imm / 2 ^ 12 % 2 ^ 8 * 2 + imm / 2 ^ 11 % 2)
            (join 12 (imm / 2 ^ 20 % 2 * 2 ^ 8 + imm / 2 ^ 12 % 2 ^ 8)
              (join 20 (imm / 2 ^ 20 % 2) a d refl (omega arith)) c (omega arith) (omega arith))
            b (omega arith) (omega arith)
          ∙ omega arith)
      ∙ sext-21 (imm % 2 ^ 21) (omega arith)
      ∙ ground arith

  -- The encoder of `jal` is decoded to its destination and its offset, when the destination is below
  -- 32 and the offset is even and that of a 21-bit signed number. The fields of the source
  -- registers hold bits of the offset.
  pub decode-jal :
      IsSigned 21 imm
      → imm % 2 ≡ 0
      → decode (Asm.jal rd imm)
        ≡ record { op = Op.jal; rd = rd; rs1 = jump_rs1 imm; rs2 = jump_rs2 imm; imm = imm }
  unfolding decode_opcode
  decode-jal h even =
      ap decode j_type-fields
      ∙ decode-fields 0x6F rd (jump_funct3 imm) (jump_rs1 imm) (jump_rs2 imm) (jump_funct7 imm)
          (omega arith)
      ∙ ap (λ x. record { op = Op.jal; rd = rd; rs1 = jump_rs1 imm; rs2 = jump_rs2 imm; imm = x })
          (j_imm-jump_fields h even)
