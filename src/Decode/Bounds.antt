-- ===== src/Decode/Bounds.antt =====
-- The fields of a decoded instruction are in range, whatever the word.
use click_doom.Base.{
  ℕ, ◌^◌, ◌<◌, Option, none, some, arith, bit_and, if_both, ◌==◌, Bool, if◌then◌else◌,
}
use click_doom.Word.{◌>>>◌}
use click_doom.Word.Bits.{bit_and-mask, bit_and-lt}
use click_doom.Word.Signed.{sext-lt}
use click_doom.Decode.{
  Instruction, illegal, arm, decode, decode_opcode, op_lui, op_auipc, op_jal, op_jalr, op_branch,
  op_load, op_store, op_imm, op_reg, op_fence, op_system, i_imm, s_imm, b_imm, j_imm, u_imm,
}
use click_doom.Decode.Operation.{Op}
use click_doom.Decode.Arms.{branch_op, load_op, store_op, imm_op, mul_op, reg_op, is_csr}

-- Register numbers are five bits, and the immediate is the pattern of an `i32`.
pub record IsInRange (i : Instruction) : Type 0 where
  pub rd : i.rd < 32
  pub rs1 : i.rs1 < 32
  pub rs2 : i.rs2 < 32
  pub imm : i.imm < 2 ^ 32

illegal-IsInRange : IsInRange illegal
illegal-IsInRange = omega arith

module _ (rd rs1 rs2 : ℕ) (hd : rd < 32) (h1 : rs1 < 32) (h2 : rs2 < 32) where
  arm-IsInRange : (o : Option Op) (imm : ℕ) → imm < 2 ^ 32 → IsInRange (arm o rd rs1 rs2 imm)
  arm-IsInRange none imm h = illegal-IsInRange
  arm-IsInRange (some op) imm h = record { rd = hd; rs1 = h1; rs2 = h2; imm = h }

  decode_opcode-IsInRange :
      (opcode funct3 funct7 word : ℕ)
      → word < 2 ^ 32
      → IsInRange (decode_opcode opcode rd funct3 rs1 rs2 funct7 word)
  unfolding decode_opcode
  decode_opcode-IsInRange opcode funct3 funct7 word h =
      step (opcode == op_lui) (one Op.lui (u_imm word) (bit_and-lt 32 word _ h)) (
        step (opcode == op_auipc) (one Op.auipc (u_imm word) (bit_and-lt 32 word _ h)) (
          step (opcode == op_jal) (one Op.jal (j_imm word) (sext-lt _ 21)) (
            step (opcode == op_jalr)
              (step (funct3 == 0) (one Op.jalr (i_imm word) (sext-lt _ 12)) illegal-IsInRange)
              (step (opcode == op_branch)
                (arm-IsInRange (branch_op funct3) (b_imm word) (sext-lt _ 13))
                (step (opcode == op_load)
                  (arm-IsInRange (load_op funct3) (i_imm word) (sext-lt _ 12))
                  (step (opcode == op_store)
                    (arm-IsInRange (store_op funct3) (s_imm word) (sext-lt _ 12))
                    (step (opcode == op_imm)
                      (arm-IsInRange (imm_op funct3 funct7) (i_imm word) (sext-lt _ 12))
                      (step (opcode == op_reg)
                        (step (funct7 == 0x01) (one (mul_op funct3) 0 zero-fits)
                          (arm-IsInRange (reg_op funct3 funct7) 0 zero-fits))
                        (step (opcode == op_fence) (one Op.fence 0 zero-fits) (
                          step (opcode == op_system)
                            (step (funct3 == 0)
                              (step ((word >>> 20) == 0) (one Op.ecall 0 zero-fits) (
                                step ((word >>> 20) == 1) (one Op.ebreak 0 zero-fits)
                                  illegal-IsInRange))
                              (step (is_csr funct3) (one Op.csr (i_imm word) (sext-lt _ 12))
                                illegal-IsInRange))
                            illegal-IsInRange))))))))))
    where
      zero-fits : 0 < 2 ^ 32
      zero-fits = omega arith

      step :
          (b : Bool) {x y : Instruction}
          → IsInRange x
          → IsInRange y
          → IsInRange (if b then x else y)
      step b hx hy = if_both IsInRange b (λ _. hx) (λ _. hy)

      one : (op : Op) (imm : ℕ) → imm < 2 ^ 32 → IsInRange (arm (some op) rd rs1 rs2 imm)
      one op imm k = arm-IsInRange (some op) imm k

field-lt : (a : ℕ) → bit_and a 0x1F < 32
field-lt a = omega (arith, bit_and-mask 5 a)

-- Every `u32` word decodes to register numbers below 32 and an immediate of 32 bits.
pub decode-IsInRange : (word : ℕ) → word < 2 ^ 32 → IsInRange (decode word)
unfolding decode
decode-IsInRange word h =
    decode_opcode-IsInRange _ _ _ (field-lt (word >>> 7)) (field-lt (word >>> 15))
      (field-lt (word >>> 20)) (bit_and word 0x7F) (bit_and (word >>> 12) 0x7)
      (bit_and (word >>> 25) 0x7F) word h
