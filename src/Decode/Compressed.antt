-- ===== src/Decode/Compressed.antt =====
-- Words that are not 32-bit instructions: the low two bits of those are set.
use click_doom.Base.{ℕ, ◌%◌, ◌≡◌, ◌≢◌, refl, false, arith, bit_and, ◌==◌}
use click_doom.Word.Bits.{bit_and-mask}
use click_doom.Decode.{
  illegal, decode, decode_opcode, op_lui, op_auipc, op_jal, op_jalr, op_branch, op_load, op_store,
  op_imm, op_reg, op_fence, op_system,
}

-- Every word whose low two bits are not both set is decoded as illegal.
pub decode-illegal : (word : ℕ) → word % 4 ≢ 3 → decode word ≡ illegal
unfolding decode decode_opcode
decode-illegal word h =
    rw
      (
        other op_lui refl,
        other op_auipc refl,
        other op_jal refl,
        other op_jalr refl,
        other op_branch refl,
        other op_load refl,
        other op_store refl,
        other op_imm refl,
        other op_reg refl,
        other op_fence refl,
        other op_system refl,
      )
      refl
  where
    opcode : bit_and word 0x7F ≡ word % 128
    opcode = bit_and-mask 7 word

    other : (c : ℕ) → c % 4 ≡ 3 → (bit_and word 0x7F == c) ≡ false
    other c k =
        let apart : bit_and word 0x7F ≢ c = λ e. h (omega (arith, e, opcode, k)) in
        ground (arith, apart)
