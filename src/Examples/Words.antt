-- ===== src/Examples/Words.antt =====
-- Instruction words.
use click_doom.Base.{ℕ, ◌-◌, ◌*◌, ◌/◌, ◌%◌, ◌^◌, ◌≡◌, inr, arith}
use click_doom.Decode.Compressed.{decode-illegal}
use click_doom.Decode.{illegal, decode}
use click_doom.Decode.Operation.{Op}
use click_doom.Decode.Bounds.{IsInRange, decode-IsInRange}
use click_doom.Asm
use click_doom.Asm.RoundTrip.{RegForm, reg_word, decode-reg_word}
use click_doom.Asm.Immediates.{
  ImmForm, StoreForm, imm_word, store_word, decode-imm_word, decode-store_word,
}
use click_doom.Asm.Branches.{BranchForm, branch_word, branch_rd, decode-branch_word}
use click_doom.Asm.Jumps.{jump_rs1, jump_rs2, decode-jal}
use click_doom.Asm.Uppers.{
  UpperForm, ShiftForm, upper_word, shift_word, decode-upper_word, decode-shift_word,
}

decode-reg_word_example :
    decode (reg_word RegForm.sub 1 2 31)
    ≡ record { op = Op.sub; rd = 1; rs1 = 2; rs2 = 31; imm = 0 }
decode-reg_word_example =
    decode-reg_word 1 2 31 (omega arith) (omega arith) (omega arith) RegForm.sub

-- An offset of -4.
abbrev minus_four : ℕ
minus_four = 2 ^ 32 - 4

decode-imm_word_example :
    decode (imm_word ImmForm.lw 1 2 minus_four)
    ≡ record { op = Op.lw; rd = 1; rs1 = 2; rs2 = minus_four % 2 ^ 5; imm = minus_four }
decode-imm_word_example =
    decode-imm_word 1 2 minus_four (omega arith) (omega arith) (inr (omega arith, omega arith))
      ImmForm.lw

decode-store_word_example :
    decode (store_word StoreForm.sh 2 3 minus_four)
    ≡ record { op = Op.sh; rd = minus_four % 2 ^ 5; rs1 = 2; rs2 = 3; imm = minus_four }
decode-store_word_example =
    decode-store_word 2 3 minus_four (omega arith) (omega arith) (inr (omega arith, omega arith))
      StoreForm.sh

decode-branch_word_example :
    decode (branch_word BranchForm.bltu 2 3 minus_four)
    ≡ record { op = Op.bltu; rd = branch_rd minus_four; rs1 = 2; rs2 = 3; imm = minus_four }
decode-branch_word_example =
    decode-branch_word BranchForm.bltu 2 3 minus_four (omega arith) (omega arith)
      (inr (omega arith, omega arith)) (omega arith)

decode-jal_example : decode (Asm.jal 1 minus_four) ≡ record {
  op = Op.jal;
  rd = 1;
  rs1 = jump_rs1 minus_four;
  rs2 = jump_rs2 minus_four;
  imm = minus_four;
}
decode-jal_example =
    decode-jal 1 minus_four (omega arith) (inr (omega arith, omega arith)) (omega arith)

decode-upper_word_example : decode (upper_word UpperForm.lui 3 0x80000) ≡ record {
  op = Op.lui;
  rd = 3;
  rs1 = 0x80000 / 2 ^ 3 % 2 ^ 5;
  rs2 = 0x80000 / 2 ^ 8 % 2 ^ 5;
  imm = 0x80000 * 2 ^ 12;
}
decode-upper_word_example = decode-upper_word 3 0x80000 (omega arith) (omega arith) UpperForm.lui

decode-shift_word_example :
    (imm : ℕ) × (imm % 32 ≡ 31)
    × (decode (shift_word ShiftForm.srai 1 2 31)
        ≡ record { op = Op.srai; rd = 1; rs1 = 2; rs2 = 31; imm = imm })
decode-shift_word_example =
    decode-shift_word ShiftForm.srai 1 2 31 (omega arith) (omega arith) (omega arith)

decode-IsInRange_example : IsInRange (decode 0xFFFF_FFFF)
decode-IsInRange_example = decode-IsInRange 0xFFFF_FFFF (omega arith)

decode-illegal_example : decode 0x4501 ≡ illegal
decode-illegal_example = decode-illegal 0x4501 (λ h. cc h)
