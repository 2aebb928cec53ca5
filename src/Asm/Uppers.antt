-- ===== src/Asm/Uppers.antt =====
-- `decode` after an encoder of refemu/src/asm.rs: the upper immediates and the shifts.
use click_doom.Base.{ℕ, ◌+◌, ◌-◌, ◌*◌, ◌/◌, ◌%◌, ◌^◌, ◌<◌, ◌≡◌, ◌∙◌, refl, sym, ap, arith}
use click_doom.Word.Bits.{bit_and-mask, bit_and-shifted}
use click_doom.Decode.{decode, decode_opcode, i_imm, u_imm}
use click_doom.Decode.Operation.{Op}
use click_doom.Asm
use click_doom.Asm.{imm_bits, ◌‖◌, b_type, j_type, u_type}
use click_doom.Asm.Words.{fields, decode-fields, u_type-sum}
use click_doom.Asm.RoundTrip.{decode-r_type}

-- The upper immediates and the shifts by an immediate.
pub data UpperForm : Type 0 where
  lui auipc : UpperForm

abbrev pub upper_word : UpperForm → ℕ → ℕ → ℕ
upper_word UpperForm.lui = Asm.lui
upper_word UpperForm.auipc = Asm.auipc

abbrev pub upper_operation : UpperForm → Op
upper_operation UpperForm.lui = Op.lui
upper_operation UpperForm.auipc = Op.auipc

pub data ShiftForm : Type 0 where
  slli srli srai : ShiftForm

abbrev pub shift_word : ShiftForm → ℕ → ℕ → ℕ → ℕ
shift_word ShiftForm.slli = Asm.slli
shift_word ShiftForm.srli = Asm.srli
shift_word ShiftForm.srai = Asm.srai

abbrev pub shift_operation : ShiftForm → Op
shift_operation ShiftForm.slli = Op.slli
shift_operation ShiftForm.srli = Op.srli
shift_operation ShiftForm.srai = Op.srai

module _ (rd imm20 : ℕ) (h1 : rd < 32) (h2 : imm20 < 2 ^ 20) where
  abbrev upper_sum : ℕ → ℕ
  upper_sum opcode = imm20 % 2 ^ 20 * 2 ^ 12 + rd * 2 ^ 7 + opcode

  u_imm-upper_sum : (opcode : ℕ) → opcode < 128 → u_imm (upper_sum opcode) ≡ imm20 * 2 ^ 12
  u_imm-upper_sum opcode h =
      bit_and-shifted 12 (upper_sum opcode) (2 ^ 20 - 1)
      ∙ ap (λ x. x * 2 ^ 12) (bit_and-mask 20 (upper_sum opcode / 2 ^ 12) ∙ omega arith)

  decode-u_type :
      (opcode : ℕ) (op : Op)
      → opcode < 128
      → ((funct3 rs1 rs2 funct7 : ℕ)
          → decode_opcode opcode rd funct3 rs1 rs2 funct7 (upper_sum opcode)
            ≡ record { op = op; rd = rd; rs1 = rs1; rs2 = rs2; imm = u_imm (upper_sum opcode) })
      → decode (u_type opcode rd imm20) ≡ record {
        op = op;
        rd = rd;
        rs1 = imm20 / 2 ^ 3 % 2 ^ 5;
        rs2 = imm20 / 2 ^ 8 % 2 ^ 5;
        imm = imm20 * 2 ^ 12;
      }
  decode-u_type opcode op h e =
      ap decode (u_type-sum opcode rd imm20 h h1 ∙ split)
      ∙ decode-fields opcode rd (imm20 % 2 ^ 3) (imm20 / 2 ^ 3 % 2 ^ 5) (imm20 / 2 ^ 8 % 2 ^ 5)
          (imm20 / 2 ^ 13) (omega arith)
      ∙ ap
          (decode_opcode opcode rd (imm20 % 2 ^ 3) (imm20 / 2 ^ 3 % 2 ^ 5) (imm20 / 2 ^ 8 % 2 ^ 5)
            (imm20 / 2 ^ 13))
          (sym split)
      ∙ e (imm20 % 2 ^ 3) (imm20 / 2 ^ 3 % 2 ^ 5) (imm20 / 2 ^ 8 % 2 ^ 5) (imm20 / 2 ^ 13)
      ∙ ap
          (λ x. record {
            op = op;
            rd = rd;
            rs1 = imm20 / 2 ^ 3 % 2 ^ 5;
            rs2 = imm20 / 2 ^ 8 % 2 ^ 5;
            imm = x;
          })
          (u_imm-upper_sum opcode h)
    where
      split :
          upper_sum opcode
          ≡ fields opcode rd
              (imm20 % 2 ^ 3)
              (imm20 / 2 ^ 3 % 2 ^ 5)
              (imm20 / 2 ^ 8 % 2 ^ 5)
              (imm20 / 2 ^ 13)
      split = omega arith

  -- The encoders of `lui` and `auipc` are decoded to their operation, their destination and the
  -- immediate in the upper 20 bits, when the destination is below 32 and the immediate fits. The
  -- fields of the source registers hold bits of the immediate.
  pub decode-upper_word :
      (f : UpperForm)
      → decode (upper_word f rd imm20) ≡ record {
        op = upper_operation f;
        rd = rd;
        rs1 = imm20 / 2 ^ 3 % 2 ^ 5;
        rs2 = imm20 / 2 ^ 8 % 2 ^ 5;
        imm = imm20 * 2 ^ 12;
      }
  unfolding decode_opcode
  decode-upper_word UpperForm.lui = decode-u_type 0x37 Op.lui (omega arith) (λ f3 r1 r2 f7. refl)
  decode-upper_word UpperForm.auipc =
      decode-u_type 0x17 Op.auipc (omega arith) (λ f3 r1 r2 f7. refl)

-- The shift encoders are decoded to their operation, their registers and an immediate whose low five
-- bits, the ones that the interpreter reads, are the amount, when the registers and the amount are
-- below 32.
pub decode-shift_word :
    (f : ShiftForm) (rd rs1 shamt : ℕ)
    → rd < 32
    → rs1 < 32
    → shamt < 32
    → (imm : ℕ) × (imm % 32 ≡ shamt)
      × (decode (shift_word f rd rs1 shamt)
          ≡ record { op = shift_operation f; rd = rd; rs1 = rs1; rs2 = shamt; imm = imm })
unfolding decode_opcode
decode-shift_word ShiftForm.slli rd rs1 shamt h1 h2 h3 = (
  i_imm _,
  amount,
  decode-r_type rd rs1 shamt h1 h2 h3 0x13 1 0 (omega arith) (omega arith) (omega arith),
)
  where
    amount : i_imm (fields 0x13 rd 1 rs1 shamt 0) % 32 ≡ shamt
    amount = ground arith
decode-shift_word ShiftForm.srli rd rs1 shamt h1 h2 h3 = (
  i_imm _,
  amount,
  decode-r_type rd rs1 shamt h1 h2 h3 0x13 5 0 (omega arith) (omega arith) (omega arith),
)
  where
    amount : i_imm (fields 0x13 rd 5 rs1 shamt 0) % 32 ≡ shamt
    amount = ground arith
decode-shift_word ShiftForm.srai rd rs1 shamt h1 h2 h3 = (
  i_imm _,
  amount,
  decode-r_type rd rs1 shamt h1 h2 h3 0x13 5 0x20 (omega arith) (omega arith) (omega arith),
)
  where
    amount : i_imm (fields 0x13 rd 5 rs1 shamt 0x20) % 32 ≡ shamt
    amount = ground arith
