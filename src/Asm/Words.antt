-- ===== src/Asm/Words.antt =====
-- An encoded word has the fields of its format.
use click_doom.Base.{
  ℕ, ◌+◌, ◌*◌, ◌/◌, ◌%◌, ◌^◌, ◌<◌, ◌≡◌, ◌∙◌, refl, sym, ap, arith, bit_and, bit_or,
}
use click_doom.Word.{◌<<<◌, ◌>>>◌}
use click_doom.Word.Bits.{bit_and-mask, bit_or-fields}
use click_doom.Decode.{decode, decode_opcode}
use click_doom.Asm.{imm_bits, ◌‖◌, r_type, i_type, s_type, u_type}

-- The six fields of a word.
abbrev pub fields : ℕ → ℕ → ℕ → ℕ → ℕ → ℕ → ℕ
fields opcode rd funct3 rs1 rs2 funct7 =
    funct7 * 2 ^ 25 + rs2 * 2 ^ 20 + rs1 * 2 ^ 15 + funct3 * 2 ^ 12 + rd * 2 ^ 7 + opcode

pub record Fit (opcode rd funct3 rs1 rs2 funct7 : ℕ) : Type 0 where
  pub opcode_fits : opcode < 2 ^ 7
  pub rd_fits : rd < 2 ^ 5
  pub funct3_fits : funct3 < 2 ^ 3
  pub rs1_fits : rs1 < 2 ^ 5
  pub rs2_fits : rs2 < 2 ^ 5
  pub funct7_fits : funct7 < 2 ^ 7

-- The next field of an `|` chain: it fits below what is there.
pub join : (k q : ℕ) {x r s t : ℕ} → x ≡ s → r ≡ t → s ≡ q * 2 ^ k → t < 2 ^ k → x ‖ r ≡ s + t
join k q {x} {r} {s} {t} hx hr hs h =
    ap (λ a. bit_or a r) (hx ∙ hs)
    ∙ ap (λ b. bit_or (q * 2 ^ k) b) hr
    ∙ bit_or-fields k q t h
    ∙ ap (λ a. a + t) (sym hs)

-- The four fields that most formats share, below the 12 bits of `high`.
module _ (opcode rd funct3 rs1 high : ℕ) (h0 : opcode < 2 ^ 7) (h1 : rd < 2 ^ 5)
    (h2 : funct3 < 2 ^ 3) (h3 : rs1 < 2 ^ 5) where
  pub or_low :
      {x x3 x2 x1 x0 : ℕ}
      → x ≡ high * 2 ^ 20
      → x3 ≡ rs1 * 2 ^ 15
      → x2 ≡ funct3 * 2 ^ 12
      → x1 ≡ rd * 2 ^ 7
      → x0 ≡ opcode
      → x ‖ x3 ‖ x2 ‖ x1 ‖ x0 ≡ high * 2 ^ 20 + rs1 * 2 ^ 15 + funct3 * 2 ^ 12 + rd * 2 ^ 7 + opcode
  or_low e e3 e2 e1 e0 =
      join 7 (high * 2 ^ 13 + rs1 * 2 ^ 8 + funct3 * 2 ^ 5 + rd)
        (join 12 (high * 2 ^ 8 + rs1 * 2 ^ 3 + funct3)
          (join 15 (high * 2 ^ 5 + rs1) (join 20 high e e3 refl (omega arith)) e2 (omega arith)
            (omega arith))
          e1 (omega arith) (omega arith))
        e0 (omega arith) h0

module _ (opcode rd funct3 rs1 rs2 funct7 : ℕ) (fit : Fit opcode rd funct3 rs1 rs2 funct7) where
  -- What `decode` reads from such a word.
  pub decode-fields :
      decode (fields opcode rd funct3 rs1 rs2 funct7)
      ≡ decode_opcode opcode rd funct3 rs1 rs2 funct7 (fields opcode rd funct3 rs1 rs2 funct7)
  unfolding decode
  decode-fields =
      let w = fields opcode rd funct3 rs1 rs2 funct7 in
      let e0 : bit_and w 0x7F ≡ opcode = bit_and-mask 7 w ∙ omega (arith, fit) in
      let e1 : bit_and (w >>> 7) 0x1F ≡ rd = bit_and-mask 5 (w >>> 7) ∙ omega (arith, fit) in
      let e2 : bit_and (w >>> 12) 0x7 ≡ funct3 = bit_and-mask 3 (w >>> 12) ∙ omega (arith, fit) in
      let e3 : bit_and (w >>> 15) 0x1F ≡ rs1 = bit_and-mask 5 (w >>> 15) ∙ omega (arith, fit) in
      let e4 : bit_and (w >>> 20) 0x1F ≡ rs2 = bit_and-mask 5 (w >>> 20) ∙ omega (arith, fit) in
      let e5 : bit_and (w >>> 25) 0x7F ≡ funct7 = bit_and-mask 7 (w >>> 25) ∙ omega (arith, fit) in
      rw (e0, e1, e2, e3, e4, e5) refl

  pub r_type-fields :
      r_type opcode rd funct3 rs1 rs2 funct7 ≡ fields opcode rd funct3 rs1 rs2 funct7
  unfolding r_type
  r_type-fields =
      let top : (funct7 <<< 25 ‖ rs2 <<< 20) ≡ (funct7 * 2 ^ 5 + rs2) * 2 ^ 20 =
        join 25 funct7 {t = rs2 * 2 ^ 20} (omega (arith, fit)) (omega (arith, fit)) refl
          (omega (arith, fit))
        ∙ omega arith in
      or_low opcode rd funct3 rs1 (funct7 * 2 ^ 5 + rs2) fit.opcode_fits fit.rd_fits fit.funct3_fits
        fit.rs1_fits top (omega (arith, fit)) (omega (arith, fit)) (omega (arith, fit)) refl
      ∙ omega arith

module _ (opcode rd funct3 rs1 imm : ℕ)
    (fit : Fit opcode rd funct3 rs1 (imm % 2 ^ 5) (imm / 2 ^ 5 % 2 ^ 7)) where
  pub i_type-fields :
      i_type opcode rd funct3 rs1 imm
      ≡ fields opcode rd funct3 rs1 (imm % 2 ^ 5) (imm / 2 ^ 5 % 2 ^ 7)
  unfolding i_type
  i_type-fields =
      let low : imm_bits imm 12 ≡ imm % 2 ^ 12 = bit_and-mask 12 imm in
      or_low opcode rd funct3 rs1 (imm % 2 ^ 12) fit.opcode_fits fit.rd_fits fit.funct3_fits
        fit.rs1_fits (omega (arith, low)) (omega (arith, fit)) (omega (arith, fit))
        (omega (arith, fit)) refl
      ∙ omega arith

module _ (opcode funct3 rs1 rs2 imm : ℕ)
    (fit : Fit opcode (imm % 2 ^ 5) funct3 rs1 rs2 (imm / 2 ^ 5 % 2 ^ 7)) where
  pub s_type-fields :
      s_type opcode funct3 rs1 rs2 imm
      ≡ fields opcode (imm % 2 ^ 5) funct3 rs1 rs2 (imm / 2 ^ 5 % 2 ^ 7)
  unfolding s_type
  s_type-fields =
      let low : imm_bits imm 12 ≡ imm % 2 ^ 12 = bit_and-mask 12 imm in
      let last : bit_and (imm_bits imm 12) 0x1F ≡ imm % 2 ^ 5 =
        bit_and-mask 5 (imm_bits imm 12) ∙ omega (arith, low) in
      let high = imm / 2 ^ 5 % 2 ^ 7 in
      let top : ((imm_bits imm 12 >>> 5) <<< 25 ‖ rs2 <<< 20) ≡ (high * 2 ^ 5 + rs2) * 2 ^ 20 =
        join 25 high {t = rs2 * 2 ^ 20} (omega (arith, low)) (omega (arith, fit)) refl
          (omega (arith, fit))
        ∙ omega arith in
      or_low opcode (imm % 2 ^ 5) funct3 rs1 (high * 2 ^ 5 + rs2) fit.opcode_fits (omega arith)
        fit.funct3_fits fit.rs1_fits top (omega (arith, fit)) (omega (arith, fit))
        (omega (arith, last)) refl
      ∙ omega arith

module _ (opcode rd imm20 : ℕ) (h0 : opcode < 2 ^ 7) (h1 : rd < 2 ^ 5) where
  pub u_type-sum : u_type opcode rd imm20 ≡ imm20 % 2 ^ 20 * 2 ^ 12 + rd * 2 ^ 7 + opcode
  unfolding u_type
  u_type-sum =
      let low : imm_bits imm20 20 ≡ imm20 % 2 ^ 20 = bit_and-mask 20 imm20 in
      join 7 (imm20 % 2 ^ 20 * 2 ^ 5 + rd)
        (join 12 (imm20 % 2 ^ 20) {t = rd * 2 ^ 7} (omega (arith, low)) (omega arith) refl
          (omega arith))
        refl (omega arith) h0
