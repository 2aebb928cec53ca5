-- ===== src/Decode/Operation.antt =====
-- `Op` of refemu/src/decode.rs: every arm that the machine has, and its mnemonic.
use Prim.Native.String.{String}
use text.Mathlib.Text.{◌==◌ as str_eq}
use click_doom.Base.{◌≡◌, refl, sym, ap, ◌∙◌, List, [], ◌∷◌, Option, none, some, if◌then◌else◌}
use mathlib.Core.Option.{some-injective}

pub data Op : Type 0 where
  lui auipc jal jalr beq bne blt bge bltu bgeu lb lh lw lbu lhu sb sh sw addi slti sltiu xori ori
        andi slli srli srai add sub sll slt sltu xor srl sra or and mul mulh mulhsu mulhu div divu
        rem remu fence ecall ebreak csr illegal :
      Op

unfoldable pub mnemonic : Op → String
mnemonic lui = "lui"
mnemonic auipc = "auipc"
mnemonic jal = "jal"
mnemonic jalr = "jalr"
mnemonic beq = "beq"
mnemonic bne = "bne"
mnemonic blt = "blt"
mnemonic bge = "bge"
mnemonic bltu = "bltu"
mnemonic bgeu = "bgeu"
mnemonic lb = "lb"
mnemonic lh = "lh"
mnemonic lw = "lw"
mnemonic lbu = "lbu"
mnemonic lhu = "lhu"
mnemonic sb = "sb"
mnemonic sh = "sh"
mnemonic sw = "sw"
mnemonic addi = "addi"
mnemonic slti = "slti"
mnemonic sltiu = "sltiu"
mnemonic xori = "xori"
mnemonic ori = "ori"
mnemonic andi = "andi"
mnemonic slli = "slli"
mnemonic srli = "srli"
mnemonic srai = "srai"
mnemonic add = "add"
mnemonic sub = "sub"
mnemonic sll = "sll"
mnemonic slt = "slt"
mnemonic sltu = "sltu"
mnemonic xor = "xor"
mnemonic srl = "srl"
mnemonic sra = "sra"
mnemonic or = "or"
mnemonic and = "and"
mnemonic mul = "mul"
mnemonic mulh = "mulh"
mnemonic mulhsu = "mulhsu"
mnemonic mulhu = "mulhu"
mnemonic div = "div"
mnemonic divu = "divu"
mnemonic rem = "rem"
mnemonic remu = "remu"
mnemonic fence = "fence"
mnemonic ecall = "ecall"
mnemonic ebreak = "ebreak"
mnemonic csr = "csr"
mnemonic illegal = "illegal"

-- Every arm, in the order of the declaration.
abbrev pub all_ops : List Op
all_ops =
    lui ∷ auipc ∷ jal ∷ jalr ∷ beq ∷ bne ∷ blt ∷ bge ∷ bltu ∷ bgeu ∷ lb ∷ lh ∷ lw ∷ lbu ∷ lhu ∷ sb
    ∷ sh ∷ sw ∷ addi ∷ slti ∷ sltiu ∷ xori ∷ ori ∷ andi ∷ slli ∷ srli ∷ srai ∷ add ∷ sub ∷ sll ∷ slt
    ∷ sltu ∷ xor ∷ srl ∷ sra ∷ or ∷ and ∷ mul ∷ mulh ∷ mulhsu ∷ mulhu ∷ div ∷ divu ∷ rem ∷ remu
    ∷ fence ∷ ecall ∷ ebreak ∷ csr ∷ illegal ∷ []

-- The first arm of the list with the mnemonic.
named : List Op → String → Option Op
unfolding mnemonic
named [] s = none
named (op ∷ ops) s = let rest = named ops s in if str_eq (mnemonic op) s then some op else rest

named-mnemonic : (op : Op) → named all_ops (mnemonic op) ≡ some op
unfolding named
named-mnemonic lui = refl
named-mnemonic auipc = refl
named-mnemonic jal = refl
named-mnemonic jalr = refl
named-mnemonic beq = refl
named-mnemonic bne = refl
named-mnemonic blt = refl
named-mnemonic bge = refl
named-mnemonic bltu = refl
named-mnemonic bgeu = refl
named-mnemonic lb = refl
named-mnemonic lh = refl
named-mnemonic lw = refl
named-mnemonic lbu = refl
named-mnemonic lhu = refl
named-mnemonic sb = refl
named-mnemonic sh = refl
named-mnemonic sw = refl
named-mnemonic addi = refl
named-mnemonic slti = refl
named-mnemonic sltiu = refl
named-mnemonic xori = refl
named-mnemonic ori = refl
named-mnemonic andi = refl
named-mnemonic slli = refl
named-mnemonic srli = refl
named-mnemonic srai = refl
named-mnemonic add = refl
named-mnemonic sub = refl
named-mnemonic sll = refl
named-mnemonic slt = refl
named-mnemonic sltu = refl
named-mnemonic xor = refl
named-mnemonic srl = refl
named-mnemonic sra = refl
named-mnemonic or = refl
named-mnemonic and = refl
named-mnemonic mul = refl
named-mnemonic mulh = refl
named-mnemonic mulhsu = refl
named-mnemonic mulhu = refl
named-mnemonic div = refl
named-mnemonic divu = refl
named-mnemonic rem = refl
named-mnemonic remu = refl
named-mnemonic fence = refl
named-mnemonic ecall = refl
named-mnemonic ebreak = refl
named-mnemonic csr = refl
named-mnemonic illegal = refl

-- No two arms share a mnemonic.
pub mnemonic-injective : (a b : Op) → mnemonic a ≡ mnemonic b → a ≡ b
mnemonic-injective a b h =
    some-injective _ _ (sym (named-mnemonic a) ∙ ap (named all_ops) h ∙ named-mnemonic b)
