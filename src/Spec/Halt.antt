-- ===== src/Spec/Halt.antt =====
-- spec/src/halt.rs: why a machine stops.
use Prim.Native.String.{String}
use text.Mathlib.Text.{◌==◌ as str_eq}
use text.Mathlib.TextEquality.{eq_iff}
use click_doom.Base.{
  ◌≡◌, refl, ◌↔◌, Bool, true, false, List, [], ◌∷◌, Option, none, some, arith, if◌then◌else◌, subst,
}

pub data HaltReason : Type 0 where
  illegal_insn bad_addr self_modify misaligned ecall ebreak csr exit : HaltReason

unfoldable pub as_str : HaltReason → String
as_str illegal_insn = "ILLEGAL_INSN"
as_str bad_addr = "BAD_ADDR"
as_str self_modify = "SELF_MODIFY"
as_str misaligned = "MISALIGNED"
as_str ecall = "ECALL"
as_str ebreak = "EBREAK"
as_str csr = "CSR"
as_str exit = "EXIT"

abbrev pub is_fault : HaltReason → Bool
is_fault exit = false
is_fault _ = true

abbrev pub all_halt_reasons : List HaltReason
all_halt_reasons =
    illegal_insn ∷ bad_addr ∷ self_modify ∷ misaligned ∷ ecall ∷ ebreak ∷ csr ∷ exit ∷ []

find_reason : List HaltReason → String → Option HaltReason
find_reason [] s = none
find_reason (r ∷ rs) s = let rest = find_reason rs s in if str_eq (as_str r) s then some r else rest

pub from_str : String → Option HaltReason
unfolding find_reason
from_str s = find_reason all_halt_reasons s

-- Every reason is read back from its spelling.
pub from_str-as_str : (r : HaltReason) → from_str (as_str r) ≡ some r
unfolding from_str as_str
from_str-as_str illegal_insn = refl
from_str-as_str bad_addr = refl
from_str-as_str self_modify = refl
from_str-as_str misaligned = refl
from_str-as_str ecall = refl
from_str-as_str ebreak = refl
from_str-as_str csr = refl
from_str-as_str exit = refl

find_reason-some :
    (rs : List HaltReason) (s : String) (r : HaltReason) → find_reason rs s ≡ some r → as_str r ≡ s
unfolding find_reason
find_reason-some [] s r h = ground arith
find_reason-some (q ∷ rs) s r h = ground (arith, eq_iff (as_str q) s, find_reason-some rs s r)

-- A text is read as a reason exactly when it is that reason's spelling.
pub from_str_iff : (s : String) (r : HaltReason) → (from_str s ≡ some r) ↔ (as_str r ≡ s)
from_str_iff s r = (
  unfold from_str in find_reason-some all_halt_reasons s r,
  λ e. subst (λ t. from_str t ≡ some r) e (from_str-as_str r),
)
