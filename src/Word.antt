-- ===== src/Word.antt =====
-- The machine integers of the interpreter. A `u32` is a number below 2 ^ 32; an `i32` is kept as
-- its bit pattern, the `u32` that `as u32` makes of it, and `signed32` is the number it stands for.
pub mod Bits
pub mod Signed
use click_doom.Base.{ℕ, ◌+◌, ◌-◌, ◌*◌, ◌/◌, ◌%◌, ◌^◌, ◌<◌, Bool, ltb, if◌then◌else◌}
use click_doom.Base.Int.{ℤ, pos, negsuc, shr_ℤ, ltb_ℤ}

abbrev pub IsU32 : ℕ → Type 0
IsU32 n = n < 2 ^ 32

-- `wrapping_add`, `wrapping_sub` and `wrapping_mul`; `-` stops at 0, so the modulus is added first.
abbrev pub wrapping_add : ℕ → ℕ → ℕ
wrapping_add a b = (a + b) % 2 ^ 32

abbrev pub wrapping_sub : ℕ → ℕ → ℕ
wrapping_sub a b = (a + 2 ^ 32 - b) % 2 ^ 32

abbrev pub wrapping_mul : ℕ → ℕ → ℕ
wrapping_mul a b = a * b % 2 ^ 32

-- `<<` and `>>` of a `u32`, at an amount below 32.
infixl 71 ◌<<<◌ ◌>>>◌
abbrev pub ◌<<<◌ : ℕ → ℕ → ℕ
x <<< k = x * 2 ^ k % 2 ^ 32

abbrev pub ◌>>>◌ : ℕ → ℕ → ℕ
x >>> k = x / 2 ^ k

-- `x as i32`: the number that a bit pattern stands for.
abbrev pub signed32 : ℕ → ℤ
signed32 w = if ltb w (2 ^ 31) then pos w else negsuc (2 ^ 32 - 1 - w)

-- `x as u32`, of a number of any width.
abbrev pub to_u32 : ℤ → ℕ
to_u32 (pos n) = n % 2 ^ 32
to_u32 (negsuc n) = 2 ^ 32 - 1 - n % 2 ^ 32

-- `(a as i32) < (b as i32)` and `((a as i32) >> k) as u32`.
abbrev pub signed_lt : ℕ → ℕ → Bool
signed_lt a b = ltb_ℤ (signed32 a) (signed32 b)

abbrev pub signed_shr : ℕ → ℕ → ℕ
signed_shr a k = to_u32 (shr_ℤ (signed32 a) k)

-- `b as u32` of a Boolean.
abbrev pub from_bool : Bool → ℕ
from_bool b = if b then 1 else 0

-- The low `bits` of `value` with the top one of them repeated upwards, for `bits` from 1 to 32:
-- `sext` of the decoder (which the source declares once more as `sign_extend` of the interpreter).
abbrev pub sext : ℕ → ℕ → ℕ
sext value bits = signed_shr (value <<< (32 - bits)) (32 - bits)
