-- ===== src/Word/Signed.antt =====
-- Two's complement: what the casts and the sign extension mean.
use click_doom.Base.{ℕ, ◌+◌, ◌-◌, ◌^◌, ◌<◌, ◌≡◌, arith, ltb, if◌then◌else◌}
use click_doom.Base.Int.{ℤ, pos, negsuc}
use click_doom.Word.{signed32, to_u32, sext}

-- A cast to `u32` fits, and undoes the cast to `i32`.
pub to_u32-lt : (z : ℤ) → to_u32 z < 2 ^ 32
to_u32-lt (pos n) = omega arith
to_u32-lt (negsuc n) = omega arith

pub to_u32-signed32 : (w : ℕ) → w < 2 ^ 32 → to_u32 (signed32 w) ≡ w
to_u32-signed32 w h = ground arith

pub sext-lt : (v bits : ℕ) → sext v bits < 2 ^ 32
sext-lt v bits = to_u32-lt _

-- Sign extension at the widths that the decoder and the loads use.
pub sext-8 : (v : ℕ) → v < 2 ^ 8 → sext v 8 ≡ (if ltb v 128 then v else v + 2 ^ 32 - 2 ^ 8)
sext-8 v h = ground arith

pub sext-12 : (v : ℕ) → v < 2 ^ 12 → sext v 12 ≡ (if ltb v 2048 then v else v + 2 ^ 32 - 2 ^ 12)
sext-12 v h = ground arith

pub sext-13 : (v : ℕ) → v < 2 ^ 13 → sext v 13 ≡ (if ltb v 4096 then v else v + 2 ^ 32 - 2 ^ 13)
sext-13 v h = ground arith

pub sext-16 : (v : ℕ) → v < 2 ^ 16 → sext v 16 ≡ (if ltb v 32768 then v else v + 2 ^ 32 - 2 ^ 16)
sext-16 v h = ground arith

pub sext-21 : (v : ℕ) → v < 2 ^ 21 → sext v 21 ≡ (if ltb v (2 ^ 20) then v else v + 2 ^ 32 - 2 ^ 21)
sext-21 v h = ground arith
