-- ===== src/Word/Laws.antt =====
-- Round trips between a bit pattern and the integer that it stands for.
use cbc_engine.Prelude.{ℕ, ◌<◌}
use cbc_engine.Prelude.{◌≡◌, arith}
use cbc_engine.Prelude.Int.{ℤ, pos, negsuc}
use cbc_engine.Word.{Width, w8, w16, w32, w64, modulus, InRange, clamp, uget, sget, make_s, make_u}

-- A value of the signed type is read back as it was written.
pub sget-make_s : (w : Width) (z : ℤ) → InRange w z → sget w (make_s w z) ≡ z
unfolding sget make_s
sget-make_s w8 (pos n) h = ground arith
sget-make_s w8 (negsuc n) h = ground arith
sget-make_s w16 (pos n) h = ground arith
sget-make_s w16 (negsuc n) h = ground arith
sget-make_s w32 (pos n) h = ground arith
sget-make_s w32 (negsuc n) h = ground arith
sget-make_s w64 (pos n) h = ground arith
sget-make_s w64 (negsuc n) h = ground arith

pub sget-InRange : (w : Width) (p : ℕ) → InRange w (sget w p)
unfolding sget
sget-InRange w8 p = ground arith
sget-InRange w16 p = ground arith
sget-InRange w32 p = ground arith
sget-InRange w64 p = ground arith

pub clamp-InRange : (w : Width) (z : ℤ) → InRange w (clamp w z)
clamp-InRange w8 z = ground arith
clamp-InRange w16 z = ground arith
clamp-InRange w32 z = ground arith
clamp-InRange w64 z = ground arith

pub clamp-InRange_same : (w : Width) (z : ℤ) → InRange w z → clamp w z ≡ z
clamp-InRange_same w8 z h = ground arith
clamp-InRange_same w16 z h = ground arith
clamp-InRange_same w32 z h = ground arith
clamp-InRange_same w64 z h = ground arith

pub uget-make_u : (w : Width) (n : ℕ) → n < modulus w → uget w (make_u w n) ≡ n
unfolding uget make_u
uget-make_u w8 n h = omega arith
uget-make_u w16 n h = omega arith
uget-make_u w32 n h = omega arith
uget-make_u w64 n h = omega arith

pub uget-lt : (w : Width) (p : ℕ) → uget w p < modulus w
unfolding uget
uget-lt w8 p = omega arith
uget-lt w16 p = omega arith
uget-lt w32 p = omega arith
uget-lt w64 p = omega arith
