-- ===== src/Word/Division.antt =====
-- Quotients, remainders and shifts to the right stay in the range of their type.
use cbc_engine.Prelude.{ℕ, zero, suc, ◌/◌, ◌%◌, ◌^◌, ◌≤◌, ◌<◌}
use cbc_engine.Prelude.{◌≡◌, refl, arith}
use cbc_engine.Prelude.Int.{ℤ, pos, negsuc}
use cbc_engine.Word.{Width, w8, w16, w32, w64, half, InRange, magnitude, negate}
use cbc_engine.Word.{signed_by, quotient, remainder, shift_right}

half_pos : (w : Width) → 1 ≤ half w
half_pos w8 = omega arith
half_pos w16 = omega arith
half_pos w32 = omega arith
half_pos w64 = omega arith

-- A value of the same sign and no larger magnitude is in range.
signed_by-InRange :
    (w : Width) (a : ℤ) (m : ℕ) → InRange w a → m ≤ magnitude a → InRange w (signed_by a m)
signed_by-InRange w (pos n) m h le = omega (arith, half_pos w)
signed_by-InRange w (negsuc n) zero h le = omega (arith, half_pos w)
signed_by-InRange w (negsuc n) (suc m) h le = omega (arith, half_pos w)

div-le : (m n : ℕ) → m / n ≤ m
div-le m n = grind arith

mod-le : (m n : ℕ) → m % n ≤ m
mod-le m n = grind arith

pub remainder-InRange : (w : Width) (a b : ℤ) → InRange w a → InRange w (remainder a b)
unfolding remainder
remainder-InRange w a b h =
    signed_by-InRange w a (magnitude a % magnitude b) h (mod-le (magnitude a) (magnitude b))

negate-InRange : (w : Width) (z : ℤ) → InRange w z → magnitude z < half w → InRange w (negate z)
negate-InRange w (pos zero) h lt = h
negate-InRange w (pos (suc n)) h lt = omega arith
negate-InRange w (negsuc n) h lt = omega arith

magnitude-signed_by : (a : ℤ) (m : ℕ) → magnitude (signed_by a m) ≡ m
magnitude-signed_by (pos n) m = refl
magnitude-signed_by (negsuc n) zero = refl
magnitude-signed_by (negsuc n) (suc m) = refl

magnitude-le-half : (w : Width) (a : ℤ) → InRange w a → magnitude a ≤ half w
magnitude-le-half w (pos n) h = omega arith
magnitude-le-half w (negsuc n) h = omega (arith, half_pos w)

div-lt : (m n : ℕ) → 0 < m → m / suc (suc n) < m
div-lt m n p = grind arith

-- A quotient by a negative number is out of range only as the least value by -1.
pub quotient-InRange :
    (w : Width) (a b : ℤ)
    → InRange w a
    → (b ≡ negsuc 0 → magnitude a < half w)
    → InRange w (quotient a b)
unfolding quotient
quotient-InRange w a (pos n) h other =
    signed_by-InRange w a (magnitude a / n) h (div-le (magnitude a) n)
quotient-InRange w a (negsuc zero) h other =
    negate-InRange w _ (signed_by-InRange w a (magnitude a / 1) h (div-le (magnitude a) 1))
      (rw (magnitude-signed_by a (magnitude a / 1)) (omega (arith, other refl)))
quotient-InRange w a (negsuc (suc n)) h other =
    negate-InRange w _
      (signed_by-InRange w a (magnitude a / suc (suc n)) h (div-le (magnitude a) (suc (suc n))))
      (rw (magnitude-signed_by a (magnitude a / suc (suc n)))
        (small (magnitude a) (magnitude-le-half w a h)))
  where
    small : (m : ℕ) → m ≤ half w → m / suc (suc n) < half w
    small zero le = omega (arith, half_pos w, div-le 0 (suc (suc n)))
    small (suc m) le = omega (arith, div-lt (suc m) n (omega arith))

shift_right-pos : (n k : ℕ) → n / 2 ^ k ≤ n
shift_right-pos n k = div-le n (2 ^ k)

pub shift_right-InRange : (w : Width) (z : ℤ) (k : ℕ) → InRange w z → InRange w (shift_right z k)
shift_right-InRange w (pos n) k h = omega (arith, div-le n (2 ^ k))
shift_right-InRange w (negsuc n) k h = omega (arith, div-le n (2 ^ k))
