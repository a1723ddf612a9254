-- ===== src/Casts/Exact.antt =====
-- Casts keep the value where the target type holds it.
use cbc_engine.Prelude.{ℕ, ◌%◌, ◌^◌, ◌<◌, ltb, if◌then◌else◌}
use cbc_engine.Prelude.{Bool, true, false, not, ◌&&◌, ◌≡◌, refl, ap, arith}
use cbc_engine.Prelude.{Bool-cases, inl, inr}
use cbc_engine.Prelude.Int.{ℤ, pos, negsuc, ltb_ℤ}
use cbc_engine.Word.{Width, w8, w16, w32, w64, smin, smax, umax, uget, sget}
use cbc_engine.Word.{InRange}
use cbc_engine.Word.Laws.{sget-InRange, uget-lt}
use cbc_engine.Checked.{ExceptionType, successful, cast_inf_or_nan}
use cbc_engine.Casts.{IntType, signed, unsigned, CheckedCastResult, convert, make_int_prim}
use cbc_engine.Casts.{min_exception, max_exception, overflowed, succeeded, upper, lower}
use cbc_engine.Casts.{checked_cast_from_signed, checked_cast_from_unsigned}
use cbc_engine.Casts.{checked_cast_from_integral, checked_cast_from_fp, is_narrow}

-- The integer that a value of the type stands for, and the bounds of the type.
abbrev pub value_of : IntType → ℕ → ℤ
value_of (signed w) p = sget w p
value_of (unsigned w) p = pos (uget w p)

abbrev pub least : IntType → ℤ
least (signed w) = smin w
least (unsigned w) = pos 0

abbrev pub largest : IntType → ℤ
largest (signed w) = smax w
largest (unsigned w) = pos (umax w)

-- What is seen of a result, and what is expected of the integer `z`.
abbrev pub observe : IntType → CheckedCastResult → ExceptionType × ℤ
observe to x = (x.exception, value_of to x.value)

abbrev pub expected : IntType → ℤ → ExceptionType × ℤ
expected to z =
    if ltb_ℤ z (least to)
    then (min_exception to, pos 0)
    else if ltb_ℤ (largest to) z
    then (max_exception to, pos 0)
    else (successful, z)

-- A value in the range of the type survives the conversion and the 64-bit pattern.
fits :
    (to : IntType) (z : ℤ)
    → ltb_ℤ z (least to) ≡ false
    → ltb_ℤ (largest to) z ≡ false
    → value_of to (make_int_prim (convert to z)) ≡ z
unfolding sget uget
fits (signed w8) (pos n) h k = ground arith
fits (signed w8) (negsuc n) h k = ground arith
fits (signed w16) (pos n) h k = ground arith
fits (signed w16) (negsuc n) h k = ground arith
fits (signed w32) (pos n) h k = ground arith
fits (signed w32) (negsuc n) h k = ground arith
fits (signed w64) (pos n) h k = ground arith
fits (signed w64) (negsuc n) h k = ground arith
fits (unsigned w8) (pos n) h k = ground arith
fits (unsigned w16) (pos n) h k = ground arith
fits (unsigned w32) (pos n) h k = ground arith
fits (unsigned w64) (pos n) h k = ground arith
fits (unsigned w) (negsuc n) h k = ground arith

zero_value : (to : IntType) → value_of to 0 ≡ pos 0
unfolding sget uget
zero_value (signed w8) = refl
zero_value (signed w16) = refl
zero_value (signed w32) = refl
zero_value (signed w64) = refl
zero_value (unsigned w8) = refl
zero_value (unsigned w16) = refl
zero_value (unsigned w32) = refl
zero_value (unsigned w64) = refl

-- The cases of a check against the bounds of the type.
not_too_small :
    (to : IntType) (z : ℤ)
    → ltb_ℤ z (least to) ≡ false
    → observe to (if ltb_ℤ (largest to) z then overflowed (max_exception to) else succeeded to z)
      ≡ (if ltb_ℤ (largest to) z then (max_exception to, pos 0) else (successful, z))
not_too_small to z not_low = elim (Bool-cases (ltb_ℤ (largest to) z)) [
  | inl high ↦ rw high (ap (λ y. (max_exception to, y)) (zero_value to))
  | inr not_high ↦ rw not_high (ap (λ y. (successful, y)) (fits to z not_low not_high))
]

checked :
    (to : IntType) (z : ℤ)
    → observe to (
        if ltb_ℤ z (least to)
        then overflowed (min_exception to)
        else if ltb_ℤ (largest to) z
        then overflowed (max_exception to)
        else succeeded to z)
      ≡ expected to z
checked to z = elim (Bool-cases (ltb_ℤ z (least to))) [
  | inl low ↦ rw low (ap (λ y. (min_exception to, y)) (zero_value to))
  | inr not_low ↦ rw not_low (not_too_small to z not_low)
]

-- The width-specific upper test; a 64-bit value is in the range of `uint64_t`.
upper_test :
    (w : Width) (n : ℕ)
    → n < 2 ^ 64
    → (is_narrow w && ltb (umax w) n) ≡ ltb_ℤ (pos (umax w)) (pos n)
upper_test w8 n h = ground arith
upper_test w16 n h = ground arith
upper_test w32 n h = ground arith
upper_test w64 n h = ground arith

not_below_zero : (n : ℕ) → ltb_ℤ (pos n) (pos 0) ≡ false
not_below_zero n = ground arith

not_below : (w : Width) (n : ℕ) → ltb_ℤ (pos n) (smin w) ≡ false
not_below w8 n = ground arith
not_below w16 n = ground arith
not_below w32 n = ground arith
not_below w64 n = ground arith

below_zero : (n : ℕ) → ltb_ℤ (negsuc n) (pos 0) ≡ true
below_zero n = ground arith

from_signed :
    (to : IntType) (z : ℤ)
    → InRange w64 z
    → observe to (checked_cast_from_signed to z) ≡ expected to z
unfolding checked_cast_from_signed
from_signed (signed w) z h = checked (signed w) z
from_signed (unsigned w) (pos n) h =
    let same : n % 2 ^ 64 ≡ n = omega arith in
    rw (not_below_zero n, same, upper_test w n (omega arith))
      (not_too_small (unsigned w) (pos n) (not_below_zero n))
from_signed (unsigned w) (negsuc n) h =
    rw (below_zero n) (ap (λ y. (min_exception (unsigned w), y)) (zero_value (unsigned w)))

from_unsigned :
    (to : IntType) (n : ℕ)
    → n < 2 ^ 64
    → observe to (checked_cast_from_unsigned to n) ≡ expected to (pos n)
unfolding checked_cast_from_unsigned
from_unsigned (signed w) n h = rw (not_below w n) (not_too_small (signed w) (pos n) (not_below w n))
from_unsigned (unsigned w) n h =
    rw (not_below_zero n, upper_test w n h) (not_too_small (unsigned w) (pos n) (not_below_zero n))

sget_wide : (w : Width) (p : ℕ) → InRange w64 (sget w p)
sget_wide w8 p = omega (arith, sget-InRange w8 p)
sget_wide w16 p = omega (arith, sget-InRange w16 p)
sget_wide w32 p = omega (arith, sget-InRange w32 p)
sget_wide w64 p = sget-InRange w64 p

uget_wide : (w : Width) (p : ℕ) → uget w p < 2 ^ 64
uget_wide w8 p = omega (arith, uget-lt w8 p)
uget_wide w16 p = omega (arith, uget-lt w16 p)
uget_wide w32 p = omega (arith, uget-lt w32 p)
uget_wide w64 p = uget-lt w64 p

-- A checked cast between integer types keeps the value, or raises the exception that names the
-- target type and the bound that the value is beyond, with value 0.
pub cast-exact :
    (to from : IntType) (p : ℕ)
    → observe to (checked_cast_from_integral to from p) ≡ expected to (value_of from p)
unfolding checked_cast_from_integral
cast-exact to (signed w) p = from_signed to (sget w p) (sget_wide w p)
cast-exact to (unsigned w) p = from_unsigned to (uget w p) (uget_wide w p)

-- The bounds of FpIntBounds are those of the type.
lower_test : (to : IntType) (z : ℤ) → ltb_ℤ z (lower to) ≡ ltb_ℤ z (least to)
lower_test (signed w8) z = refl
lower_test (signed w16) z = refl
lower_test (signed w32) z = refl
lower_test (signed w64) z = refl
lower_test (unsigned w) z = refl

past_upper : (to : IntType) (z : ℤ) → not (ltb_ℤ z (upper to)) ≡ ltb_ℤ (largest to) z
past_upper (signed w8) z = ground arith
past_upper (signed w16) z = ground arith
past_upper (signed w32) z = ground arith
past_upper (signed w64) z = ground arith
past_upper (unsigned w8) z = ground arith
past_upper (unsigned w16) z = ground arith
past_upper (unsigned w32) z = ground arith
past_upper (unsigned w64) z = ground arith

-- A checked cast from a floating-point number is that of its truncation, and raises the exception
-- for infinities and NaN where it is not finite.
pub fp_cast-exact {ℓ} :
    (Double : Type ℓ) (is_finite : Double → Bool) (trunc : Double → ℤ) (to : IntType) (x : Double)
    → observe to (checked_cast_from_fp Double is_finite trunc to x)
      ≡ (if is_finite x then expected to (trunc x) else (cast_inf_or_nan, pos 0))
unfolding checked_cast_from_fp
fp_cast-exact Double is_finite trunc to x = elim (Bool-cases (is_finite x)) [
  | inl finite ↦
      rw (finite, lower_test to (trunc x), past_upper to (trunc x)) (checked to (trunc x))
  | inr infinite ↦ rw infinite (ap (λ y. (cast_inf_or_nan, y)) (zero_value to))
]
