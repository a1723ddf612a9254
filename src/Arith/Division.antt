-- ===== src/Arith/Division.antt =====
-- Division and remainder of Arith: signed and unsigned, the zero divisor included.
use cbc_engine.Prelude.{ℕ, ◌/◌, ◌%◌, ◌<◌, ◌==◌, if◌then◌else◌}
use cbc_engine.Prelude.{Bool, ◌&&◌, ◌≡◌, refl, sym, ap, ◌∙◌, arith}
use cbc_engine.Prelude.{Bool-cases, inl, inr, Option, none, some}
use cbc_engine.Prelude.Int.{ℤ, negsuc, ◌-ℤ◌}
use mathlib.Core.Option
use cbc_engine.Word.{Width, w8, w16, w32, w64, smin, uget, sget, make_s, modulus, InRange}
use cbc_engine.Word.{to_signed, to_unsigned, quotient, remainder}
use cbc_engine.Word.Laws.{sget-make_s, sget-InRange, uget-make_u, uget-lt}
use cbc_engine.Word.Division.{quotient-InRange, remainder-InRange}
use cbc_engine.Saturating.{is_zero, is_minus_one}
use cbc_engine.Saturating.Exact.{least_by_minus_one, not_least}
use cbc_engine.Arith.{ArithmeticResult, arith_op, sdiv, srem, udiv, urem}

-- The value of a successful result.
abbrev pub signed_value : Width → ArithmeticResult → Option ℤ
signed_value w x = if x.successful then some (sget w x.result) else none

abbrev pub unsigned_value : Width → ArithmeticResult → Option ℕ
unsigned_value w x = if x.successful then some (uget w x.result) else none

-- The signed result, brought back into the range of its type.
abbrev pub wrap : Width → ℤ → ℤ
wrap w z = to_signed w (to_unsigned w z)

quotient_wraps : (w : Width) → wrap w (quotient (smin w) (negsuc 0)) ≡ smin w
unfolding quotient
quotient_wraps w8 = refl
quotient_wraps w16 = refl
quotient_wraps w32 = refl
quotient_wraps w64 = refl

remainder_wraps : (w : Width) → sget w 0 ≡ wrap w (remainder (smin w) (negsuc 0))
unfolding sget remainder
remainder_wraps w8 = refl
remainder_wraps w16 = refl
remainder_wraps w32 = refl
remainder_wraps w64 = refl

-- The code tests for the least value first.
&&_comm : (a b : Bool) → (a && b) ≡ (b && a)
&&_comm a b = ground arith

same_sign_wraps : (w : Width) (z : ℤ) → InRange w z → wrap w z ≡ z
same_sign_wraps w8 z h = ground arith
same_sign_wraps w16 z h = ground arith
same_sign_wraps w32 z h = ground arith
same_sign_wraps w64 z h = ground arith

written : (w : Width) (z : ℤ) → InRange w z → sget w (make_s w z) ≡ wrap w z
written w z h = sget-make_s w z h ∙ sym (same_sign_wraps w z h)

quotient_fits : (a b m : ℕ) → a < m → a / b < m
quotient_fits a b m h = grind arith

rest_fits : (a b m : ℕ) → a < m → a % b < m
rest_fits a b m h = grind arith

signed_division :
    (w : Width) (l r : ℕ)
    → Option.map (signed_value w) (arith_op w sdiv l r)
      ≡ some (if is_zero (sget w r) then none else some (wrap w (quotient (sget w l) (sget w r))))
unfolding arith_op
signed_division w l r = elim (Bool-cases (is_zero (sget w r))) [
  | inl zero_divisor ↦ rw zero_divisor
  | inr divisor ↦
      rw (divisor, &&_comm (is_zero (sget w l -ℤ smin w)) (is_minus_one (sget w r)))
        (elim (Bool-cases (is_minus_one (sget w r) && is_zero (sget w l -ℤ smin w))) [
          | inl e ↦
              let (least, minus) = least_by_minus_one w (sget w l) (sget w r) e in
              rw (e, minus, least) (ap some (ap some (sym (quotient_wraps w))))
          | inr e ↦ rw e (
              ap some (
                ap some (
                  written w (quotient (sget w l) (sget w r)) (
                    quotient-InRange w (sget w l) (sget w r) (sget-InRange w l)
                      (not_least w (sget w l) (sget w r) (sget-InRange w l) e)))))
        ])
]

signed_remainder :
    (w : Width) (l r : ℕ)
    → Option.map (signed_value w) (arith_op w srem l r)
      ≡ some (if is_zero (sget w r) then none else some (wrap w (remainder (sget w l) (sget w r))))
unfolding arith_op
signed_remainder w l r = elim (Bool-cases (is_zero (sget w r))) [
  | inl zero_divisor ↦ rw zero_divisor
  | inr divisor ↦
      rw (divisor, &&_comm (is_zero (sget w l -ℤ smin w)) (is_minus_one (sget w r)))
        (elim (Bool-cases (is_minus_one (sget w r) && is_zero (sget w l -ℤ smin w))) [
          | inl e ↦
              let (least, minus) = least_by_minus_one w (sget w l) (sget w r) e in
              rw (e, minus, least) (ap some (ap some (remainder_wraps w)))
          | inr e ↦ rw e (
              ap some (
                ap some (
                  written w (remainder (sget w l) (sget w r))
                    (remainder-InRange w (sget w l) (sget w r) (sget-InRange w l)))))
        ])
]

unsigned_division :
    (w : Width) (l r : ℕ)
    → Option.map (unsigned_value w) (arith_op w udiv l r)
      ≡ some (if uget w r == 0 then none else some (uget w l / uget w r))
unfolding arith_op
unsigned_division w l r = elim (Bool-cases (uget w r == 0)) [
  | inl e ↦ rw e
  | inr e ↦ rw e (
      ap some (
        ap some (
          uget-make_u w (uget w l / uget w r)
            (quotient_fits (uget w l) (uget w r) (modulus w) (uget-lt w l)))))
]

unsigned_remainder :
    (w : Width) (l r : ℕ)
    → Option.map (unsigned_value w) (arith_op w urem l r)
      ≡ some (if uget w r == 0 then none else some (uget w l % uget w r))
unfolding arith_op
unsigned_remainder w l r = elim (Bool-cases (uget w r == 0)) [
  | inl e ↦ rw e
  | inr e ↦ rw e (
      ap some (
        ap some (
          uget-make_u w (uget w l % uget w r)
            (rest_fits (uget w l) (uget w r) (modulus w) (uget-lt w l)))))
]

-- Division and remainder of Arith are unsuccessful on a zero divisor only, and elsewhere answer
-- with the exact result, which wraps where the least value is divided by -1.
pub arith_op-divides :
    (w : Width) (l r : ℕ)
    → (Option.map (signed_value w) (arith_op w sdiv l r)
        ≡ some
            (if is_zero (sget w r) then none else some (wrap w (quotient (sget w l) (sget w r)))))
      × (Option.map (signed_value w) (arith_op w srem l r)
          ≡ some (
              if is_zero (sget w r) then none else some (wrap w (remainder (sget w l) (sget w r)))))
      × (Option.map (unsigned_value w) (arith_op w udiv l r)
          ≡ some (if uget w r == 0 then none else some (uget w l / uget w r)))
      × (Option.map (unsigned_value w) (arith_op w urem l r)
          ≡ some (if uget w r == 0 then none else some (uget w l % uget w r)))
arith_op-divides w l r = (
  signed_division w l r,
  signed_remainder w l r,
  unsigned_division w l r,
  unsigned_remainder w l r,
)
