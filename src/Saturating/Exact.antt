-- ===== src/Saturating/Exact.antt =====
-- Every saturating operation answers with the exact mathematical result, brought into range.
use cbc_engine.Prelude.{ℕ, ◌-◌, ◌^◌, ◌<◌, if◌then◌else◌}
use cbc_engine.Prelude.{Bool, true, false, ◌&&◌, ◌≡◌, refl, sym, ap, ◌∙◌, arith, min}
use cbc_engine.Prelude.{Bool-cases, inl, inr, Option, none, some}
use cbc_engine.Prelude.Int.{ℤ, pos, negsuc, ◌+ℤ◌, ◌-ℤ◌, ◌*ℤ◌}
use mathlib.Core.Option
use cbc_engine.Word.{Width, w8, w16, w32, w64, bits, half, smin, smax, clamp, magnitude, InRange}
use cbc_engine.Word.{uget, sget, make_s, quotient, remainder, shift_right}
use cbc_engine.Word.Laws.{sget-make_s, sget-InRange, clamp-InRange, clamp-InRange_same}
use cbc_engine.Word.Division.{quotient-InRange, remainder-InRange, shift_right-InRange}
use cbc_engine.Saturating.{SaturatingOp, is_zero, is_minus_one, shift_amount, sat_arith}
use cbc_engine.Saturating.{sadd, ssub, smul, sdiv, smod, spow, slsl, sasr}
use cbc_engine.Saturating.{suadd, susub, sumul, sudiv, sumod, sulsl, sulsr}
use cbc_engine.Saturating.Power.{power, sat_pow-eq-clamp}

-- A signed shift amount, cut at the width less one; a negative one is 0.
abbrev pub amount : Width → ℤ → ℕ
amount w (pos n) = min n (bits w - 1)
amount w (negsuc n) = 0

pub shift_amount-eq : (w : Width) (z : ℤ) → shift_amount w z ≡ amount w z
shift_amount-eq w (pos n) = ground arith
shift_amount-eq w (negsuc n) = refl

-- The exact result of a signed operation on the signed operands; the exponent is unsigned.
-- `none` is a division by zero, or no signed operation.
abbrev pub exact : Width → SaturatingOp → ℤ → ℤ → ℕ → Option ℤ
exact w sadd a b u = some (a +ℤ b)
exact w ssub a b u = some (a -ℤ b)
exact w smul a b u = some (a *ℤ b)
exact w sdiv a b u = if is_zero b then none else some (quotient a b)
exact w smod a b u = if is_zero b then none else some (remainder a b)
exact w spow a b u = some (power a u)
exact w slsl a b u = some (a *ℤ pos (2 ^ amount w b))
exact w sasr a b u = some (shift_right a (amount w b))
exact w _ a b u = none

written : (w : Width) (z : ℤ) → sget w (make_s w (clamp w z)) ≡ clamp w z
written w z = sget-make_s w (clamp w z) (clamp-InRange w z)

written-InRange : (w : Width) (z : ℤ) → InRange w z → sget w (make_s w z) ≡ clamp w z
written-InRange w z h = sget-make_s w z h ∙ sym (clamp-InRange_same w z h)

-- The least value divided by -1 is one above the largest.
pub least_by_minus_one :
    (w : Width) (a b : ℤ)
    → (is_minus_one b && is_zero (a -ℤ smin w)) ≡ true
    → (a ≡ smin w) × (b ≡ negsuc 0)
unfolding ◌-ℤ◌
least_by_minus_one w8 a b h = ground arith
least_by_minus_one w16 a b h = ground arith
least_by_minus_one w32 a b h = ground arith
least_by_minus_one w64 a b h = ground arith

quotient_least : (w : Width) → sget w (make_s w (smax w)) ≡ clamp w (quotient (smin w) (negsuc 0))
unfolding sget make_s quotient
quotient_least w8 = refl
quotient_least w16 = refl
quotient_least w32 = refl
quotient_least w64 = refl

remainder_least : (w : Width) → sget w (make_s w (pos 0)) ≡ clamp w (remainder (smin w) (negsuc 0))
unfolding sget make_s remainder
remainder_least w8 = refl
remainder_least w16 = refl
remainder_least w32 = refl
remainder_least w64 = refl

pub not_least :
    (w : Width) (a b : ℤ)
    → InRange w a
    → (is_minus_one b && is_zero (a -ℤ smin w)) ≡ false
    → b ≡ negsuc 0
    → magnitude a < half w
unfolding ◌-ℤ◌
not_least w8 a b h no_least e = ground arith
not_least w16 a b h no_least e = ground arith
not_least w32 a b h no_least e = ground arith
not_least w64 a b h no_least e = ground arith

module _ (w : Width) (a b : ℤ) (h : InRange w a) where
  divided :
      (c : Bool)
      → (is_minus_one b && is_zero (a -ℤ smin w)) ≡ c
      → sget w (if c then make_s w (smax w) else make_s w (quotient a b)) ≡ clamp w (quotient a b)
  divided true e =
      let (least, minus) = least_by_minus_one w a b e in rw (least, minus) (quotient_least w)
  divided false e =
      written-InRange w (quotient a b) (quotient-InRange w a b h (not_least w a b h e))

  left_over :
      (c : Bool)
      → (is_minus_one b && is_zero (a -ℤ smin w)) ≡ c
      → sget w (if c then make_s w (pos 0) else make_s w (remainder a b)) ≡ clamp w (remainder a b)
  left_over true e =
      let (least, minus) = least_by_minus_one w a b e in rw (least, minus) (remainder_least w)
  left_over false e = written-InRange w (remainder a b) (remainder-InRange w a b h)

-- SatArith answers with the exact result, brought into the range of the signed type, and fails its
-- ASSERT on a division by zero only.
pub sat_arith-exact :
    (w : Width) (op : SaturatingOp) (l r : ℕ)
    → Option.map (sget w) (sat_arith w op l r)
      ≡ Option.map (clamp w) (exact w op (sget w l) (sget w r) (uget w r))
unfolding sat_arith
sat_arith-exact w sadd l r = ap some (written w (sget w l +ℤ sget w r))
sat_arith-exact w ssub l r = ap some (written w (sget w l -ℤ sget w r))
sat_arith-exact w smul l r = ap some (written w (sget w l *ℤ sget w r))
sat_arith-exact w sdiv l r = elim (Bool-cases (is_zero (sget w r))) [
  | inl zero_divisor ↦ rw zero_divisor
  | inr divisor ↦
      rw divisor (elim (Bool-cases (is_minus_one (sget w r) && is_zero (sget w l -ℤ smin w))) [
        | inl e ↦ rw e (ap some (divided w _ _ (sget-InRange w l) true e))
        | inr e ↦ rw e (ap some (divided w _ _ (sget-InRange w l) false e))
      ])
]
sat_arith-exact w smod l r = elim (Bool-cases (is_zero (sget w r))) [
  | inl zero_divisor ↦ rw zero_divisor
  | inr divisor ↦
      rw divisor (elim (Bool-cases (is_minus_one (sget w r) && is_zero (sget w l -ℤ smin w))) [
        | inl e ↦ rw e (ap some (left_over w _ _ (sget-InRange w l) true e))
        | inr e ↦ rw e (ap some (left_over w _ _ (sget-InRange w l) false e))
      ])
]
sat_arith-exact w spow l r = ap some (
    ap (λ z. sget w (make_s w z)) (sat_pow-eq-clamp w (sget w l) (uget w r))
    ∙ written w (power (sget w l) (uget w r)))
sat_arith-exact w slsl l r =
    rw (sym (shift_amount-eq w (sget w r)))
      (ap some (written w (sget w l *ℤ pos (2 ^ shift_amount w (sget w r)))))
sat_arith-exact w sasr l r = rw (sym (shift_amount-eq w (sget w r))) (
    ap some (
      written-InRange w (shift_right (sget w l) (shift_amount w (sget w r)))
        (shift_right-InRange w (sget w l) (shift_amount w (sget w r)) (sget-InRange w l))))
sat_arith-exact w suadd l r = refl
sat_arith-exact w susub l r = refl
sat_arith-exact w sumul l r = refl
sat_arith-exact w sudiv l r = refl
sat_arith-exact w sumod l r = refl
sat_arith-exact w sulsl l r = refl
sat_arith-exact w sulsr l r = refl
