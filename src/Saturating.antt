-- ===== src/Saturating.antt =====
-- src/interpreter/internal/operations.h: SatArith and SatArithU, the operations that clamp to the
-- range of their type. The 128-bit intermediate values are exact, so they are integers here.
-- `none` is an ASSERT or the FATAL of an operation of the other function.
pub mod Power
pub mod Exact
pub mod Unsigned
pub mod Runs
use cbc_engine.Prelude.{ℕ, zero, suc, ◌+◌, ◌-◌, ◌*◌, ◌/◌, ◌%◌, ◌^◌, ltb, leb, ◌==◌, if◌then◌else◌}
use cbc_engine.Prelude.{Bool, true, false, not, ◌&&◌, ◌||◌, Option, none, some, bit_and}
use cbc_engine.Prelude.Int.{ℤ, pos, negsuc, ltb_ℤ, ◌+ℤ◌, ◌-ℤ◌, ◌*ℤ◌}
use cbc_engine.Word.{Width, w64, bits, smin, smax, umax, clamp, uget, sget, make_u, make_s}
use cbc_engine.Word.{to_signed, quotient, remainder, shift_right}

-- Cbc::Format::Saturating
pub data SaturatingOp : Type 0 where
  sadd ssub smul sdiv smod spow slsl sasr : SaturatingOp
  suadd susub sumul sudiv sumod sulsl sulsr : SaturatingOp

abbrev pub is_zero : ℤ → Bool
is_zero (pos zero) = true
is_zero _ = false

abbrev pub is_one : ℤ → Bool
is_one (pos (suc zero)) = true
is_one _ = false

abbrev pub is_minus_one : ℤ → Bool
is_minus_one (negsuc zero) = true
is_minus_one _ = false

abbrev pub is_negative : ℤ → Bool
is_negative (pos n) = false
is_negative (negsuc n) = true

abbrev pub is_odd : ℕ → Bool
is_odd n = not (bit_and n 1 == 0)

abbrev pub out_of_range : Width → ℤ → Bool
out_of_range w z = ltb_ℤ z (smin w) || ltb_ℤ (smax w) z

-- `while (exp != 0 && smin <= acc && acc <= smax)`: the accumulator and the exponent that is left.
pub pow_loop : Width → ℤ → ℕ → ℤ → ℤ × ℕ
pow_loop w base zero acc = (acc, 0)
pow_loop w base (suc e) acc = elim (out_of_range w acc) [
  | true ↦ (acc, suc e)
  | false ↦ pow_loop w base e (acc *ℤ base)
]

-- What the loop leaves, as the result.
pub pow_result : Width → ℤ → ℤ × ℕ → ℤ
pow_result w base (acc, exp) =
    if out_of_range w acc
    then if is_negative acc
      then if is_negative base && is_odd exp then smax w else smin w
      else if is_negative base && is_odd exp
      then smin w
      else smax w
    else acc

-- The case SPOW.
pub sat_pow : Width → ℤ → ℕ → ℤ
unfolding pow_loop pow_result
sat_pow w base exp =
    if is_zero base
    then if exp == 0 then pos 1 else pos 0
    else if is_one base
    then pos 1
    else if is_minus_one base
    then if is_odd exp then negsuc 0 else pos 1
    else pow_result w base (pow_loop w base exp (pos 1))

-- A shift amount, an `int64_t`, brought between 0 and the width less one.
abbrev pub shift_amount : Width → ℤ → ℕ
shift_amount w (pos n) = if ltb (bits w - 1) n then bits w - 1 else n
shift_amount w (negsuc n) = 0

pub sat_arith : Width → SaturatingOp → ℕ → ℕ → Option ℕ
unfolding sat_pow
sat_arith w sadd l r = some (make_s w (clamp w (sget w l +ℤ sget w r)))
sat_arith w ssub l r = some (make_s w (clamp w (sget w l -ℤ sget w r)))
sat_arith w smul l r = some (make_s w (clamp w (sget w l *ℤ sget w r)))
sat_arith w sdiv l r =
    if is_zero (sget w r)
    then none
    else if is_minus_one (sget w r) && is_zero (sget w l -ℤ smin w)
    then some (make_s w (smax w))
    else some (make_s w (quotient (sget w l) (sget w r)))
sat_arith w smod l r =
    if is_zero (sget w r)
    then none
    else if is_minus_one (sget w r) && is_zero (sget w l -ℤ smin w)
    then some (make_s w (pos 0))
    else some (make_s w (remainder (sget w l) (sget w r)))
sat_arith w spow l r = some (make_s w (sat_pow w (sget w l) (uget w r)))
sat_arith w slsl l r = some (make_s w (clamp w (sget w l *ℤ pos (2 ^ shift_amount w (sget w r)))))
sat_arith w sasr l r = some (make_s w (shift_right (sget w l) (shift_amount w (sget w r))))
sat_arith w _ l r = none

abbrev pub at_most : ℕ → ℕ → ℕ
at_most top n = if ltb top n then top else n

pub sat_arith_u : Width → SaturatingOp → ℕ → ℕ → Option ℕ
sat_arith_u w suadd l r = some (make_u w (at_most (umax w) (uget w l + uget w r)))
sat_arith_u w susub l r =
    some (make_u w (if leb (uget w r) (uget w l) then uget w l - uget w r else 0))
sat_arith_u w sumul l r = some (make_u w (at_most (umax w) (uget w l * uget w r)))
sat_arith_u w sudiv l r = if uget w r == 0 then none else some (make_u w (uget w l / uget w r))
sat_arith_u w sumod l r = if uget w r == 0 then none else some (make_u w (uget w l % uget w r))
sat_arith_u w sulsl l r =
    some (make_u w (at_most (umax w) (uget w l * 2 ^ shift_amount w (to_signed w64 (uget w r)))))
sat_arith_u w sulsr l r = some (make_u w (uget w l / 2 ^ shift_amount w (to_signed w64 (uget w r))))
sat_arith_u w _ l r = none
