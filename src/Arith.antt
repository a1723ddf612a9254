-- ===== src/Arith.antt =====
-- src/interpreter/internal/operations.h: Arith on the Common operations, at 32 and 64 bits (one
-- definition here for both instances), PowWrapping, and Compare on numbers.
pub mod Power
pub mod Division
pub mod Runs
use cbc_engine.Prelude.{ℕ, zero, suc, ◌+◌, ◌-◌, ◌*◌, ◌/◌, ◌%◌, ◌^◌, ltb, leb, ◌==◌, if◌then◌else◌}
use cbc_engine.Prelude.{
  Bool, true, false, not, ◌&&◌, ◌||◌, Option, none, some, bit_and, bit_or, bit_xor,
}
use cbc_engine.Prelude.Int.{ℤ, pos, negsuc, ltb_ℤ, ◌-ℤ◌}
use cbc_engine.Word.{Width, bits, smin, modulus, uget, sget, make_u, make_s}
use cbc_engine.Word.{quotient, remainder, shift_right}
use cbc_engine.Saturating.{is_zero, is_minus_one, is_odd}

pub data CommonOp : Type 0 where
  add sub mul land lor lxor lsr lsl pow asr udiv urem sdiv srem : CommonOp

pub record ArithmeticResult : Type 0 where
  pub result : ℕ
  pub successful : Bool

abbrev pub word : ℕ
word = 2 ^ 64

-- `while (exp > 0)` of PowWrapping on `uint64_t`; `none` means that the fuel ran out.
pub pow_wrapping_loop : ℕ → ℕ → ℕ → ℕ → Option ℕ
pow_wrapping_loop zero base exp result = if exp == 0 then some result else none
pow_wrapping_loop (suc fuel) base exp result =
    let rest =
      pow_wrapping_loop fuel (base * base % word) (exp / 2)
        (if is_odd exp then result * base % word else result) in
    if exp == 0 then some result else rest

-- An exponent has at most 64 bits.
pub pow_wrapping : ℕ → ℕ → Option ℕ
unfolding pow_wrapping_loop
pow_wrapping base exp = pow_wrapping_loop 64 base exp 1

abbrev done : ℕ → Option ArithmeticResult
done n = some (record { result = n; successful = true })

abbrev failed : ℕ → Option ArithmeticResult
failed n = some (record { result = n; successful = false })

abbrev made : Width → Option ℕ → Option ArithmeticResult
made w none = none
made w (some n) = some (record { result = make_u w (n % modulus w); successful = true })

-- `none` only where the fuel of PowWrapping ran out.
pub arith_op : Width → CommonOp → ℕ → ℕ → Option ArithmeticResult
arith_op w add l r = done (make_u w ((uget w l + uget w r) % modulus w))
arith_op w sub l r = done (make_u w ((uget w l + modulus w - uget w r) % modulus w))
arith_op w mul l r = done (make_u w (uget w l * uget w r % modulus w))
arith_op w land l r = done (make_u w (bit_and (uget w l) (uget w r)))
arith_op w lor l r = done (make_u w (bit_or (uget w l) (uget w r)))
arith_op w lxor l r = done (make_u w (bit_xor (uget w l) (uget w r)))
arith_op w lsr l r = done (make_u w (uget w l / 2 ^ bit_and (uget w r) (bits w - 1)))
arith_op w lsl l r = done (make_u w (uget w l * 2 ^ bit_and (uget w r) (bits w - 1) % modulus w))
arith_op w pow l r = made w (pow_wrapping (uget w l) (uget w r))
arith_op w asr l r = done (make_s w (shift_right (sget w l) (bit_and (uget w r) (bits w - 1))))
arith_op w udiv l r = if uget w r == 0 then failed l else done (make_u w (uget w l / uget w r))
arith_op w urem l r = if uget w r == 0 then failed l else done (make_u w (uget w l % uget w r))
arith_op w sdiv l r =
    if is_zero (sget w r)
    then failed l
    else if is_zero (sget w l -ℤ smin w) && is_minus_one (sget w r)
    then done l
    else done (make_s w (quotient (sget w l) (sget w r)))
arith_op w srem l r =
    if is_zero (sget w r)
    then failed l
    else if is_zero (sget w l -ℤ smin w) && is_minus_one (sget w r)
    then done 0
    else done (make_s w (remainder (sget w l) (sget w r)))

-- Cbc::Format::CC, the conditions on numbers.
pub data Condition : Type 0 where
  eq ne lt ge ult uge testz testnz : Condition

pub compare_op : Condition → Width → ℕ → ℕ → Bool
compare_op eq w l r = uget w l == uget w r
compare_op ne w l r = not (uget w l == uget w r)
compare_op lt w l r = ltb_ℤ (sget w l) (sget w r)
compare_op ge w l r = not (ltb_ℤ (sget w l) (sget w r))
compare_op ult w l r = ltb (uget w l) (uget w r)
compare_op uge w l r = leb (uget w r) (uget w l)
compare_op testz w l r = bit_and (uget w l) (uget w r) == 0
compare_op testnz w l r = not (bit_and (uget w l) (uget w r) == 0)
