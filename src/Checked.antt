-- ===== src/Checked.antt =====
-- src/interpreter/internal/operations.h: Arith on Checked operations, which raise an exception where
-- the result does not fit. `__builtin_*_overflow` stores the wrapped result and tells whether the
-- exact one fits. CPOW is not modelled.
pub mod Exact
pub mod Runs
use cbc_engine.Prelude.{ℕ, zero, suc, ◌+◌, ◌-◌, ◌*◌, ◌/◌, ◌%◌, ◌^◌, ltb, leb, ◌==◌, if◌then◌else◌}
use cbc_engine.Prelude.{Bool, true, false, not, ◌&&◌, ◌||◌}
use cbc_engine.Prelude.Int.{ℤ, pos, negsuc, ◌+ℤ◌, ◌-ℤ◌, ◌*ℤ◌}
use cbc_engine.Word.{Width, bits, smin, modulus, uget, sget, make_u, make_s}
use cbc_engine.Word.{to_signed, to_unsigned, quotient, shift_right}
use cbc_engine.Saturating.{is_zero, is_minus_one, out_of_range}

-- src/interpreter/implicit_exceptions.h
pub data ExceptionType : Type 0 where
  successful none_value arithmetic overflow spawn : ExceptionType
  add_overflow sub_overflow mul_overflow div_overflow pow_overflow : ExceptionType
  lsh_overflow rsh_overflow ash_overflow neg_overflow : ExceptionType
  lsh_negative_shift rsh_negative_shift ash_negative_shift : ExceptionType
  cast_inf_or_nan : ExceptionType
  cast_i8_min cast_i8_max cast_u8_min cast_u8_max : ExceptionType
  cast_i16_min cast_i16_max cast_u16_min cast_u16_max : ExceptionType
  cast_i32_min cast_i32_max cast_u32_min cast_u32_max : ExceptionType
  cast_i64_min cast_i64_max cast_u64_min cast_u64_max : ExceptionType
  index_out_of_bounds : ExceptionType

-- Cbc::Format::Checked, without CPOW, and without CNEG, at which Arith fails (FATAL).
pub data CheckedOp : Type 0 where
  cadd csub cmul cdiv cuadd cusub cumul clsl clsr casr : CheckedOp

pub record CheckedResult : Type 0 where
  pub result : ℕ
  pub exception : ExceptionType

-- `stype result` after `__builtin_*_overflow` on the exact value, and after it on unsigned operands.
abbrev pub wrapped : Width → ℤ → ℤ
wrapped w z = to_signed w (to_unsigned w z)

abbrev pub raise_if : Bool → ExceptionType → ExceptionType
raise_if b e = if b then e else successful

abbrev pub overflowing : Width → ℤ → ExceptionType → CheckedResult
overflowing w z e = record {
  result = make_s w (wrapped w z);
  exception = raise_if (out_of_range w z) e;
}

-- The two shift checks, in the order of the code.
abbrev pub check_shift : Width → ℤ → ExceptionType → ExceptionType → ℕ → (ℕ → ℕ) → CheckedResult
check_shift w (pos n) too_far negative l shift =
    if ltb n (bits w)
    then record { result = shift n; exception = successful }
    else record { result = l; exception = too_far }
check_shift w (negsuc n) too_far negative l shift = record { result = l; exception = negative }

pub checked_arith : Width → CheckedOp → ℕ → ℕ → CheckedResult
checked_arith w cadd l r = overflowing w (sget w l +ℤ sget w r) add_overflow
checked_arith w csub l r = overflowing w (sget w l -ℤ sget w r) sub_overflow
checked_arith w cmul l r = overflowing w (sget w l *ℤ sget w r) mul_overflow
checked_arith w cdiv l r =
    if is_zero (sget w r)
    then record { result = l; exception = arithmetic }
    else if is_zero (sget w l -ℤ smin w) && is_minus_one (sget w r)
    then record { result = l; exception = div_overflow }
    else record { result = make_s w (quotient (sget w l) (sget w r)); exception = successful }
checked_arith w cuadd l r = record {
  result = make_u w ((uget w l + uget w r) % modulus w);
  exception = raise_if (leb (modulus w) (uget w l + uget w r)) add_overflow;
}
checked_arith w cusub l r = record {
  result = make_u w ((uget w l + modulus w - uget w r) % modulus w);
  exception = raise_if (ltb (uget w l) (uget w r)) sub_overflow;
}
checked_arith w cumul l r = record {
  result = make_u w (uget w l * uget w r % modulus w);
  exception = raise_if (leb (modulus w) (uget w l * uget w r)) mul_overflow;
}
checked_arith w clsl l r =
    check_shift w (sget w r) lsh_overflow lsh_negative_shift l
      (λ n. make_u w (uget w l * 2 ^ n % modulus w))
checked_arith w clsr l r =
    check_shift w (sget w r) rsh_overflow rsh_negative_shift l (λ n. make_u w (uget w l / 2 ^ n))
checked_arith w casr l r =
    check_shift w (sget w r) ash_overflow ash_negative_shift l
      (λ n. make_s w (shift_right (sget w l) n))
