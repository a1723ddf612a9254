-- ===== src/Casts.antt =====
-- src/interpreter/casts.h: casts between the integer types, unchecked (CastPrim) and checked
-- (CheckedCastPrim), and checked casts from a floating-point number. A `double` is a parameter: the
-- casts ask whether it is finite and for its truncation, an exact integer, which is compared with
-- bounds that a `double` holds exactly. Unchecked casts from and to floating point are not modelled.
-- `none` is an unsupported cast, which fails an ASSERTION (with NDEBUG it answers 0).
pub mod Exact
pub mod Wraps
pub mod Runs
use cbc_engine.Prelude.{ℕ, zero, suc, ltb, if◌then◌else◌}
use cbc_engine.Prelude.{Bool, true, false, not, ◌&&◌, ◌/◌, ◌-◌, Option, none, some}
use cbc_engine.Prelude.Int.{ℤ, pos, negsuc, ltb_ℤ}
use cbc_engine.Word.{Width, w8, w16, w32, w64, bits, smin, smax, umax, uget, sget}
use cbc_engine.Word.{to_signed, to_unsigned, modulus}
use cbc_engine.Checked.{ExceptionType, successful, cast_inf_or_nan}
use cbc_engine.Checked.{cast_i8_min, cast_i8_max, cast_u8_min, cast_u8_max}
use cbc_engine.Checked.{cast_i16_min, cast_i16_max, cast_u16_min, cast_u16_max}
use cbc_engine.Checked.{cast_i32_min, cast_i32_max, cast_u32_min, cast_u32_max}
use cbc_engine.Checked.{cast_i64_min, cast_i64_max, cast_u64_min, cast_u64_max}

-- The integral cases of Cbc::Format::ConvertType: a signed or an unsigned type of a width.
pub data IntType : Type 0 where
  signed unsigned : Width → IntType

abbrev pub type_width : IntType → Width
type_width (signed w) = w
type_width (unsigned w) = w

pub record CheckedCastResult : Type 0 where
  pub value : ℕ
  pub exception : ExceptionType

-- `static_cast<To>` of an integer, and the value as an integer again.
abbrev pub convert : IntType → ℤ → ℤ
convert (signed w) z = to_signed w (to_unsigned w z)
convert (unsigned w) z = pos (to_unsigned w z)

-- MakeIntPrim: `static_cast<uint64_t>(value)`.
abbrev pub make_int_prim : ℤ → ℕ
make_int_prim z = to_unsigned w64 z

-- CastInt: `Narrow` is the source type where that is smaller than the target.
pub cast_int : IntType → IntType → ℤ → ℕ
cast_int to from z =
    make_int_prim
      (convert (if ltb (bits (type_width from)) (bits (type_width to)) then from else to) z)

-- The integral cases of CastFrom32, CastFromI64 and CastFromU64, and of CastPrim.
pub cast_from_32 : IntType → IntType → ℤ → Option ℕ
unfolding cast_int
cast_from_32 (signed w8) from z = some (cast_int (signed w8) from z)
cast_from_32 (unsigned w8) from z = some (cast_int (unsigned w8) from z)
cast_from_32 (signed w16) from z = some (cast_int (signed w16) from z)
cast_from_32 (unsigned w16) from z = some (cast_int (unsigned w16) from z)
cast_from_32 (signed w64) from z = some (cast_int (signed w64) from z)
cast_from_32 _ from z = none

pub cast_from_i64 : IntType → ℤ → Option ℕ
unfolding cast_int
cast_from_i64 (signed w32) z = some (cast_int (signed w32) (signed w64) z)
cast_from_i64 _ z = none

pub cast_from_u64 : IntType → ℤ → Option ℕ
unfolding cast_int
cast_from_u64 (signed w32) z = some (cast_int (signed w32) (unsigned w64) z)
cast_from_u64 (unsigned w32) z = some (cast_int (unsigned w32) (unsigned w64) z)
cast_from_u64 _ z = none

pub cast_prim : IntType → IntType → ℕ → Option ℕ
unfolding cast_from_32 cast_from_i64 cast_from_u64
cast_prim to (signed w32) p = cast_from_32 to (signed w32) (sget w32 p)
cast_prim to (unsigned w32) p = cast_from_32 to (unsigned w32) (pos (uget w32 p))
cast_prim to (signed w64) p = cast_from_i64 to (sget w64 p)
cast_prim to (unsigned w64) p = cast_from_u64 to (pos (uget w64 p))
cast_prim to _ p = none

-- CheckedCastOverflow<To>
abbrev pub min_exception : IntType → ExceptionType
min_exception (signed w8) = cast_i8_min
min_exception (unsigned w8) = cast_u8_min
min_exception (signed w16) = cast_i16_min
min_exception (unsigned w16) = cast_u16_min
min_exception (signed w32) = cast_i32_min
min_exception (unsigned w32) = cast_u32_min
min_exception (signed w64) = cast_i64_min
min_exception (unsigned w64) = cast_u64_min

abbrev pub max_exception : IntType → ExceptionType
max_exception (signed w8) = cast_i8_max
max_exception (unsigned w8) = cast_u8_max
max_exception (signed w16) = cast_i16_max
max_exception (unsigned w16) = cast_u16_max
max_exception (signed w32) = cast_i32_max
max_exception (unsigned w32) = cast_u32_max
max_exception (signed w64) = cast_i64_max
max_exception (unsigned w64) = cast_u64_max

abbrev pub overflowed : ExceptionType → CheckedCastResult
overflowed e = record { value = 0; exception = e }

abbrev pub succeeded : IntType → ℤ → CheckedCastResult
succeeded to z = record { value = make_int_prim (convert to z); exception = successful }

-- `sizeof(To) < sizeof(uint64_t)`
abbrev pub is_narrow : Width → Bool
is_narrow w64 = false
is_narrow _ = true

pub checked_cast_from_signed : IntType → ℤ → CheckedCastResult
checked_cast_from_signed (signed w) z =
    if ltb_ℤ z (smin w)
    then overflowed (min_exception (signed w))
    else if ltb_ℤ (smax w) z
    then overflowed (max_exception (signed w))
    else succeeded (signed w) z
checked_cast_from_signed (unsigned w) z =
    if ltb_ℤ z (pos 0)
    then overflowed (min_exception (unsigned w))
    else if is_narrow w && ltb (umax w) (to_unsigned w64 z)
    then overflowed (max_exception (unsigned w))
    else succeeded (unsigned w) z

pub checked_cast_from_unsigned : IntType → ℕ → CheckedCastResult
checked_cast_from_unsigned (signed w) n =
    if ltb_ℤ (smax w) (pos n)
    then overflowed (max_exception (signed w))
    else succeeded (signed w) (pos n)
checked_cast_from_unsigned (unsigned w) n =
    if is_narrow w && ltb (umax w) n
    then overflowed (max_exception (unsigned w))
    else succeeded (unsigned w) (pos n)

-- CheckedCastFromIntegral. CheckedCastFromSignedTo and CheckedCastFromUnsignedTo only name `To`.
pub checked_cast_from_integral : IntType → IntType → ℕ → CheckedCastResult
unfolding checked_cast_from_signed checked_cast_from_unsigned
checked_cast_from_integral to (signed w) p = checked_cast_from_signed to (sget w p)
checked_cast_from_integral to (unsigned w) p = checked_cast_from_unsigned to (uget w p)

-- FpIntBounds: `upper` is one past the largest value.
abbrev pub upper : IntType → ℤ
upper (signed w) = pos (modulus w / 2)
upper (unsigned w) = pos (modulus w)

abbrev pub lower : IntType → ℤ
lower (signed w) = negsuc (modulus w / 2 - 1)
lower (unsigned w) = pos 0

module _ {ℓ} (Double : Type ℓ) (is_finite : Double → Bool) (trunc : Double → ℤ) where
  -- CheckedCastFromFp; CheckedCastFromFloating only names `To`.
  pub checked_cast_from_fp : IntType → Double → CheckedCastResult
  checked_cast_from_fp to x =
      if not (is_finite x)
      then overflowed cast_inf_or_nan
      else if ltb_ℤ (trunc x) (lower to)
      then overflowed (min_exception to)
      else if not (ltb_ℤ (trunc x) (upper to))
      then overflowed (max_exception to)
      else succeeded to (trunc x)
