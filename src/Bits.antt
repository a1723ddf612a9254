-- ===== src/Bits.antt =====
-- src/utils/math.h: alignment, fields and extensions on `uint32_t` and `uint64_t`. A width parameter
-- is a number; a shift by the whole width, which C++ leaves undefined, is under a test here as there.
pub mod Fields
pub mod Extension
pub mod Runs
use cbc_engine.Prelude.{ℕ, ◌+◌, ◌-◌, ◌*◌, ◌/◌, ◌%◌, ◌^◌, leb, ◌==◌, if◌then◌else◌}
use cbc_engine.Prelude.{Bool, true, ◌&&◌, Option, none, some, bit_and, bit_or, bit_xor}
use cbc_engine.Prelude.Int.{ℤ, pos, negsuc}
use cbc_engine.Word.{w64, sget, shift_right}

-- AlignDown and AlignUp, on `uint32_t`.
pub align_down : ℕ → ℕ → ℕ
align_down value alignment = value / alignment * alignment

pub align_up : ℕ → ℕ → ℕ
unfolding align_down
align_up value alignment = align_down ((value + alignment + (2 ^ 32 - 1)) % 2 ^ 32) alignment

-- IsNBits
pub is_n_bits : ℕ → ℕ → Bool
is_n_bits value bits = if bits == 64 then true else value / 2 ^ bits == 0

-- RightNBits64 and RightNBits32.
-- RightNBits64: the test keeps the shift by 64, which C++ leaves undefined, from being reached.
pub right_n_bits_64 : ℕ → ℕ
right_n_bits_64 n = if n == 64 then 2 ^ 64 - 1 else 2 ^ n - 1

pub right_n_bits_32 : ℕ → ℕ
right_n_bits_32 n = (if n == 32 then 2 ^ 64 - 1 else 2 ^ n - 1) % 2 ^ 32

-- ZeroExtend on both types.
pub zero_extend_32 : ℕ → ℕ → ℕ
unfolding right_n_bits_32
zero_extend_32 value bits = bit_and value (right_n_bits_32 bits)

pub zero_extend_64 : ℕ → ℕ → ℕ
unfolding right_n_bits_64
zero_extend_64 value bits = bit_and value (right_n_bits_64 bits)

-- SignExtend on `uint64_t`.
pub sign_extend_64 : ℕ → ℕ → ℕ
sign_extend_64 value bits =
    if bits == 64
    then value
    else (bit_xor (bit_and value (2 ^ bits - 1)) (2 ^ (bits - 1)) + 2 ^ 64 - 2 ^ (bits - 1))
      % 2 ^ 64

-- IsNBitsSigned on `uint64_t`: the shift of the signed value leaves 0 or -1.
unfoldable pub is_sign : ℤ → Bool
is_sign (pos n) = n == 0
is_sign (negsuc n) = n == 0

unfoldable pub is_n_bits_signed_64 : ℕ → ℕ → Bool
unfolding is_sign sget
is_n_bits_signed_64 value bits =
    if bits == 64 then true else is_sign (shift_right (sget w64 value) (bits - 1))

-- RotateRight64
pub rotate_right_64 : ℕ → ℕ → ℕ
unfolding right_n_bits_64
rotate_right_64 value dist =
    bit_or (bit_and (value / 2 ^ dist) (right_n_bits_64 (64 - dist)))
      (value * 2 ^ (64 - dist) % 2 ^ 64)

-- Bits; `none` is a failed ASSERTION.
pub bits : ℕ → ℕ → ℕ → Option ℕ
unfolding right_n_bits_64
bits value from to =
    if leb from 63 && (leb to 63 && leb from to)
    then some (bit_and (value / 2 ^ from) (right_n_bits_64 (to - from + 1)))
    else none
