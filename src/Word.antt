-- ===== src/Word.antt =====
-- src/interpreter/internal/operations.h, WidthTraits: a primitive value read and written at a
-- width. A `Value::Primitive` is the number of its 64 bits; a write of its 32-bit member leaves the
-- upper half 0 here, which no read at the same width sees. Signed numbers are integers.
pub mod Laws
pub mod Division
use cbc_engine.Prelude.{ℕ, zero, suc, ◌+◌, ◌-◌, ◌*◌, ◌/◌, ◌%◌, ◌^◌, ltb, if◌then◌else◌}
use cbc_engine.Prelude.Int.{ℤ, pos, negsuc, ltb_ℤ, ◌≤ℤ◌}

-- Cbc::Format::Width and its NBits.
pub data Width : Type 0 where
  w8 w16 w32 w64 : Width

abbrev pub bits : Width → ℕ
bits w8 = 8
bits w16 = 16
bits w32 = 32
bits w64 = 64

abbrev pub modulus : Width → ℕ
modulus w = 2 ^ bits w

-- 2 ^ (bits - 1)
abbrev pub half : Width → ℕ
half w8 = 2 ^ 7
half w16 = 2 ^ 15
half w32 = 2 ^ 31
half w64 = 2 ^ 63

-- `std::numeric_limits` of the signed type.
abbrev pub smax : Width → ℤ
smax w = pos (half w - 1)

abbrev pub smin : Width → ℤ
smin w = negsuc (half w - 1)

abbrev pub umax : Width → ℕ
umax w = modulus w - 1

-- The integer that a bit pattern below 2 ^ bits stands for, and the pattern of an integer cast to
-- the unsigned type.
abbrev pub to_signed : Width → ℕ → ℤ
to_signed w n = if ltb n (half w) then pos n else negsuc (modulus w - 1 - n)

abbrev pub to_unsigned : Width → ℤ → ℕ
to_unsigned w (pos n) = n % modulus w
to_unsigned w (negsuc n) = modulus w - 1 - n % modulus w

-- The member of the union that a width uses: `u32` up to 32 bits.
abbrev pub carrier : Width → Width
carrier w64 = w64
carrier _ = w32

-- WidthTraits::uget, sget, and make on the unsigned and on the signed type.
unfoldable pub uget : Width → ℕ → ℕ
uget w p = p % modulus w

unfoldable pub sget : Width → ℕ → ℤ
unfolding uget
sget w p = to_signed w (uget w p)

unfoldable pub make_u : Width → ℕ → ℕ
make_u w v = v

unfoldable pub make_s : Width → ℤ → ℕ
make_s w v = to_unsigned (carrier w) v

abbrev pub InRange : Width → ℤ → Type 0
InRange w z = (smin w ≤ℤ z) × (z ≤ℤ smax w)

-- The nearest value of the signed type.
abbrev pub clamp : Width → ℤ → ℤ
clamp w z = if ltb_ℤ z (smin w) then smin w else if ltb_ℤ (smax w) z then smax w else z

-- C++ `/` and `%` on integers: the quotient is rounded towards zero.
abbrev pub signed_by : ℤ → ℕ → ℤ
signed_by (pos s) m = pos m
signed_by (negsuc s) zero = pos 0
signed_by (negsuc s) (suc m) = negsuc m

abbrev pub magnitude : ℤ → ℕ
magnitude (pos n) = n
magnitude (negsuc n) = suc n

abbrev pub negate : ℤ → ℤ
negate (pos zero) = pos 0
negate (pos (suc n)) = negsuc n
negate (negsuc n) = pos (suc n)

unfoldable pub quotient : ℤ → ℤ → ℤ
quotient a (pos n) = signed_by a (magnitude a / n)
quotient a (negsuc n) = negate (signed_by a (magnitude a / suc n))

unfoldable pub remainder : ℤ → ℤ → ℤ
remainder a b = signed_by a (magnitude a % magnitude b)

-- An arithmetic shift to the right.
abbrev pub shift_right : ℤ → ℕ → ℤ
shift_right (pos n) k = pos (n / 2 ^ k)
shift_right (negsuc n) k = negsuc (n / 2 ^ k)
