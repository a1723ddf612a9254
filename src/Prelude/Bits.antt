-- ===== src/Prelude/Bits.antt =====
-- Masks and disjoint fields of a word as arithmetic, at every width. The native operations mean
-- the library's recursion `digits` on binary digits, which takes fuel.
use Prim.Native.Nat.{digits, differ, bit_and-bitwise, bit_or-bitwise, bit_xor-bitwise, bit_xor}
use native.Mathlib.Nat.{pow-suc, one-le-pow, div-add-mod, div-div-eq-div-mul}
use cbc_engine.Prelude.{ℕ, zero, suc, ◌+◌, ◌-◌, ◌*◌, ◌/◌, ◌%◌, ◌^◌, ◌≤◌, ◌<◌, min, max}
use cbc_engine.Prelude.{bit_and, bit_or, ◌≡◌, refl, ap, ◌∙◌, arith}

module _ (z : ℕ → ℕ) (f : ℕ → ℕ → ℕ) where
  -- Fuel past the first operand changes nothing.
  digits-enough : (a b k : ℕ) (l : ℕ) → a ≤ k → a ≤ l → digits z f k a b ≡ digits z f l a b
  digits-enough zero b zero zero p q = refl
  digits-enough zero b zero (suc l) p q = refl
  digits-enough zero b (suc k) zero p q = refl
  digits-enough zero b (suc k) (suc l) p q = refl
  digits-enough (suc a) b zero l p q = absurd (omega arith)
  digits-enough (suc a) b (suc k) zero p q = absurd (omega arith)
  digits-enough (suc a) b (suc k) (suc l) p q =
      rw (digits-enough (suc a / 2) (b / 2) k l (omega arith) (omega arith))

pub bit_or_digit : (a b : ℕ) → bit_or a b ≡ bit_or (a / 2) (b / 2) * 2 + max (a % 2) (b % 2)
bit_or_digit zero b = omega (arith, bit_or-bitwise 0 b, bit_or-bitwise 0 (b / 2))
bit_or_digit (suc a) b = omega (
  arith,
  bit_or-bitwise (suc a) b,
  bit_or-bitwise (suc a / 2) (b / 2),
  digits-enough (λ y. y) max (suc a / 2) (b / 2) a (suc a / 2) (omega arith) (omega arith),
)

pub bit_and_digit : (a b : ℕ) → bit_and a b ≡ bit_and (a / 2) (b / 2) * 2 + min (a % 2) (b % 2)
bit_and_digit zero b = omega (arith, bit_and-bitwise 0 b, bit_and-bitwise 0 (b / 2))
bit_and_digit (suc a) b = omega (
  arith,
  bit_and-bitwise (suc a) b,
  bit_and-bitwise (suc a / 2) (b / 2),
  digits-enough (λ y. 0) min (suc a / 2) (b / 2) a (suc a / 2) (omega arith) (omega arith),
)

-- An operand with no digit left.
or_nothing : (n a : ℕ) → a ≤ n → bit_or a 0 ≡ a
or_nothing n zero h = refl
or_nothing zero (suc a) h = absurd (omega arith)
or_nothing (suc n) (suc a) h =
    omega (arith, bit_or_digit (suc a) 0, or_nothing n (suc a / 2) (omega arith))

and_nothing : (n a : ℕ) → a ≤ n → bit_and a 0 ≡ 0
and_nothing n zero h = refl
and_nothing zero (suc a) h = absurd (omega arith)
and_nothing (suc n) (suc a) h =
    omega (arith, bit_and_digit (suc a) 0, and_nothing n (suc a / 2) (omega arith))

double : (q k : ℕ) → q * 2 ^ suc k ≡ q * 2 ^ k * 2
double q k = omega (arith, ap (λ (t : ℕ). q * t) (pow-suc 2 k))

-- `a | (b << k)` is a sum where `a` lies below bit `k`.
pub bit_or-shifted : (k a b : ℕ) → a < 2 ^ k → bit_or a (b * 2 ^ k) ≡ a + b * 2 ^ k
bit_or-shifted zero a b h = ground (arith, bit_or-bitwise 0 b)
bit_or-shifted (suc k) a b h = omega (
  arith,
  double b k,
  pow-suc 2 k,
  bit_or_digit a (b * 2 ^ suc k),
  ap (λ (t : ℕ). bit_or (a / 2) t) halved,
  bit_or-shifted k (a / 2) b (omega (arith, pow-suc 2 k)),
)
  where
    halved : b * 2 ^ suc k / 2 ≡ b * 2 ^ k
    halved = omega (arith, double b k)

-- A mask of the `k` lowest bits is the remainder by `2 ^ k`.
pub bit_and-mask : (k a : ℕ) → bit_and a (2 ^ k - 1) ≡ a % 2 ^ k
bit_and-mask zero a = omega (arith, and_nothing a a)
bit_and-mask (suc k) a = omega (
  arith,
  one-le-pow k 2,
  pow-suc 2 k,
  bit_and_digit a (2 ^ suc k - 1),
  ap (λ (t : ℕ). bit_and (a / 2) t) halved,
  bit_and-mask k (a / 2),
  low,
)
  where
    halved : (2 ^ suc k - 1) / 2 ≡ 2 ^ k - 1
    halved = omega (arith, pow-suc 2 k, one-le-pow k 2)

    low : a % 2 ^ suc k ≡ a / 2 % 2 ^ k * 2 + a % 2
    low = grind (arith, double (a / 2 / 2 ^ k) k, div-add-mod (a / 2) (2 ^ k), pow-suc 2 k)

-- The same with the higher operand first.
pub shifted-bit_or : (k a b : ℕ) → a < 2 ^ k → bit_or (b * 2 ^ k) a ≡ b * 2 ^ k + a
shifted-bit_or zero a b h =
    let none_left : a ≡ 0 = omega arith in
    rw none_left (or_nothing (b * 2 ^ 0) (b * 2 ^ 0) (omega arith) ∙ omega arith)
shifted-bit_or (suc k) a b h = omega (
  arith,
  double b k,
  pow-suc 2 k,
  bit_or_digit (b * 2 ^ suc k) a,
  ap (λ (t : ℕ). bit_or t (a / 2)) halved,
  shifted-bit_or k (a / 2) b (omega (arith, pow-suc 2 k)),
)
  where
    halved : b * 2 ^ suc k / 2 ≡ b * 2 ^ k
    halved = omega (arith, double b k)

-- One bit.
pub bit_and-single : (k a : ℕ) → bit_and a (2 ^ k) ≡ a / 2 ^ k % 2 * 2 ^ k
bit_and-single zero a = bit_and-mask 1 a ∙ omega arith
bit_and-single (suc k) a = omega (
  arith,
  one-le-pow k 2,
  bit_and_digit a (2 ^ suc k),
  ap (λ (t : ℕ). bit_and (a / 2) t) halved,
  bit_and-single k (a / 2),
  pow-suc 2 k,
  low,
)
  where
    halved : 2 ^ suc k / 2 ≡ 2 ^ k
    halved = omega (arith, pow-suc 2 k)

    low : a / 2 ^ suc k % 2 * 2 ^ suc k ≡ a / 2 / 2 ^ k % 2 * 2 ^ k * 2
    low = rw same (double (a / 2 ^ suc k % 2) k)
      where
        same : a / 2 / 2 ^ k ≡ a / 2 ^ suc k
        same = div-div-eq-div-mul a 2 (2 ^ k) ∙ ap (λ (t : ℕ). a / t) (omega (arith, pow-suc 2 k))

-- Exclusive or.
bit_xor_digit : (a b : ℕ) → bit_xor a b ≡ bit_xor (a / 2) (b / 2) * 2 + differ (a % 2) (b % 2)
bit_xor_digit zero b = omega (arith, bit_xor-bitwise 0 b, bit_xor-bitwise 0 (b / 2))
bit_xor_digit (suc a) b = omega (
  arith,
  bit_xor-bitwise (suc a) b,
  bit_xor-bitwise (suc a / 2) (b / 2),
  digits-enough (λ y. y) differ (suc a / 2) (b / 2) a (suc a / 2) (omega arith) (omega arith),
)

differ_one : (x : ℕ) → x < 2 → differ x 1 ≡ 1 - x
differ_one zero h = refl
differ_one (suc zero) h = refl
differ_one (suc (suc x)) h = absurd (omega arith)

differ_zero : (x : ℕ) → differ x 0 ≡ x
differ_zero zero = refl
differ_zero (suc x) = refl

xor_nothing : (n a : ℕ) → a ≤ n → bit_xor a 0 ≡ a
xor_nothing n zero h = refl
xor_nothing zero (suc a) h = absurd (omega arith)
xor_nothing (suc n) (suc a) h = omega (
  arith,
  bit_xor_digit (suc a) 0,
  differ_zero (suc a % 2),
  xor_nothing n (suc a / 2) (omega arith),
)

-- One bit is flipped.
pub bit_xor-single : (k a : ℕ) → bit_xor a (2 ^ k) + a / 2 ^ k % 2 * 2 ^ suc k ≡ a + 2 ^ k
bit_xor-single zero a = omega (
  arith,
  bit_xor_digit a 1,
  xor_nothing (a / 2) (a / 2) (omega arith),
  differ_one (a % 2) (omega arith),
)
bit_xor-single (suc k) a = omega (
  arith,
  bit_xor_digit a (2 ^ suc k),
  ap (λ (t : ℕ). bit_xor (a / 2) t) halved,
  ap (λ (t : ℕ). differ (a % 2) t) even,
  differ_zero (a % 2),
  bit_xor-single k (a / 2),
  pow-suc 2 k,
  high,
)
  where
    halved : 2 ^ suc k / 2 ≡ 2 ^ k
    halved = omega (arith, pow-suc 2 k)

    even : 2 ^ suc k % 2 ≡ 0
    even = omega (arith, pow-suc 2 k)

    high : a / 2 ^ suc k % 2 * 2 ^ suc (suc k) ≡ a / 2 / 2 ^ k % 2 * 2 ^ suc k * 2
    high = rw same (double (a / 2 ^ suc k % 2) (suc k))
      where
        same : a / 2 / 2 ^ k ≡ a / 2 ^ suc k
        same = div-div-eq-div-mul a 2 (2 ^ k) ∙ ap (λ (t : ℕ). a / t) (omega (arith, pow-suc 2 k))
