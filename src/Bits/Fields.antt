-- ===== src/Bits/Fields.antt =====
-- What alignment, bit fields and rotations compute.
use cbc_engine.Prelude.{ℕ, zero, suc, ◌+◌, ◌-◌, ◌*◌, ◌/◌, ◌%◌, ◌^◌, ◌≤◌, ◌<◌, leb, ◌==◌}
use cbc_engine.Prelude.{true, ◌≡◌, sym, ap, ◌∙◌, arith, some, bit_and, Bool-cases, inl, inr}
use cbc_engine.Prelude.Bits.{bit_and-mask, bit_or-shifted}
use native.Mathlib.Nat.{
  pow-suc, pow-zero, one-le-pow, div-add-mod, mod-eq_of_lt, add-mul-mod_self_right,
}
use native.Mathlib.Nat.{lt-div-mul-add, div-mul-le_self, mul-mod_left}
use cbc_engine.Bits.{align_down, align_up, bits, right_n_bits_64, rotate_right_64}

-- AlignUp answers with the least multiple of the alignment that is not below the value, where the
-- sum does not leave 32 bits.
pub align_up-least :
    (value alignment : ℕ)
    → 0 < alignment
    → value + alignment ≤ 2 ^ 32
    → (value ≤ align_up value alignment)
      × (align_up value alignment < value + alignment)
      × (align_up value alignment % alignment ≡ 0)
unfolding align_up align_down
align_up-least value alignment h fits = rw rounded (
  omega (arith, lt-div-mul-add {a = value + alignment - 1} h),
  omega (arith, div-mul-le_self (value + alignment - 1) alignment),
  mul-mod_left ((value + alignment - 1) / alignment) alignment,
)
  where
    rounded : (value + alignment + (2 ^ 32 - 1)) % 2 ^ 32 ≡ value + alignment - 1
    rounded = omega arith

right_n_bits_64-ones : (n : ℕ) → n ≤ 64 → right_n_bits_64 n ≡ 2 ^ n - 1
unfolding right_n_bits_64
right_n_bits_64-ones n h = elim (Bool-cases (n == 64)) [
  | inl e ↦ let whole : n ≡ 64 = ground arith in rw (e, whole)
  | inr e ↦ rw e
]

low : (value n : ℕ) → n ≤ 64 → bit_and value (right_n_bits_64 n) ≡ value % 2 ^ n
low value n h = rw (right_n_bits_64-ones n h) (bit_and-mask n value)

-- Bits answers with the field from one bit to another, both included.
pub bits-field :
    (value from to : ℕ)
    → from ≤ to
    → to ≤ 63
    → bits value from to ≡ some (value / 2 ^ from % 2 ^ (to - from + 1))
unfolding bits
bits-field value from to h k =
    let a : leb from 63 ≡ true = ground arith in
    let b : leb to 63 ≡ true = ground arith in
    let c : leb from to ≡ true = ground arith in
    rw (a, b, c) (ap some (low (value / 2 ^ from) (to - from + 1) (omega arith)))

split_mod : (v p q m : ℕ) → p * q ≡ m → 0 < p → 0 < q → v * q % m ≡ v % p * q
split_mod v p q m e h k =
    ap (λ (t : ℕ). v * q % t) (sym e)
    ∙ ap (λ (t : ℕ). t % (p * q)) whole
    ∙ add-mul-mod_self_right (v % p * q) (v / p) (p * q)
    ∙ mod-eq_of_lt (below (v % p) p q (omega (arith, h)) k)
  where
    whole : v * q ≡ v % p * q + v / p * (p * q)
    whole = grind (arith, ap (λ (t : ℕ). t * q) (div-add-mod v p))

    below : (a p q : ℕ) → a < p → 0 < q → a * q < p * q
    below a p q h k = grind arith

pow_sum : (a b : ℕ) → 2 ^ a * 2 ^ b ≡ 2 ^ (b + a)
pow_sum a zero = let same : 0 + a ≡ a = omega arith in rw (same, pow-zero 2) (omega arith)
pow_sum a (suc b) =
    grind (arith, pow-suc 2 b, pow-suc 2 (b + a), ap (λ (t : ℕ). 2 ^ t) order, pow_sum a b)
  where
    order : suc b + a ≡ suc (b + a)
    order = omega arith

word_split : (d : ℕ) → d ≤ 64 → 2 ^ d * 2 ^ (64 - d) ≡ 2 ^ 64
word_split d h = pow_sum d (64 - d) ∙ ap (λ (t : ℕ). 2 ^ t) all
  where
    all : 64 - d + d ≡ 64
    all = omega arith

quotient_below : (v p q : ℕ) → v < p * q → v / p < q
quotient_below v p q h = grind (arith, div-mul-le_self v p)

-- RotateRight64 moves the low bits above the high ones.
pub rotate_right_64-parts :
    (value dist : ℕ)
    → 0 < dist
    → dist < 64
    → value < 2 ^ 64
    → rotate_right_64 value dist ≡ value / 2 ^ dist + value % 2 ^ dist * 2 ^ (64 - dist)
unfolding rotate_right_64
rotate_right_64-parts value dist h k fits =
    rw
      (
        low (value / 2 ^ dist) (64 - dist) (omega arith),
        split_mod value (2 ^ dist) (2 ^ (64 - dist)) (2 ^ 64) (word_split dist (omega arith))
            (one-le-pow dist 2 (omega arith)) (one-le-pow (64 - dist) 2 (omega arith)),
        mod-eq_of_lt high,
      )
      (bit_or-shifted (64 - dist) (value / 2 ^ dist) (value % 2 ^ dist) high)
  where
    high : value / 2 ^ dist < 2 ^ (64 - dist)
    high =
        quotient_below value (2 ^ dist) (2 ^ (64 - dist))
          (omega (arith, word_split dist (omega arith)))
