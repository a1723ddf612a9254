-- ===== src/Bits/Extension.antt =====
-- SignExtend as arithmetic.
use native.Mathlib.Nat.{pow-suc, one-le-pow, pow-le-pow_right, mod-lt, div-eq_of_lt, div-eq-sub-div}
use cbc_engine.Prelude.{ℕ, suc, ◌+◌, ◌-◌, ◌*◌, ◌/◌, ◌%◌, ◌^◌, ◌≤◌, ◌<◌, ltb, ◌==◌, if◌then◌else◌}
use cbc_engine.Prelude.{false, Bool-cases, inl, inr, ltb→lt, bit_xor, ◌≡◌, ap, ◌∙◌, arith}
use cbc_engine.Prelude.Bits.{bit_and-mask, bit_xor-single}
use cbc_engine.Bits.{sign_extend_64}

-- The bit that is flipped is the highest one.
flipped_below : (k x : ℕ) → x < 2 ^ k → bit_xor x (2 ^ k) ≡ x + 2 ^ k
flipped_below k x h =
    let digit : x / 2 ^ k % 2 * 2 ^ suc k ≡ 0 = rw (div-eq_of_lt h) (omega arith) in
    omega (arith, digit, bit_xor-single k x)

flipped_above : (k x : ℕ) → 2 ^ k ≤ x → x < 2 ^ suc k → bit_xor x (2 ^ k) + 2 ^ k ≡ x
flipped_above k x h l = omega (arith, pow-suc 2 k, digit, bit_xor-single k x)
  where
    one : x / 2 ^ k ≡ 1
    one =
        div-eq-sub-div (one-le-pow k 2 (omega arith)) h
        ∙ ap (λ (t : ℕ). t + 1) (div-eq_of_lt (omega (arith, pow-suc 2 k, h, l)))

    digit : x / 2 ^ k % 2 * 2 ^ suc k ≡ 2 ^ suc k
    digit = rw one (omega arith)

pow_le : (i j : ℕ) → i ≤ j → 2 ^ i ≤ 2 ^ j
pow_le i j h = pow-le-pow_right (omega arith) h

-- SignExtend keeps the low bits of the value and copies the highest of them to every bit above, at
-- each size from 1 to 63.
pub sign_extend_64-value :
    (value k : ℕ)
    → k < 63
    → sign_extend_64 value (suc k) ≡ (
        if ltb (value % 2 ^ suc k) (2 ^ k)
        then value % 2 ^ suc k
        else value % 2 ^ suc k + (2 ^ 64 - 2 ^ suc k))
unfolding sign_extend_64
sign_extend_64-value value k h =
    let other : suc k == 64 ≡ false = ground arith in
    let before : suc k - 1 ≡ k = omega arith in
    let power : 2 ^ suc k ≡ 2 ^ k * 2 = pow-suc 2 k in
    let small : 2 ^ suc k ≤ 2 ^ 63 = pow_le (suc k) 63 (omega arith) in
    let low : value % 2 ^ suc k < 2 ^ suc k = mod-lt value (one-le-pow (suc k) 2 (omega arith)) in
    rw (other, before, bit_and-mask (suc k) value)
      (elim (Bool-cases (ltb (value % 2 ^ suc k) (2 ^ k))) [
        | inl below ↦
            rw (below, flipped_below k (value % 2 ^ suc k) (ltb→lt _ _ below)) (omega arith)
        | inr above ↦
            let high : bit_xor (value % 2 ^ suc k) (2 ^ k) + 2 ^ k ≡ value % 2 ^ suc k =
              flipped_above k (value % 2 ^ suc k) (ground arith) low in
            rw above (grind arith)
      ])
