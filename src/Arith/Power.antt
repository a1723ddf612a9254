-- ===== src/Arith/Power.antt =====
-- PowWrapping squares and multiplies; it is the power modulo 2 ^ 64, within 64 rounds.
use cbc_engine.Prelude.{ℕ, zero, suc, ◌+◌, ◌*◌, ◌/◌, ◌%◌, ◌^◌, ◌<◌, ◌==◌}
use cbc_engine.Prelude.{true, false, ◌≡◌, refl, sym, ap, ◌∙◌, arith}
use cbc_engine.Prelude.{Bool-cases, inl, inr, some}
use cbc_engine.Prelude.Bits.{bit_and-mask}
use native.Mathlib.Nat.{
  add-mul-mod_self_right, div-add-mod, one-mul, pow-zero, mul_comm, mul_assoc, pow-suc,
}
use cbc_engine.Saturating.{is_odd}
use cbc_engine.Arith.{pow_wrapping_loop, pow_wrapping, word}

-- Factors may be reduced before they are multiplied.
mul-mod : (a b m : ℕ) → a % m * b % m ≡ a * b % m
mul-mod a b m = sym (ap (λ (t : ℕ). t % m) split ∙ add-mul-mod_self_right (a % m * b) (a / m * b) m)
  where
    split : a * b ≡ a % m * b + a / m * b * m
    split = omega (arith, ap (λ (t : ℕ). t * b) (div-add-mod a m))

mul-mod' : (a b m : ℕ) → a * (b % m) % m ≡ a * b % m
mul-mod' a b m = rw (mul_comm a (b % m), mul_comm a b) (mul-mod b a m)

-- If two factors agree modulo `m`, so do the products.
mul-mod_cong : (x a b m : ℕ) → a % m ≡ b % m → x * a % m ≡ x * b % m
mul-mod_cong x a b m e = sym (mul-mod' x a m) ∙ ap (λ (t : ℕ). x * t % m) e ∙ mul-mod' x b m

pow-mod : (a e m : ℕ) → (a % m) ^ e % m ≡ a ^ e % m
pow-mod a zero m = ap (λ (t : ℕ). t % m) (pow-zero (a % m) ∙ sym (pow-zero a))
pow-mod a (suc e) m =
    rw (pow-suc (a % m) e, pow-suc a e)
      (mul-mod' ((a % m) ^ e) a m
        ∙ rw (mul_comm ((a % m) ^ e) a, mul_comm (a ^ e) a)
            (mul-mod_cong a ((a % m) ^ e) (a ^ e) m (pow-mod a e m)))

finished : (base result : ℕ) → result % word ≡ result * base ^ 0 % word
finished base result =
    ap (λ (t : ℕ). t % word)
      (omega (arith, pow-zero base, ap (λ (t : ℕ). result * t) (pow-zero base)))

pow-double : (a e : ℕ) → a ^ (e + e) ≡ (a * a) ^ e
pow-double a zero = pow-zero a ∙ sym (pow-zero (a * a))
pow-double a (suc e) =
    let unrolled : suc e + suc e ≡ suc (suc (e + e)) = omega arith in
    rw (unrolled, pow-suc a (suc (e + e)), pow-suc a (e + e), pow-suc (a * a) e, pow-double a e)
      (mul_assoc ((a * a) ^ e) a a)

halves_odd : (n : ℕ) → is_odd n ≡ true → n ≡ suc (n / 2 + n / 2)
halves_odd n h = ground (arith, bit_and-mask 1 n)

halves_even : (n : ℕ) → is_odd n ≡ false → n ≡ n / 2 + n / 2
halves_even n h = ground (arith, bit_and-mask 1 n)

-- One round: the odd factor goes to the result, and the base is squared.
round_odd :
    (base exp result : ℕ)
    → is_odd exp ≡ true
    → result * base % word * (base * base % word) ^ (exp / 2) % word ≡ result * base ^ exp % word
round_odd base exp result h =
    mul-mod_cong (result * base % word) _ _ word (pow-mod (base * base) (exp / 2) word)
    ∙ mul-mod (result * base) ((base * base) ^ (exp / 2)) word
    ∙ ap (λ (t : ℕ). t % word) whole
  where
    unrolled : base ^ exp ≡ (base * base) ^ (exp / 2) * base
    unrolled =
        ap (λ (t : ℕ). base ^ t) (halves_odd exp h)
        ∙ rw (pow-suc base (exp / 2 + exp / 2), pow-double base (exp / 2))

    whole : result * base * (base * base) ^ (exp / 2) ≡ result * base ^ exp
    whole =
        rw (unrolled, mul_comm ((base * base) ^ (exp / 2)) base)
          (mul_assoc result base ((base * base) ^ (exp / 2)))

round_even :
    (base exp result : ℕ)
    → is_odd exp ≡ false
    → result * (base * base % word) ^ (exp / 2) % word ≡ result * base ^ exp % word
round_even base exp result h =
    mul-mod_cong result _ _ word (pow-mod (base * base) (exp / 2) word)
    ∙ ap (λ (t : ℕ). result * t % word)
        (sym (ap (λ (t : ℕ). base ^ t) (halves_even exp h) ∙ pow-double base (exp / 2)))

-- The loop multiplies the result by the power.
loop-pow :
    (fuel base exp result : ℕ)
    → exp < 2 ^ fuel
    → (r : ℕ) × (pow_wrapping_loop fuel base exp result ≡ some r)
      × (r % word ≡ result * base ^ exp % word)
unfolding pow_wrapping_loop
loop-pow zero base exp result h =
    let none_left : exp ≡ 0 = omega arith in rw none_left (result, refl, finished base result)
loop-pow (suc fuel) base exp result h = elim (Bool-cases (exp == 0)) [
  | inl e ↦
      let none_left : exp ≡ 0 = ground arith in rw none_left (result, refl, finished base result)
  | inr e ↦ elim (Bool-cases (is_odd exp)) [
    | inl odd ↦
        let (r, ends, value) =
          loop-pow fuel (base * base % word) (exp / 2) (result * base % word)
            (omega (arith, pow-suc 2 fuel)) in
        rw (e, odd) (r, ends, value ∙ round_odd base exp result odd)
    | inr even ↦
        let (r, ends, value) =
          loop-pow fuel (base * base % word) (exp / 2) result (omega (arith, pow-suc 2 fuel)) in
        rw (e, even) (r, ends, value ∙ round_even base exp result even)
  ]
]

-- PowWrapping ends within 64 rounds, with the power modulo 2 ^ 64.
pub pow_wrapping-pow :
    (base exp : ℕ)
    → exp < word
    → (r : ℕ) × (pow_wrapping base exp ≡ some r) × (r % word ≡ base ^ exp % word)
unfolding pow_wrapping
pow_wrapping-pow base exp h =
    let (r, ends, value) = loop-pow 64 base exp 1 h in
    (r, ends, value ∙ ap (λ (t : ℕ). t % word) (one-mul (base ^ exp)))
