-- ===== src/Saturating/Power.antt =====
-- The loop of SPOW stops early and still answers with the clamped power.
use cbc_engine.Prelude.{ℕ, zero, suc, ◌*◌, ◌≤◌, ◌<◌, if◌then◌else◌}
use cbc_engine.Prelude.{true, false, not, ◌&&◌, ◌≡◌, refl, sym, ap, ◌∙◌, arith}
use cbc_engine.Prelude.{Bool-cases, inl, inr}
use cbc_engine.Prelude.Bits.{bit_and-mask}
use native.Mathlib.Nat.{mul_assoc}
use cbc_engine.Prelude.Int.{ℤ, pos, negsuc, ◌*ℤ◌}
use cbc_engine.Word.{Width, w8, w16, w32, w64, smin, smax, clamp, magnitude}
use cbc_engine.Saturating.{is_negative, is_odd, out_of_range}
use cbc_engine.Saturating.{pow_loop, pow_result, sat_pow}

-- The exact power.
unfoldable pub power : ℤ → ℕ → ℤ
power b zero = pos 1
power b (suc e) = b *ℤ power b e

magnitude-* : (a b : ℤ) → magnitude (a *ℤ b) ≡ magnitude a * magnitude b
unfolding ◌*ℤ◌
magnitude-* (pos a) (pos b) = ground arith
magnitude-* (pos a) (negsuc b) = ground arith
magnitude-* (negsuc a) (pos b) = ground arith
magnitude-* (negsuc a) (negsuc b) = ground arith

sign-* :
    (a b : ℤ)
    → 0 < magnitude a
    → 0 < magnitude b
    → is_negative (a *ℤ b) ≡ (if is_negative a then not (is_negative b) else is_negative b)
unfolding ◌*ℤ◌
sign-* (pos a) (pos b) p q = ground arith
sign-* (pos a) (negsuc b) p q = let h : 0 < a * suc b = grind arith in ground (arith, h)
sign-* (negsuc a) (pos b) p q = let h : 0 < suc a * b = grind arith in ground (arith, h)
sign-* (negsuc a) (negsuc b) p q = ground arith

eq_of_sign : (a b : ℤ) → is_negative a ≡ is_negative b → magnitude a ≡ magnitude b → a ≡ b
eq_of_sign (pos a) (pos b) s m = ap pos m
eq_of_sign (pos a) (negsuc b) s m = cc
eq_of_sign (negsuc a) (pos b) s m = cc
eq_of_sign (negsuc a) (negsuc b) s m = ground arith

product_pos : (a b : ℕ) → 0 < a → 0 < b → 0 < a * b
product_pos a b p q = grind arith

magnitude-*_pos : (a b : ℤ) → 0 < magnitude a → 0 < magnitude b → 0 < magnitude (a *ℤ b)
magnitude-*_pos a b p q = rw (magnitude-* a b) (product_pos _ _ p q)

*ℤ_assoc :
    (a b c : ℤ) → 0 < magnitude a → 0 < magnitude b → 0 < magnitude c → a *ℤ b *ℤ c ≡ a *ℤ (b *ℤ c)
*ℤ_assoc a b c p q r = eq_of_sign _ _ signs magnitudes
  where
    magnitudes : magnitude (a *ℤ b *ℤ c) ≡ magnitude (a *ℤ (b *ℤ c))
    magnitudes = simp magnitude-* (mul_assoc (magnitude a) (magnitude b) (magnitude c))

    signs : is_negative (a *ℤ b *ℤ c) ≡ is_negative (a *ℤ (b *ℤ c))
    signs = ground (
      arith,
      sign-* (a *ℤ b) c (magnitude-*_pos a b p q) r,
      sign-* a b p q,
      sign-* a (b *ℤ c) p (magnitude-*_pos b c q r),
      sign-* b c q r,
    )

is_odd-suc : (n : ℕ) → is_odd (suc n) ≡ not (is_odd n)
is_odd-suc n = ground (arith, bit_and-mask 1 n, bit_and-mask 1 (suc n))

power_pos : (b : ℤ) (e : ℕ) → 0 < magnitude b → 0 < magnitude (power b e)
unfolding power
power_pos b zero p = omega arith
power_pos b (suc e) p = magnitude-*_pos b (power b e) p (power_pos b e p)

power_sign :
    (b : ℤ) (e : ℕ) → 0 < magnitude b → is_negative (power b e) ≡ (is_negative b && is_odd e)
unfolding power
power_sign b zero p = ground arith
power_sign b (suc e) p =
    ground (arith, sign-* b (power b e) p (power_pos b e p), power_sign b e p, is_odd-suc e)

*ℤ_one : (a : ℤ) → a *ℤ pos 1 ≡ a
unfolding ◌*ℤ◌
*ℤ_one a = ground arith

one_*ℤ : (a : ℤ) → pos 1 *ℤ a ≡ a
unfolding ◌*ℤ◌
one_*ℤ a = ground arith

-- The loop keeps the value of `acc * base ^ exp`, and stops short only out of range.
record IsStopped (w : Width) (base : ℤ) (whole : ℤ) (left : ℤ × ℕ) : Type 0 where
  exact : left.0 *ℤ power base left.1 ≡ whole
  positive : 0 < magnitude left.0
  short : 0 < left.1 → out_of_range w left.0 ≡ true

pow_loop-IsStopped :
    (w : Width) (base : ℤ) (e : ℕ) (acc : ℤ)
    → 0 < magnitude base
    → 0 < magnitude acc
    → IsStopped w base (acc *ℤ power base e) (pow_loop w base e acc)
unfolding pow_loop
pow_loop-IsStopped w base zero acc p q = record {
  exact = refl;
  positive = q;
  short = λ h. absurd (omega arith);
}
pow_loop-IsStopped w base (suc e) acc p q = elim (Bool-cases (out_of_range w acc)) [
  | inl out ↦ rw (out, pow_loop) (record { exact = refl; positive = q; short = λ h. out })
  | inr within ↦
      let rest = pow_loop-IsStopped w base e (acc *ℤ base) p (magnitude-*_pos acc base q p) in
      rw (within, pow_loop)
        (record {
          exact =
              rest.exact
              ∙ (*ℤ_assoc acc base (power base e) q p (power_pos base e p) ∙ unfold power in refl);
          positive = rest.positive;
          short = rest.short;
        })
]

-- Out of range, more factors that do not change the sign or do, clamp to the bound of the sign.
clamp_out :
    (w : Width) (acc factor product : ℤ)
    → out_of_range w acc ≡ true
    → magnitude acc ≤ magnitude product
    → is_negative product
      ≡ (if is_negative acc then not (is_negative factor) else is_negative factor)
    → clamp w product ≡ (
        if is_negative acc
        then if is_negative factor then smax w else smin w
        else if is_negative factor
        then smin w
        else smax w)
clamp_out w8 acc factor product out grows sign = ground arith
clamp_out w16 acc factor product out grows sign = ground arith
clamp_out w32 acc factor product out grows sign = ground arith
clamp_out w64 acc factor product out grows sign = ground arith

clamp_within : (w : Width) (z : ℤ) → out_of_range w z ≡ false → clamp w z ≡ z
clamp_within w8 z h = ground arith
clamp_within w16 z h = ground arith
clamp_within w32 z h = ground arith
clamp_within w64 z h = ground arith

grows : (a b : ℕ) → 0 < b → a ≤ a * b
grows a b h = grind arith

pow_result-out :
    (w : Width) (base acc : ℤ) (e : ℕ)
    → 0 < magnitude base
    → 0 < magnitude acc
    → out_of_range w acc ≡ true
    → pow_result w base (acc, e) ≡ clamp w (acc *ℤ power base e)
unfolding pow_result
pow_result-out w base acc e p q out = rw out (
    sym (
      rw (power_sign base e p) at (
        clamp_out w acc (power base e) (acc *ℤ power base e) out
          (rw (magnitude-* acc (power base e))
            (grows (magnitude acc) (magnitude (power base e)) (power_pos base e p)))
          (sign-* acc (power base e) q (power_pos base e p)))))

pow_result-clamp :
    (w : Width) (base whole : ℤ) (left : ℤ × ℕ)
    → 0 < magnitude base
    → IsStopped w base whole left
    → pow_result w base left ≡ clamp w whole
unfolding power pow_result
pow_result-clamp w base whole (acc, e) p h = elim (Bool-cases (out_of_range w acc)) [
  | inl out ↦ pow_result-out w base acc e p h.positive out ∙ ap (clamp w) h.exact
  | inr within ↦
      let none_left : e ≡ 0 = ground (arith, h.short) in
      let same : acc ≡ whole = sym (*ℤ_one acc) ∙ (rw none_left at h.exact) in
      rw within (sym (clamp_within w acc within) ∙ ap (clamp w) same)
]

power_zero : (e : ℕ) → power (pos 0) (suc e) ≡ pos 0
unfolding power ◌*ℤ◌
power_zero e = ground arith

power_one : (e : ℕ) → power (pos 1) e ≡ pos 1
unfolding power
power_one zero = refl
power_one (suc e) = one_*ℤ (power (pos 1) e) ∙ power_one e

power_unit : (k : ℕ) → magnitude (power (negsuc 0) k) ≡ 1
unfolding power
power_unit zero = refl
power_unit (suc k) = omega (arith, magnitude-* (negsuc 0) (power (negsuc 0) k), power_unit k)

power_minus_one : (e : ℕ) → power (negsuc 0) e ≡ (if is_odd e then negsuc 0 else pos 1)
power_minus_one e =
    eq_of_sign _ _ (power_sign (negsuc 0) e (omega arith) ∙ ground arith)
      (power_unit e ∙ ground arith)

clamp_small :
    (w : Width)
    → (clamp w (pos 0) ≡ pos 0) × (clamp w (pos 1) ≡ pos 1) × (clamp w (negsuc 0) ≡ negsuc 0)
clamp_small w8 = (refl, refl, refl)
clamp_small w16 = (refl, refl, refl)
clamp_small w32 = (refl, refl, refl)
clamp_small w64 = (refl, refl, refl)

pow_loop-clamp :
    (w : Width) (base : ℤ) (e : ℕ)
    → 0 < magnitude base
    → pow_result w base (pow_loop w base e (pos 1)) ≡ clamp w (power base e)
pow_loop-clamp w base e p =
    pow_result-clamp w base _ _ p (pow_loop-IsStopped w base e (pos 1) p (omega arith))
    ∙ ap (clamp w) (one_*ℤ (power base e))

-- SPOW answers with the exact power, clamped to the range, for every base and exponent.
pub sat_pow-eq-clamp : (w : Width) (base : ℤ) (e : ℕ) → sat_pow w base e ≡ clamp w (power base e)
unfolding sat_pow
sat_pow-eq-clamp w (pos zero) zero = unfold power in sym (clamp_small w).1
sat_pow-eq-clamp w (pos zero) (suc e) =
    ground (arith, (clamp_small w).0, ap (clamp w) (power_zero e))
sat_pow-eq-clamp w (pos (suc zero)) e = sym (ap (clamp w) (power_one e) ∙ (clamp_small w).1)
sat_pow-eq-clamp w (pos (suc (suc b))) e = pow_loop-clamp w _ e (omega arith)
sat_pow-eq-clamp w (negsuc zero) e = rw (power_minus_one e) (elim (Bool-cases (is_odd e)) [
  | inl odd ↦ rw odd (sym (clamp_small w).2)
  | inr even ↦ rw even (sym (clamp_small w).1)
])
sat_pow-eq-clamp w (negsuc (suc b)) e = pow_loop-clamp w _ e (omega arith)
