-- ===== src/Saturating/Unsigned.antt =====
-- Every unsigned saturating operation answers with the exact result, brought into range.
use cbc_engine.Prelude.{ℕ, ◌+◌, ◌-◌, ◌*◌, ◌/◌, ◌%◌, ◌^◌, ◌≤◌, ◌<◌, ltb, leb, ◌==◌, if◌then◌else◌}
use cbc_engine.Prelude.{Bool, true, ◌≡◌, refl, ap, sym, ◌∙◌, arith, min}
use cbc_engine.Prelude.{Bool-cases, inl, inr, Option, none, some}
use mathlib.Core.Option
use cbc_engine.Word.{Width, w8, w16, w32, w64, bits, umax, uget, make_u, to_signed, modulus}
use cbc_engine.Word.Laws.{uget-make_u, uget-lt}
use cbc_engine.Saturating.{SaturatingOp, shift_amount, sat_arith_u}
use cbc_engine.Saturating.{sadd, ssub, smul, sdiv, smod, spow, slsl, sasr, at_most}
use cbc_engine.Saturating.{suadd, susub, sumul, sudiv, sumod, sulsl, sulsr}

-- The code reads the amount as an `int64_t`: from 2 ^ 63 on it is negative, and the shift is by 0.
abbrev pub amount_u : Width → ℕ → ℕ
amount_u w n = if ltb n (2 ^ 63) then min n (bits w - 1) else 0

shift_amount-eq : (w : Width) (n : ℕ) → shift_amount w (to_signed w64 n) ≡ amount_u w n
shift_amount-eq w n = elim (Bool-cases (ltb n (2 ^ 63))) [
  | inl e ↦ rw e (ground arith)
  | inr e ↦ rw e
]

amount_within : (w : Width) (n : ℕ) → ltb n (bits w) ≡ true → amount_u w n ≡ n
amount_within w8 n h = ground arith
amount_within w16 n h = ground arith
amount_within w32 n h = ground arith
amount_within w64 n h = ground arith

-- A shift by less than the width; nothing is asked of another operation.
abbrev pub shifts_within : Width → SaturatingOp → ℕ → Bool
shifts_within w sulsl b = ltb b (bits w)
shifts_within w sulsr b = ltb b (bits w)
shifts_within w _ b = true

-- The exact result of an unsigned operation; a difference stops at 0.
abbrev pub exact_u : Width → SaturatingOp → ℕ → ℕ → Option ℕ
exact_u w suadd a b = some (a + b)
exact_u w susub a b = some (a - b)
exact_u w sumul a b = some (a * b)
exact_u w sudiv a b = if b == 0 then none else some (a / b)
exact_u w sumod a b = if b == 0 then none else some (a % b)
exact_u w sulsl a b = some (a * 2 ^ b)
exact_u w sulsr a b = some (a / 2 ^ b)
exact_u w _ a b = none

umax-lt : (w : Width) (n : ℕ) → at_most (umax w) n < modulus w
umax-lt w8 n = ground arith
umax-lt w16 n = ground arith
umax-lt w32 n = ground arith
umax-lt w64 n = ground arith

written_u : (w : Width) (n : ℕ) → uget w (make_u w (at_most (umax w) n)) ≡ at_most (umax w) n
written_u w n = uget-make_u w (at_most (umax w) n) (umax-lt w n)

small_u : (w : Width) (n : ℕ) → n < modulus w → uget w (make_u w n) ≡ at_most (umax w) n
small_u w8 n h = rw (uget-make_u w8 n h) (ground arith)
small_u w16 n h = rw (uget-make_u w16 n h) (ground arith)
small_u w32 n h = rw (uget-make_u w32 n h) (ground arith)
small_u w64 n h = rw (uget-make_u w64 n h) (ground arith)

monus : (a b : ℕ) → (if leb b a then a - b else 0) ≡ a - b
monus a b = ground arith

quotient_fits : (a b m : ℕ) → a < m → a / b < m
quotient_fits a b m h = grind arith

rest_fits : (a b m : ℕ) → a < m → a % b < m
rest_fits a b m h = grind arith

-- SatArithU answers with the exact result, cut at the largest value of the unsigned type, where a
-- shift is by less than the width; it fails its ASSERT on a division by zero, and on the signed
-- operations, and on nothing else.
pub sat_arith_u-exact :
    (w : Width) (op : SaturatingOp) (l r : ℕ)
    → shifts_within w op (uget w r) ≡ true
    → Option.map (uget w) (sat_arith_u w op l r)
      ≡ Option.map (at_most (umax w)) (exact_u w op (uget w l) (uget w r))
unfolding sat_arith_u
sat_arith_u-exact w suadd l r h = ap some (written_u w (uget w l + uget w r))
sat_arith_u-exact w susub l r h =
    rw (monus (uget w l) (uget w r))
      (ap some (small_u w (uget w l - uget w r) (omega (arith, uget-lt w l))))
sat_arith_u-exact w sumul l r h = ap some (written_u w (uget w l * uget w r))
sat_arith_u-exact w sudiv l r h = elim (Bool-cases (uget w r == 0)) [
  | inl e ↦ rw e
  | inr e ↦
      rw e (ap some (small_u w (uget w l / uget w r) (quotient_fits _ _ (modulus w) (uget-lt w l))))
]
sat_arith_u-exact w sumod l r h = elim (Bool-cases (uget w r == 0)) [
  | inl e ↦ rw e
  | inr e ↦
      rw e (ap some (small_u w (uget w l % uget w r) (rest_fits _ _ (modulus w) (uget-lt w l))))
]
sat_arith_u-exact w sulsl l r h =
    rw (shift_amount-eq w (uget w r), amount_within w (uget w r) h)
      (ap some (written_u w (uget w l * 2 ^ uget w r)))
sat_arith_u-exact w sulsr l r h =
    rw (shift_amount-eq w (uget w r), amount_within w (uget w r) h)
      (ap some (small_u w (uget w l / 2 ^ uget w r) (quotient_fits _ _ (modulus w) (uget-lt w l))))
sat_arith_u-exact w sadd l r h = refl
sat_arith_u-exact w ssub l r h = refl
sat_arith_u-exact w smul l r h = refl
sat_arith_u-exact w sdiv l r h = refl
sat_arith_u-exact w smod l r h = refl
sat_arith_u-exact w spow l r h = refl
sat_arith_u-exact w slsl l r h = refl
sat_arith_u-exact w sasr l r h = refl

amount_clamped :
    (w : Width) (n : ℕ) → bits w ≤ n → n < 2 ^ 63 → shift_amount w (to_signed w64 n) ≡ bits w - 1
amount_clamped w8 n low high = ground arith
amount_clamped w16 n low high = ground arith
amount_clamped w32 n low high = ground arith
amount_clamped w64 n low high = ground arith

amount_last : (w : Width) → shift_amount w (to_signed w64 (uget w (bits w - 1))) ≡ bits w - 1
unfolding uget
amount_last w8 = refl
amount_last w16 = refl
amount_last w32 = refl
amount_last w64 = refl

-- A shift by the width or more, up to 2 ^ 63 - 1, is a shift by the width less one.
pub sat_arith_u-clamped :
    (w : Width) (l r : ℕ)
    → bits w ≤ uget w r
    → uget w r < 2 ^ 63
    → (sat_arith_u w sulsl l r ≡ sat_arith_u w sulsl l (bits w - 1))
      × (sat_arith_u w sulsr l r ≡ sat_arith_u w sulsr l (bits w - 1))
unfolding sat_arith_u uget make_u
sat_arith_u-clamped w l r low high =
    let long = amount_clamped w (uget w r) low high in
    let short = amount_last w in
    (
      ap (λ (n : ℕ). some (make_u w (at_most (umax w) (uget w l * 2 ^ n)))) (long ∙ sym short),
      ap (λ (n : ℕ). some (make_u w (uget w l / 2 ^ n))) (long ∙ sym short),
    )

-- A 64-bit amount of 2 ^ 63 or more shifts by nothing, in either direction.
pub huge_shift :
    (l r : ℕ)
    → l < 2 ^ 64
    → 2 ^ 63 ≤ r
    → r < 2 ^ 64
    → (sat_arith_u w64 sulsl l r ≡ some l) × (sat_arith_u w64 sulsr l r ≡ some l)
unfolding sat_arith_u uget make_u
huge_shift l r hl low high =
    rw (same_l, same_r, beyond) (ap some (ground (arith, same_l)), ap some (ground arith))
  where
    same_l : uget w64 l ≡ l
    same_l = omega arith

    same_r : uget w64 r ≡ r
    same_r = omega arith

    beyond : shift_amount w64 (to_signed w64 r) ≡ 0
    beyond = ground arith
