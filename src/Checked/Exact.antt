-- ===== src/Checked/Exact.antt =====
-- A checked operation delivers the exact mathematical result, or raises its exception.
use cbc_engine.Prelude.{ℕ, ◌+◌, ◌-◌, ◌*◌, ◌/◌, ◌%◌, ◌^◌, ◌≤◌, ◌<◌, ltb, leb, if◌then◌else◌}
use cbc_engine.Prelude.{Bool, true, false, ◌&&◌, ◌≡◌, refl, ap, ◌∙◌, arith}
use cbc_engine.Prelude.{Bool-cases, inl, inr}
use native.Mathlib.Nat.{mod-eq_of_lt}
use cbc_engine.Prelude.Int.{ℤ, pos, negsuc, ◌+ℤ◌, ◌-ℤ◌, ◌*ℤ◌}
use cbc_engine.Word.{Width, w8, w16, w32, w64, bits, smin, InRange}
use cbc_engine.Word.{uget, sget, make_u, make_s, quotient, shift_right, modulus}
use cbc_engine.Word.Laws.{sget-make_s, sget-InRange, uget-make_u, uget-lt}
use cbc_engine.Word.Division.{quotient-InRange, shift_right-InRange}
use cbc_engine.Saturating.{is_zero, is_minus_one, out_of_range}
use cbc_engine.Saturating.Exact.{least_by_minus_one, not_least}
use cbc_engine.Checked.{
  ExceptionType, CheckedOp, CheckedResult, checked_arith, wrapped, overflowing,
}
use cbc_engine.Checked.{cadd, csub, cmul, cdiv, cuadd, cusub, cumul, clsl, clsr, casr, raise_if}
use cbc_engine.Checked.{successful, arithmetic, add_overflow, sub_overflow, mul_overflow}
use cbc_engine.Checked.{div_overflow, lsh_overflow, lsh_negative_shift, rsh_overflow}
use cbc_engine.Checked.{rsh_negative_shift, ash_overflow, ash_negative_shift, check_shift}

-- What the interpreter sees of a result: a signed or an unsigned value, or the exception.
pub data Outcome : Type 0 where
  signed : ℤ → Outcome
  unsigned : ℕ → Outcome
  raised : ExceptionType → Outcome

abbrev pub is_unsigned : CheckedOp → Bool
is_unsigned cuadd = true
is_unsigned cusub = true
is_unsigned cumul = true
is_unsigned clsl = true
is_unsigned clsr = true
is_unsigned _ = false

abbrev pub observe : Width → Bool → CheckedResult → Outcome
observe w u x = elim x.exception [
  | successful ↦ if u then unsigned (uget w x.result) else signed (sget w x.result)
  | e ↦ raised e
]

abbrev pub fits_or : Width → ℤ → ExceptionType → Outcome
fits_or w z e = if out_of_range w z then raised e else signed z

abbrev pub fits_or_u : Width → ℕ → ExceptionType → Outcome
fits_or_u w n e = if ltb n (modulus w) then unsigned n else raised e

abbrev pub shift_or : Width → ℤ → ExceptionType → ExceptionType → (ℕ → Outcome) → Outcome
shift_or w (pos n) too_far negative f = if ltb n (bits w) then f n else raised too_far
shift_or w (negsuc n) too_far negative f = raised negative

-- The operations on the exact numbers. Shifts to the left drop what leaves the word.
abbrev pub expected : Width → CheckedOp → ℕ → ℕ → Outcome
expected w cadd l r = fits_or w (sget w l +ℤ sget w r) add_overflow
expected w csub l r = fits_or w (sget w l -ℤ sget w r) sub_overflow
expected w cmul l r = fits_or w (sget w l *ℤ sget w r) mul_overflow
expected w cdiv l r =
    if is_zero (sget w r)
    then raised arithmetic
    else fits_or w (quotient (sget w l) (sget w r)) div_overflow
expected w cuadd l r = fits_or_u w (uget w l + uget w r) add_overflow
expected w cusub l r =
    if leb (uget w r) (uget w l) then unsigned (uget w l - uget w r) else raised sub_overflow
expected w cumul l r = fits_or_u w (uget w l * uget w r) mul_overflow
expected w clsl l r =
    shift_or w (sget w r) lsh_overflow lsh_negative_shift
      (λ n. unsigned (uget w l * 2 ^ n % modulus w))
expected w clsr l r =
    shift_or w (sget w r) rsh_overflow rsh_negative_shift (λ n. unsigned (uget w l / 2 ^ n))
expected w casr l r =
    shift_or w (sget w r) ash_overflow ash_negative_shift (λ n. signed (shift_right (sget w l) n))

within : (w : Width) (z : ℤ) → out_of_range w z ≡ false → InRange w z
within w8 z h = ground arith
within w16 z h = ground arith
within w32 z h = ground arith
within w64 z h = ground arith

InRange-within : (w : Width) (z : ℤ) → InRange w z → out_of_range w z ≡ false
InRange-within w8 z h = ground arith
InRange-within w16 z h = ground arith
InRange-within w32 z h = ground arith
InRange-within w64 z h = ground arith

wrapped_same : (w : Width) (z : ℤ) → InRange w z → wrapped w z ≡ z
wrapped_same w8 (pos n) h = ground arith
wrapped_same w8 (negsuc n) h = ground arith
wrapped_same w16 (pos n) h = ground arith
wrapped_same w16 (negsuc n) h = ground arith
wrapped_same w32 (pos n) h = ground arith
wrapped_same w32 (negsuc n) h = ground arith
wrapped_same w64 (pos n) h = ground arith
wrapped_same w64 (negsuc n) h = ground arith

abbrev IsOverflow : ExceptionType → Type 0
IsOverflow e =
    (x : ℕ) (w : Width) (u : Bool) → observe w u (record { result = x; exception = e }) ≡ raised e

overflowing-fits :
    (w : Width) (z : ℤ) (e : ExceptionType)
    → IsOverflow e
    → observe w false (overflowing w z e) ≡ fits_or w z e
overflowing-fits w z e h = elim (Bool-cases (out_of_range w z)) [
  | inl out ↦ rw out (h _ w false)
  | inr ok ↦ rw ok (
      ap signed (
        ap (λ y. sget w (make_s w y)) (wrapped_same w z (within w z ok))
        ∙ sget-make_s w z (within w z ok)))
]

quotient_least_out : (w : Width) → out_of_range w (quotient (smin w) (negsuc 0)) ≡ true
unfolding quotient
quotient_least_out w8 = refl
quotient_least_out w16 = refl
quotient_least_out w32 = refl
quotient_least_out w64 = refl

&&_comm : (a b : Bool) → (a && b) ≡ (b && a)
&&_comm a b = ground arith

checked_div :
    (w : Width) (l r : ℕ) → observe w false (checked_arith w cdiv l r) ≡ expected w cdiv l r
unfolding checked_arith
checked_div w l r = elim (Bool-cases (is_zero (sget w r))) [
  | inl zero_divisor ↦ rw zero_divisor
  | inr divisor ↦
      rw (divisor, &&_comm (is_zero (sget w l -ℤ smin w)) (is_minus_one (sget w r)))
        (elim (Bool-cases (is_minus_one (sget w r) && is_zero (sget w l -ℤ smin w))) [
          | inl e ↦
              let (least, minus) = least_by_minus_one w (sget w l) (sget w r) e in
              rw (e, least, minus, quotient_least_out w)
          | inr e ↦
              let fits =
                quotient-InRange w (sget w l) (sget w r) (sget-InRange w l)
                  (not_least w (sget w l) (sget w r) (sget-InRange w l) e) in
              rw (e, InRange-within w (quotient (sget w l) (sget w r)) fits)
                (ap signed (sget-make_s w (quotient (sget w l) (sget w r)) fits))
        ])
]

unsigned_value :
    (w : Width) (n : ℕ) → n < modulus w → Outcome.unsigned (uget w (make_u w n)) ≡ unsigned n
unsigned_value w n h = ap unsigned (uget-make_u w n h)

modulus_pos : (w : Width) → 0 < modulus w
modulus_pos w8 = omega arith
modulus_pos w16 = omega arith
modulus_pos w32 = omega arith
modulus_pos w64 = omega arith

mod_fits : (w : Width) (n : ℕ) → n % modulus w < modulus w
mod_fits w n = omega (arith, modulus_pos w)

cut :
    (w : Width) (n : ℕ) (e : ExceptionType)
    → IsOverflow e
    → observe w true
        (record { result = make_u w (n % modulus w); exception = raise_if (leb (modulus w) n) e })
      ≡ fits_or_u w n e
cut w n e h = elim (Bool-cases (ltb n (modulus w))) [
  | inl lt ↦
      let below : n < modulus w = ground arith in
      let same : n % modulus w ≡ n = mod-eq_of_lt below in
      let no : leb (modulus w) n ≡ false = ground arith in
      rw (lt, no) (ap unsigned (ap (λ y. uget w (make_u w y)) same ∙ uget-make_u w n below))
  | inr ge ↦ let out : leb (modulus w) n ≡ true = ground arith in rw (ge, out) (h _ w true)
]

borrow :
    (w : Width) (l r : ℕ)
    → l < modulus w
    → r < modulus w
    → observe w true (record {
      result = make_u w ((l + modulus w - r) % modulus w);
      exception = raise_if (ltb l r) sub_overflow;
    })
      ≡ (if leb r l then unsigned (l - r) else raised sub_overflow)
borrow w l r hl hr = elim (Bool-cases (leb r l)) [
  | inl le ↦
      let no : ltb l r ≡ false = ground arith in
      let ordered : r ≤ l = ground arith in
      let same : (l + modulus w - r) % modulus w ≡ l - r = grind arith in
      rw (le, no)
        (ap unsigned (ap (λ y. uget w (make_u w y)) same ∙ uget-make_u w (l - r) (omega arith)))
  | inr gt ↦ let out : ltb l r ≡ true = ground arith in rw (gt, out)
]

shifted :
    (w : Width) (u : Bool) (z : ℤ) (too_far negative : ExceptionType) (l : ℕ) (f : ℕ → ℕ)
    (g : ℕ → Outcome)
    → IsOverflow too_far
    → IsOverflow negative
    → ((n : ℕ) → observe w u (record { result = f n; exception = successful }) ≡ g n)
    → observe w u (check_shift w z too_far negative l f) ≡ shift_or w z too_far negative g
shifted w u (pos n) too_far negative l f g h k same = elim (Bool-cases (ltb n (bits w))) [
  | inl e ↦ rw e (same n)
  | inr e ↦ rw e (h l w u)
]
shifted w u (negsuc n) too_far negative l f g h k same = k l w u

quotient_fits : (a b m : ℕ) → a < m → a / b < m
quotient_fits a b m h = grind arith

-- The checked sums, differences, products, signed and unsigned, and the checked quotient deliver the
-- exact result where that fits the type, and raise their own exception where it does not, a division
-- by zero its own. A checked shift by 0 to the width less one delivers the bits that stay in the word,
-- also to the left, and a negative amount and one of the width or more raise the exceptions of the
-- operation. CPOW and CNEG are not among the operations.
pub checked_arith-exact :
    (w : Width) (op : CheckedOp) (l r : ℕ)
    → observe w (is_unsigned op) (checked_arith w op l r) ≡ expected w op l r
unfolding checked_arith
checked_arith-exact w cadd l r =
    overflowing-fits w (sget w l +ℤ sget w r) add_overflow (λ x w u. refl)
checked_arith-exact w csub l r =
    overflowing-fits w (sget w l -ℤ sget w r) sub_overflow (λ x w u. refl)
checked_arith-exact w cmul l r =
    overflowing-fits w (sget w l *ℤ sget w r) mul_overflow (λ x w u. refl)
checked_arith-exact w cdiv l r = checked_div w l r
checked_arith-exact w cuadd l r = cut w (uget w l + uget w r) add_overflow (λ x w u. refl)
checked_arith-exact w cusub l r = borrow w (uget w l) (uget w r) (uget-lt w l) (uget-lt w r)
checked_arith-exact w cumul l r = cut w (uget w l * uget w r) mul_overflow (λ x w u. refl)
checked_arith-exact w clsl l r =
    shifted w true (sget w r) lsh_overflow lsh_negative_shift l _ _ (λ x w u. refl) (λ x w u. refl)
      (λ n. unsigned_value w (uget w l * 2 ^ n % modulus w) (mod_fits w (uget w l * 2 ^ n)))
checked_arith-exact w clsr l r =
    shifted w true (sget w r) rsh_overflow rsh_negative_shift l _ _ (λ x w u. refl) (λ x w u. refl)
      (λ n.
        unsigned_value w (uget w l / 2 ^ n)
          (quotient_fits (uget w l) (2 ^ n) (modulus w) (uget-lt w l)))
checked_arith-exact w casr l r =
    shifted w false (sget w r) ash_overflow ash_negative_shift l _ _ (λ x w u. refl) (λ x w u. refl)
      (λ n. ap signed (
        sget-make_s w (shift_right (sget w l) n)
          (shift_right-InRange w (sget w l) n (sget-InRange w l))))
