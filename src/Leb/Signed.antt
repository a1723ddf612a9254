-- ===== src/Leb/Signed.antt =====
-- The signed encoding, byte by byte: the mark of the last byte, the low bits and the sign extension.
use cbc_engine.Prelude.{ℕ, zero, suc, ◌+◌, ◌-◌, ◌*◌, ◌%◌, ◌^◌, ◌≤◌, ◌<◌, ltb, ◌==◌}
use cbc_engine.Prelude.{Bool, true, false, ◌&&◌, ◌≡◌, refl, ap, ◌∙◌, arith, Option, some}
use cbc_engine.Prelude.{List, [], ◌∷◌, bit_and, bit_or}
use cbc_engine.Prelude.Int.{ℤ, pos, negsuc}
use cbc_engine.Prelude.Bits.{bit_or-shifted, bit_and-single}
use native.Mathlib.Nat.{one-le-pow, pow-le-pow_right}
use cbc_engine.Prelude.{both_ways, not, Bool-cases, inl, inr, ◌/◌}
use cbc_engine.Word.{shift_right}
use cbc_engine.Leb.{low_bits}
use cbc_engine.Leb.{is_last}
use cbc_engine.Leb.{read_loop, Read, joined, extended}
use cbc_engine.Leb.Unsigned.{read_from, low_seven, stops_at-small, joined_byte, grown, shift-more}

-- The 64-bit pattern of `z` shifted to the left.
abbrev pub pattern_at : ℕ → ℤ → ℕ
pattern_at s (pos n) = n * 2 ^ s
pattern_at s (negsuc n) = 2 ^ 64 - suc n * 2 ^ s

-- A reader ends with the pattern of the value, and the bytes that follow.
abbrev pub IsExtended : Option Read → ℕ → List ℕ → Type 0
IsExtended o value rest = (r : Read) × (o ≡ some r) × (extended r ≡ value) × (r.rest ≡ rest)

-- The ones of the sign extension, at the shifts that the loop reaches.
ones :
    (k : ℕ)
    → k < 9
    → (2 ^ 64 - 1) * 2 ^ (7 * k + 7) % 2 ^ 64 ≡ (2 ^ (57 - 7 * k) - 1) * 2 ^ (7 * k + 7)
ones zero h = refl
ones (suc zero) h = refl
ones (suc (suc zero)) h = refl
ones (suc (suc (suc zero))) h = refl
ones (suc (suc (suc (suc zero)))) h = refl
ones (suc (suc (suc (suc (suc zero))))) h = refl
ones (suc (suc (suc (suc (suc (suc zero)))))) h = refl
ones (suc (suc (suc (suc (suc (suc (suc zero))))))) h = refl
ones (suc (suc (suc (suc (suc (suc (suc (suc zero)))))))) h = refl
ones (suc (suc (suc (suc (suc (suc (suc (suc (suc k))))))))) h = absurd (omega arith)

whole : (k : ℕ) → k < 9 → 2 ^ (57 - 7 * k) * 2 ^ (7 * k + 7) ≡ 2 ^ 64
whole zero h = refl
whole (suc zero) h = refl
whole (suc (suc zero)) h = refl
whole (suc (suc (suc zero))) h = refl
whole (suc (suc (suc (suc zero)))) h = refl
whole (suc (suc (suc (suc (suc zero))))) h = refl
whole (suc (suc (suc (suc (suc (suc zero)))))) h = refl
whole (suc (suc (suc (suc (suc (suc (suc zero))))))) h = refl
whole (suc (suc (suc (suc (suc (suc (suc (suc zero)))))))) h = refl
whole (suc (suc (suc (suc (suc (suc (suc (suc (suc k))))))))) h = absurd (omega arith)

filled :
    (k r : ℕ)
    → k < 9
    → r < 2 ^ (7 * k + 7)
    → bit_or r ((2 ^ 64 - 1) * 2 ^ (7 * k + 7) % 2 ^ 64) ≡ r + (2 ^ 64 - 2 ^ (7 * k + 7))
filled k r h low = rw (ones k h) (
    bit_or-shifted (7 * k + 7) r (2 ^ (57 - 7 * k) - 1) low
    ∙ rest (2 ^ (57 - 7 * k)) (2 ^ (7 * k + 7)) (whole k h)
        (one-le-pow (57 - 7 * k) 2 (omega arith)))
  where
    rest : (q p : ℕ) → q * p ≡ 2 ^ 64 → 1 ≤ q → r + (q - 1) * p ≡ r + (2 ^ 64 - p)
    rest (suc q) p e le = grind (arith, e)
    rest zero p e le = absurd (omega arith)

pub sign_clear : (n : ℕ) → n < 64 → bit_and n 64 == 0 ≡ true
sign_clear n h = ground (arith, bit_and-single 6 n)

pub sign_set : (n : ℕ) → n < 64 → bit_and (127 - n) 64 == 0 ≡ false
sign_set n h = ground (arith, bit_and-single 6 (127 - n))

-- One byte without a mark.
read_one :
    (b : ℕ) (rest : List ℕ) (result shift : ℕ)
    → b < 128
    → shift < 64
    → read_from (b ∷ rest) result shift
      ≡ some (record { result = joined result b shift; shift = shift + 7; last = b; rest = rest })
unfolding read_loop
read_one b [] result shift h below =
    let in_range : ltb shift 64 ≡ true = ground arith in rw in_range
read_one b (next ∷ rest) result shift h below =
    let in_range : ltb shift 64 ≡ true = ground arith in rw (in_range, stops_at-small b h)

&&_false : (b : Bool) → (b && false) ≡ false
&&_false b = ground arith

pub last_pos :
    (n : ℕ) (rest : List ℕ) (result shift : ℕ)
    → n < 64
    → shift < 64
    → result < 2 ^ shift
    → n * 2 ^ shift < 2 ^ 63
    → IsExtended (read_from (n ∷ rest) result shift) (result + n * 2 ^ shift) rest
last_pos n rest result shift h below low fits = (
  _,
  read_one n rest result shift (omega arith) below,
  rw (sign_clear n h, &&_false (ltb (shift + 7) 64))
      (joined_byte n n result shift (omega (arith, low_seven n)) low (omega arith)),
  refl,
)

-- The seven bits of the last byte and the ones above them.
sign_sum :
    (r n p : ℕ)
    → n < 64
    → p * 128 ≤ 2 ^ 64
    → r + (127 - n) * p + (2 ^ 64 - p * 128) ≡ r + (2 ^ 64 - suc n * p)
sign_sum r n p h le = grind (arith, ap (λ (t : ℕ). t * p) complement)
  where
    complement : 127 - n + suc n ≡ 128
    complement = omega arith

pub last_negsuc :
    (k n : ℕ) (rest : List ℕ) (result : ℕ)
    → n < 64
    → k < 9
    → result < 2 ^ (7 * k)
    → IsExtended
        (read_from ((127 - n) ∷ rest) result (7 * k))
        (result + pattern_at (7 * k) (negsuc n))
        rest
last_negsuc k n rest result h below low = (
  _,
  read_one (127 - n) rest result (7 * k) (omega arith) (omega arith),
  rw (sign_set n h, early)
      (ap (λ (t : ℕ). bit_or t ((2 ^ 64 - 1) * 2 ^ (7 * k + 7) % 2 ^ 64)) byte
        ∙ filled k (result + (127 - n) * 2 ^ (7 * k)) below
            (rw (shift-more (7 * k)) (grown result (127 - n) (2 ^ (7 * k)) low (omega arith)))
        ∙ rw (shift-more (7 * k)) (sign_sum result n (2 ^ (7 * k)) h room)),
  refl,
)
  where
    early : ltb (7 * k + 7) 64 ≡ true
    early = ground arith

    room : 2 ^ (7 * k) * 128 ≤ 2 ^ 64
    room = omega (
      arith,
      shift-more (7 * k),
      pow-le-pow_right {n = 2} (omega arith) {i = 7 * k + 7} {j = 64} (omega arith),
    )

    byte : joined result (127 - n) (7 * k) ≡ result + (127 - n) * 2 ^ (7 * k)
    byte = joined_byte (127 - n) (127 - n) result (7 * k) (omega (arith, low_seven (127 - n))) low (
        omega (
          arith,
          room,
          grown 0 (127 - n) (2 ^ (7 * k)) (one-le-pow (7 * k) 2 (omega arith)) (omega arith),
        ))

pub tenth :
    (rest : List ℕ) (result : ℕ)
    → result < 2 ^ 63
    → IsExtended (read_from (127 ∷ rest) result 63) (result + pattern_at 63 (negsuc 0)) rest
tenth rest result low = (
  _,
  read_one 127 rest result 63 (omega arith) (omega arith),
  bit_or-shifted 63 result 1 low,
  refl,
)

-- The number behind the sign.
abbrev pub index : ℤ → ℕ
index (pos n) = n
index (negsuc n) = n

not_last_pos : (q x : ℕ) → q == 0 ≡ false → is_last (pos q) x ≡ false
not_last_pos zero x e = absurd (both_ways refl e)
not_last_pos (suc q) x e = refl

not_last_negsuc : (q x : ℕ) → q == 0 ≡ false → is_last (negsuc q) x ≡ false
not_last_negsuc zero x e = absurd (both_ways refl e)
not_last_negsuc (suc q) x e = refl

-- The code stops at the byte that holds what is left with its sign.
pub is_last-small :
    (z : ℤ) → index z < 64 → is_last (shift_right z 7) (bit_and (low_bits z) 64) ≡ true
is_last-small (pos n) h =
    let none_left : n / 128 ≡ 0 = omega arith in
    let same : n % 128 ≡ n = omega arith in rw (none_left, same) (sign_clear n h)
is_last-small (negsuc n) h =
    let none_left : n / 128 ≡ 0 = omega arith in
    let same : n % 128 ≡ n = omega arith in rw (none_left, same) (ap not (sign_set n h))

pub is_last-large :
    (z : ℤ) → 64 ≤ index z → is_last (shift_right z 7) (bit_and (low_bits z) 64) ≡ false
is_last-large (pos n) h = elim (Bool-cases (n / 128 == 0)) [
  | inl e ↦
      let none_left : n / 128 ≡ 0 = ground arith in
      rw none_left (ground (arith, bit_and-single 6 (n % 128)))
  | inr e ↦ not_last_pos (n / 128) _ e
]
is_last-large (negsuc n) h = elim (Bool-cases (n / 128 == 0)) [
  | inl e ↦
      let none_left : n / 128 ≡ 0 = ground arith in
      rw none_left (ground (arith, bit_and-single 6 (127 - n % 128)))
  | inr e ↦ not_last_negsuc (n / 128) _ e
]
