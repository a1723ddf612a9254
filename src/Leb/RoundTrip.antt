-- ===== src/Leb/RoundTrip.antt =====
-- What EncodeSLEB writes, DecodeSLEB reads back.
use cbc_engine.Prelude.{ℕ, zero, suc, ◌+◌, ◌-◌, ◌*◌, ◌/◌, ◌%◌, ◌^◌, ◌≤◌, ◌<◌, ltb}
use cbc_engine.Prelude.{◌≡◌, refl, sym, ap, ◌∙◌, arith, some}
use cbc_engine.Prelude.{List, [], ◌∷◌, ◌++◌, bit_or, Bool-cases, inl, inr}
use cbc_engine.Prelude.Int.{ℤ, pos, negsuc}
use native.Mathlib.Nat.{one-le-pow, div-add-mod, pow-le-pow_right}
use cbc_engine.Word.{w64, InRange, shift_right, to_signed}
use cbc_engine.Leb.{encode_sleb, decode_sleb, low_bits, answer_s}
use cbc_engine.Leb.Unsigned.{read_from, marked_byte, grown, shift-more}
use cbc_engine.Leb.Signed.{is_last-small, is_last-large, index}
use cbc_engine.Leb.Signed.{pattern_at, IsExtended, last_pos, last_negsuc, tenth}

product : (k : ℕ) → k < 10 → 2 ^ (63 - 7 * k) * 2 ^ (7 * k) ≡ 2 ^ 63
product zero h = refl
product (suc zero) h = refl
product (suc (suc zero)) h = refl
product (suc (suc (suc zero))) h = refl
product (suc (suc (suc (suc zero)))) h = refl
product (suc (suc (suc (suc (suc zero))))) h = refl
product (suc (suc (suc (suc (suc (suc zero)))))) h = refl
product (suc (suc (suc (suc (suc (suc (suc zero))))))) h = refl
product (suc (suc (suc (suc (suc (suc (suc (suc zero)))))))) h = refl
product (suc (suc (suc (suc (suc (suc (suc (suc (suc zero))))))))) h = refl
product (suc (suc (suc (suc (suc (suc (suc (suc (suc (suc k)))))))))) h = absurd (omega arith)

seven_fewer : (k : ℕ) → k < 9 → 2 ^ (63 - 7 * k) ≡ 2 ^ (63 - 7 * suc k) * 128
seven_fewer k h = ap (λ (t : ℕ). 2 ^ t) split ∙ shift-more (63 - 7 * suc k)
  where
    split : 63 - 7 * k ≡ 63 - 7 * suc k + 7
    split = omega arith

marked_first :
    (b : ℕ) (more : List ℕ) (result shift value : ℕ) (rest : List ℕ)
    → b < 128
    → shift < 64
    → result < 2 ^ shift
    → b * 2 ^ shift < 2 ^ 64
    → IsExtended (read_from more (result + b * 2 ^ shift) (shift + 7)) value rest
    → IsExtended (read_from (bit_or 128 b ∷ more) result shift) value rest
marked_first b [] result shift value rest h below low fits (r, ends, found, same) = absurd cc
marked_first b (next ∷ more) result shift value rest h below low fits found =
    rw (marked_byte b next more result shift h below low fits) found

times_below : (n q p m : ℕ) → n < q → q * p ≡ m → 0 < p → n * p < m
times_below n q p m h e k = grind arith

in_word : (k n : ℕ) → k < 10 → n < 2 ^ (63 - 7 * k) → n * 2 ^ (7 * k) < 2 ^ 63
in_word k n below h =
    times_below n (2 ^ (63 - 7 * k)) (2 ^ (7 * k)) (2 ^ 63) h (product k below)
      (one-le-pow (7 * k) 2 (omega arith))

-- Below 64, one byte ends the value.
last_byte :
    (k : ℕ) (z : ℤ) (rest : List ℕ) (result : ℕ)
    → k < 10
    → index z < 64
    → index z < 2 ^ (63 - 7 * k)
    → result < 2 ^ (7 * k)
    → IsExtended (read_from (low_bits z ∷ rest) result (7 * k)) (result + pattern_at (7 * k) z) rest
last_byte k (pos n) rest result below h fits low =
    let same : n % 128 ≡ n = omega arith in
    rw same (last_pos n rest result (7 * k) h (omega arith) low (in_word k n below fits))
last_byte k (negsuc n) rest result below h fits low =
    let same : n % 128 ≡ n = omega arith in
    rw same (elim (Bool-cases (ltb k 9)) [
      | inl early ↦ let k_below : k < 9 = ground arith in last_negsuc k n rest result h k_below low
      | inr late ↦ let last : k ≡ 9 = ground arith in tenth_of last
    ])
  where
    tenth_of :
        k ≡ 9
        → IsExtended
            (read_from ((127 - n) ∷ rest) result (7 * k))
            (result + pattern_at (7 * k) (negsuc n))
            rest
    tenth_of last =
        let only : n ≡ 0 = omega (arith, ap (λ (t : ℕ). 2 ^ (63 - 7 * t)) last) in
        let low' : result < 2 ^ 63 = omega (arith, ap (λ (t : ℕ). 2 ^ (7 * t)) last) in
        rw (last, only) (tenth rest result low')

low_bits-lt : (z : ℤ) → low_bits z < 128
low_bits-lt (pos n) = omega arith
low_bits-lt (negsuc n) = omega arith

index-shift_right : (z : ℤ) → index (shift_right z 7) ≡ index z / 128
index-shift_right (pos n) = refl
index-shift_right (negsuc n) = refl

-- A value of 64 or more leaves room for another byte.
early : (k n : ℕ) → k < 10 → 64 ≤ n → n < 2 ^ (63 - 7 * k) → k < 9
early k n below h fits = elim (Bool-cases (ltb k 9)) [
  | inl e ↦ ground arith
  | inr e ↦
      let last : k ≡ 9 = ground arith in
      absurd (omega (arith, ap (λ (t : ℕ). 2 ^ (63 - 7 * t)) last))
]

pos_sum : (r n p : ℕ) → r + n % 128 * p + n / 128 * (p * 128) ≡ r + n * p
pos_sum r n p = grind (arith, ap (λ (t : ℕ). t * p) (div-add-mod n 128))

negsuc_sum :
    (r n p : ℕ)
    → suc (n / 128) * (p * 128) ≤ 2 ^ 64
    → r + (127 - n % 128) * p + (2 ^ 64 - suc (n / 128) * (p * 128)) ≡ r + (2 ^ 64 - suc n * p)
negsuc_sum r n p h = grind (arith, ap (λ (t : ℕ). t * p) split)
  where
    split : 127 - n % 128 + suc n ≡ suc (n / 128) * 128
    split = omega arith

next_index : (k n : ℕ) → k < 9 → n < 2 ^ (63 - 7 * k) → n / 128 < 2 ^ (63 - 7 * suc k)
next_index k n below h = omega (arith, seven_fewer k below)

next_shift : (k : ℕ) → 2 ^ (7 * suc k) ≡ 2 ^ (7 * k) * 128
next_shift k = ap (λ (t : ℕ). 2 ^ t) step ∙ shift-more (7 * k)
  where
    step : 7 * suc k ≡ 7 * k + 7
    step = omega arith

times_at_most : (a q p m : ℕ) → a ≤ q → q * p ≡ m → a * p ≤ m
times_at_most a q p m h e = grind arith

-- The pattern of a value is that of its low bits and of what is left.
pattern-split :
    (k : ℕ) (z : ℤ) (result : ℕ)
    → k < 9
    → index z < 2 ^ (63 - 7 * k)
    → result + low_bits z * 2 ^ (7 * k) + pattern_at (7 * k + 7) (shift_right z 7)
      ≡ result + pattern_at (7 * k) z
pattern-split k (pos n) result below fits = rw (shift-more (7 * k)) (pos_sum result n (2 ^ (7 * k)))
pattern-split k (negsuc n) result below fits =
    rw (shift-more (7 * k)) (negsuc_sum result n (2 ^ (7 * k)) room)
  where
    room : suc (n / 128) * (2 ^ (7 * k) * 128) ≤ 2 ^ 64
    room = omega (
      arith,
      times_at_most (suc (n / 128)) (2 ^ (63 - 7 * suc k)) (2 ^ (7 * k) * 128) (2 ^ 63)
          (next_index k n below fits)
          (ap (λ (t : ℕ). 2 ^ (63 - 7 * suc k) * t) (sym (next_shift k))
            ∙ product (suc k) (omega arith)),
    )

-- One byte more in front.
one_more :
    (k : ℕ) (z : ℤ) (result : ℕ) (more rest : List ℕ)
    → k < 9
    → index z < 2 ^ (63 - 7 * k)
    → result < 2 ^ (7 * k)
    → IsExtended
        (read_from more (result + low_bits z * 2 ^ (7 * k)) (7 * suc k))
        (result + low_bits z * 2 ^ (7 * k) + pattern_at (7 * suc k) (shift_right z 7))
        rest
    → IsExtended
        (read_from (bit_or 128 (low_bits z) ∷ more) result (7 * k))
        (result + pattern_at (7 * k) z)
        rest
one_more k z result more rest below fits low (r, ends, value, same) =
    marked_first (low_bits z) more result (7 * k) _ rest (low_bits-lt z) (omega arith) low room (
      r,
      ap (λ (t : ℕ). read_from more (result + low_bits z * 2 ^ (7 * k)) t) (sym seven) ∙ ends,
      value
          ∙ ap (λ (t : ℕ). result + low_bits z * 2 ^ (7 * k) + pattern_at t (shift_right z 7)) seven
          ∙ pattern-split k z result below fits,
      same,
    )
  where
    seven : 7 * suc k ≡ 7 * k + 7
    seven = omega arith

    room : low_bits z * 2 ^ (7 * k) < 2 ^ 64
    room = omega (
      arith,
      grown 0 (low_bits z) (2 ^ (7 * k)) (one-le-pow (7 * k) 2 (omega arith)) (low_bits-lt z),
      shift-more (7 * k),
      pow-le-pow_right {n = 2} (omega arith) {i = 7 * k + 7} {j = 64} (omega arith),
    )

-- A reader that starts with the low bits read finds the pattern of the rest.
read_back :
    (room : ℕ) (z : ℤ) (k result : ℕ) (rest : List ℕ)
    → k + suc room ≡ 10
    → index z < 2 ^ (63 - 7 * k)
    → result < 2 ^ (7 * k)
    → IsExtended
        (read_from (encode_sleb (suc room) z ++ rest) result (7 * k))
        (result + pattern_at (7 * k) z)
        rest
unfolding encode_sleb
read_back zero z k result rest count fits low =
    let nine : k ≡ 9 = omega arith in
    let small : index z < 64 = omega (arith, ap (λ (t : ℕ). 2 ^ (63 - 7 * t)) nine) in
    rw (is_last-small z small) (last_byte k z rest result (omega arith) small fits low)
read_back (suc room) z k result rest count fits low = elim (Bool-cases (ltb (index z) 64)) [
  | inl e ↦
      let small : index z < 64 = ground arith in
      rw (is_last-small z small) (last_byte k z rest result (omega arith) small fits low)
  | inr e ↦
      let large : 64 ≤ index z = ground arith in
      let below = early k (index z) (omega arith) large fits in
      let more =
        read_back room (shift_right z 7) (suc k) (result + low_bits z * 2 ^ (7 * k)) rest
          (omega arith) (rw (index-shift_right z) (next_index k (index z) below fits))
          (rw (next_shift k) (grown result (low_bits z) (2 ^ (7 * k)) low (low_bits-lt z))) in
      rw (is_last-large z large) (
        one_more k z result (encode_sleb (suc room) (shift_right z 7) ++ rest) rest below fits low
          more)
]

decoded :
    (bytes : List ℕ) (z : ℤ) (rest : List ℕ)
    → IsExtended (read_from bytes 0 0) (pattern_at 0 z) rest
    → InRange w64 z
    → decode_sleb bytes ≡ some (z, rest)
unfolding decode_sleb
decoded [] z rest (r, ends, value, same) h = absurd cc
decoded (b ∷ bytes) z rest (r, ends, value, same) h =
    ap answer_s ends
    ∙ ap (λ (t : ℕ). some (to_signed w64 t, r.rest)) value
    ∙ ap (λ (t : ℤ). some (t, r.rest)) (read_value z h)
    ∙ ap (λ (t : List ℕ). some (z, t)) same
  where
    read_value : (z : ℤ) → InRange w64 z → to_signed w64 (pattern_at 0 z) ≡ z
    read_value (pos n) h = ground arith
    read_value (negsuc n) h = ground arith

-- What EncodeSLEB writes with room for 10 bytes, DecodeSLEB reads back, and leaves the bytes that
-- follow.
pub decode_sleb-encode_sleb :
    (z : ℤ) (rest : List ℕ)
    → InRange w64 z
    → decode_sleb (encode_sleb 10 z ++ rest) ≡ some (z, rest)
decode_sleb-encode_sleb z rest h =
    let (r, ends, value, same) = read_back 9 z 0 0 rest refl (small z h) (omega arith) in
    decoded (encode_sleb 10 z ++ rest) z rest (r, ends, omega (arith, value), same) h
  where
    small : (z : ℤ) → InRange w64 z → index z < 2 ^ (63 - 7 * 0)
    small (pos n) h = omega arith
    small (negsuc n) h = omega arith
