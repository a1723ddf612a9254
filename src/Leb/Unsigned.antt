-- ===== src/Leb/Unsigned.antt =====
-- What EncodeULEB writes, DecodeULEB reads back.
use cbc_engine.Prelude.{ℕ, zero, suc, ◌+◌, ◌*◌, ◌/◌, ◌%◌, ◌^◌, ◌≤◌, ◌<◌, ltb, ◌==◌}
use cbc_engine.Prelude.{true, false, ◌≡◌, refl, ap, ◌∙◌, arith, Option, none, some}
use cbc_engine.Prelude.{List, [], ◌∷◌, ◌++◌, bit_and, bit_or, Bool-cases, inl, inr}
use cbc_engine.Prelude.Bits.{bit_or-shifted, bit_and-mask, bit_and-single, shifted-bit_or}
use native.Mathlib.Nat.{pow-suc, pow-zero, div-add-mod, mod-eq_of_lt, pow-le-pow_right}
use cbc_engine.Leb.{read_loop, Read, joined, goes_on, encode_uleb, decode_uleb, answer_u}

-- The seven low bits, and the mark of a byte that others follow.
pub low_seven : (v : ℕ) → bit_and v 127 ≡ v % 128
low_seven v = bit_and-mask 7 v

pub marked : (b : ℕ) → b < 128 → bit_or 128 b ≡ 128 + b
marked b h = shifted-bit_or 7 b 1 h

pub goes_on-marked : (b : ℕ) → b < 128 → goes_on (128 + b) ≡ true
goes_on-marked b h = ground (arith, bit_and-single 7 (128 + b))

pub stops_at-small : (b : ℕ) → b < 128 → goes_on b ≡ false
stops_at-small b h = ground (arith, bit_and-single 7 b)

-- The loop of the readers from the head of the buffer.
abbrev pub read_from : List ℕ → ℕ → ℕ → Option Read
read_from [] result shift = none
read_from (b ∷ rest) result shift = read_loop b rest result shift

regroup : (r v p : ℕ) → r + v % 128 * p + v / 128 * (p * 128) ≡ r + v * p
regroup r v p = grind (arith, ap (λ (t : ℕ). t * p) (div-add-mod v 128))

low_part : (v p m : ℕ) → v * p < m → v % 128 * p < m
low_part v p m h = grind arith

pub grown : (r b p : ℕ) → r < p → b < 128 → r + b * p < p * 128
grown r b p h k = grind arith

pub shift-more : (s : ℕ) → 2 ^ (s + 7) ≡ 2 ^ s * 128
shift-more s = omega (
  arith,
  pow-suc 2 s,
  pow-suc 2 (suc s),
  pow-suc 2 (suc (suc s)),
  pow-suc 2 (suc (suc (suc s))),
  pow-suc 2 (suc (suc (suc (suc s)))),
  pow-suc 2 (suc (suc (suc (suc (suc s))))),
  pow-suc 2 (suc (suc (suc (suc (suc (suc s)))))),
  ap (λ (t : ℕ). 2 ^ t) order,
)
  where
    order : s + 7 ≡ suc (suc (suc (suc (suc (suc (suc s))))))
    order = omega arith

-- Seven bits more join the result as a sum.
pub joined-sum :
    (result b shift : ℕ)
    → result < 2 ^ shift
    → b * 2 ^ shift < 2 ^ 64
    → bit_or result (b * 2 ^ shift % 2 ^ 64) ≡ result + b * 2 ^ shift
joined-sum result b shift h k =
    ap (λ (t : ℕ). bit_or result t) (mod-eq_of_lt k) ∙ bit_or-shifted shift result b h

large : (v p : ℕ) → 0 < v / 128 → p * 128 ≤ v * p
large v p h = grind (arith, ap (λ (t : ℕ). t * p) (div-add-mod v 128))

-- Where a byte is not the last one, the next one is still shifted by less than 64.
another_round : (v s : ℕ) → v * 2 ^ s < 2 ^ 64 → 0 < v / 128 → s + 7 < 64
another_round v s h more = elim (Bool-cases (ltb (s + 7) 64)) [
  | inl below ↦ ground arith
  | inr past ↦
      let far : 64 ≤ s + 7 = ground arith in
      absurd (
        omega
          (arith, pow-le-pow_right {n = 2} (omega arith) far, shift-more s, large v (2 ^ s) more))
]

abbrev pub IsReadBack : Option Read → ℕ → List ℕ → Type 0
IsReadBack o value rest = (r : Read) × (o ≡ some r) × (r.result ≡ value) × (r.rest ≡ rest)

pub joined_byte :
    (c b result shift : ℕ)
    → bit_and c 127 ≡ b
    → result < 2 ^ shift
    → b * 2 ^ shift < 2 ^ 64
    → joined result c shift ≡ result + b * 2 ^ shift
joined_byte c b result shift low h k =
    ap (λ (t : ℕ). bit_or result (t * 2 ^ shift % 2 ^ 64)) low ∙ joined-sum result b shift h k

small_byte :
    (b : ℕ) (rest : List ℕ) (result shift : ℕ)
    → b < 128
    → shift < 64
    → result < 2 ^ shift
    → b * 2 ^ shift < 2 ^ 64
    → IsReadBack (read_from (b ∷ rest) result shift) (result + b * 2 ^ shift) rest
unfolding read_loop
small_byte b [] result shift h below low fits =
    let in_range : ltb shift 64 ≡ true = ground arith in
    rw in_range (_, refl, joined_byte b b result shift (omega (arith, low_seven b)) low fits, refl)
small_byte b (next ∷ rest) result shift h below low fits =
    let in_range : ltb shift 64 ≡ true = ground arith in
    rw (in_range, stops_at-small b h)
      (_, refl, joined_byte b b result shift (omega (arith, low_seven b)) low fits, refl)

pub marked_byte :
    (b next : ℕ) (rest : List ℕ) (result shift : ℕ)
    → b < 128
    → shift < 64
    → result < 2 ^ shift
    → b * 2 ^ shift < 2 ^ 64
    → read_from (bit_or 128 b ∷ next ∷ rest) result shift
      ≡ read_from (next ∷ rest) (result + b * 2 ^ shift) (shift + 7)
unfolding read_loop
marked_byte b next rest result shift h below low fits =
    let in_range : ltb shift 64 ≡ true = ground arith in
    rw (in_range, marked b h, goes_on-marked b h)
      (ap (λ (t : ℕ). read_loop next rest t (shift + 7))
        (joined_byte (128 + b) b result shift (omega (arith, low_seven (128 + b))) low fits))

marked_first :
    (b : ℕ) (more : List ℕ) (result shift value : ℕ) (rest : List ℕ)
    → b < 128
    → shift < 64
    → result < 2 ^ shift
    → b * 2 ^ shift < 2 ^ 64
    → IsReadBack (read_from more (result + b * 2 ^ shift) (shift + 7)) value rest
    → IsReadBack (read_from (bit_or 128 b ∷ more) result shift) value rest
marked_first b [] result shift value rest h below low fits (r, ends, found, same) = absurd cc
marked_first b (next ∷ more) result shift value rest h below low fits found =
    rw (marked_byte b next more result shift h below low fits) found

-- What the next byte starts from.
total : (v result s : ℕ) → result + v % 128 * 2 ^ s + v / 128 * 2 ^ (s + 7) ≡ result + v * 2 ^ s
total v result s = rw (shift-more s) (regroup result v (2 ^ s))

next_fits : (v s : ℕ) → v * 2 ^ s < 2 ^ 64 → v / 128 * 2 ^ (s + 7) < 2 ^ 64
next_fits v s h = omega (arith, total v 0 s)

next_low : (v result s : ℕ) → result < 2 ^ s → result + v % 128 * 2 ^ s < 2 ^ (s + 7)
next_low v result s h = rw (shift-more s) (grown result (v % 128) (2 ^ s) h (omega arith))

-- A reader that starts with the low bits read finds the rest of the value.
read_back :
    (room v result shift : ℕ) (rest : List ℕ)
    → v < 128 ^ suc room
    → shift < 64
    → v * 2 ^ shift < 2 ^ 64
    → result < 2 ^ shift
    → IsReadBack
        (read_from (encode_uleb (suc room) v ++ rest) result shift)
        (result + v * 2 ^ shift)
        rest
unfolding encode_uleb
read_back zero v result shift rest room_enough below fits low =
    let small : v < 128 = omega (arith, pow-suc 128 0, pow-zero 128) in
    let last : v / 128 ≡ 0 = omega arith in
    rw (last, low_seven v, mod-eq_of_lt small) (small_byte v rest result shift small below low fits)
read_back (suc room) v result shift rest room_enough below fits low =
    elim (Bool-cases (v / 128 == 0)) [
      | inl e ↦
          let small : v < 128 = ground arith in
          rw (e, low_seven v, mod-eq_of_lt small)
            (small_byte v rest result shift small below low fits)
      | inr e ↦
          let more = positive e in
          let (r, ends, value, same) =
            read_back room (v / 128) (result + v % 128 * 2 ^ shift) (shift + 7) rest
              (omega (arith, pow-suc 128 (suc room))) (another_round v shift fits more)
              (next_fits v shift fits) (next_low v result shift low) in
          rw (e, low_seven v)
            (marked_first (v % 128) (encode_uleb (suc room) (v / 128) ++ rest) result shift
              (result + v * 2 ^ shift) rest (omega arith) below low
              (low_part v (2 ^ shift) (2 ^ 64) fits) (r, ends, value ∙ total v result shift, same))
    ]
  where
    positive : v / 128 == 0 ≡ false → 0 < v / 128
    positive e = ground arith

decoded :
    (bytes : List ℕ) (v : ℕ) (rest : List ℕ)
    → IsReadBack (read_from bytes 0 0) v rest
    → decode_uleb bytes ≡ some (v, rest)
unfolding decode_uleb
decoded [] v rest (r, ends, value, same) = absurd cc
decoded (b ∷ bytes) v rest (r, ends, value, same) =
    ap answer_u ends
    ∙ ap (λ (t : ℕ). some (t, r.rest)) value
    ∙ ap (λ (t : List ℕ). some (v, t)) same

-- What EncodeULEB writes with room for 10 bytes, DecodeULEB reads back, and leaves the bytes that
-- follow.
pub decode_uleb-encode_uleb :
    (v : ℕ) (rest : List ℕ) → v < 2 ^ 64 → decode_uleb (encode_uleb 10 v ++ rest) ≡ some (v, rest)
decode_uleb-encode_uleb v rest h =
    let (r, ends, value, same) =
      read_back 9 v 0 0 rest (omega arith) (omega arith) (omega arith) (omega arith) in
    decoded (encode_uleb 10 v ++ rest) v rest (r, ends, omega (arith, value), same)
