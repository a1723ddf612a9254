-- ===== src/Leb.antt =====
-- src/utils/lebencodings.cpp: variable-length integers. The buffer from `*bytes` to `end` is a list of
-- bytes; a reader answers with the value and the bytes past the new `*bytes`, a writer with the bytes
-- that it put, at most as many as there is room. Shifts are on `uint64_t`; a shift by 64 or more, which
-- C++ leaves undefined, is `none`.
pub mod Unsigned
pub mod Signed
pub mod RoundTrip
pub mod Runs
use cbc_engine.Prelude.{ℕ, zero, suc, ◌+◌, ◌-◌, ◌*◌, ◌/◌, ◌%◌, ◌^◌, ltb, ◌==◌, if◌then◌else◌}
use cbc_engine.Prelude.{Bool, true, false, not, ◌&&◌, ◌||◌, Option, none, some}
use cbc_engine.Prelude.{List, [], ◌∷◌, bit_and, bit_or}
use cbc_engine.Prelude.Int.{ℤ, pos, negsuc}
use cbc_engine.Word.{w64, to_signed, shift_right}

-- `(b & 0x80) != 0`
abbrev pub goes_on : ℕ → Bool
goes_on b = not (bit_and b 128 == 0)

-- `result |= static_cast<uint64_t>(b & 0x7f) << shift`
abbrev pub joined : ℕ → ℕ → ℕ → ℕ
joined result b shift = bit_or result (bit_and b 127 * 2 ^ shift % 2 ^ 64)

-- What the loop of a reader leaves: `result`, `shift`, the last byte and the bytes that follow.
pub record Read : Type 0 where
  pub result : ℕ
  pub shift : ℕ
  pub last : ℕ
  pub rest : List ℕ

-- The `do` loop of the readers, from a byte that is there.
pub read_loop : ℕ → List ℕ → ℕ → ℕ → Option Read
read_loop b [] result shift =
    if ltb shift 64
    then some (record { result = joined result b shift; shift = shift + 7; last = b; rest = [] })
    else none
read_loop b (next ∷ rest) result shift =
    let more = read_loop next rest (joined result b shift) (shift + 7) in
    if ltb shift 64
    then if goes_on b
      then more
      else some (record {
        result = joined result b shift;
        shift = shift + 7;
        last = b;
        rest = next ∷ rest;
      })
    else none

abbrev pub answer_u : Option Read → Option (ℕ × List ℕ)
answer_u none = none
answer_u (some r) = some (r.result, r.rest)

-- Where the buffer is empty, the readers answer 0.
pub decode_uleb : List ℕ → Option (ℕ × List ℕ)
unfolding read_loop
decode_uleb [] = some (0, [])
decode_uleb (b ∷ rest) = answer_u (read_loop b rest 0 0)

-- The sign extension after the loop of DecodeSLEB.
abbrev pub extended : Read → ℕ
extended r =
    if ltb r.shift 64 && not (bit_and r.last 64 == 0)
    then bit_or r.result ((2 ^ 64 - 1) * 2 ^ r.shift % 2 ^ 64)
    else r.result

abbrev pub answer_s : Option Read → Option (ℤ × List ℕ)
answer_s none = none
answer_s (some r) = some (to_signed w64 (extended r), r.rest)

pub decode_sleb : List ℕ → Option (ℤ × List ℕ)
unfolding read_loop
decode_sleb [] = some (pos 0, [])
decode_sleb (b ∷ rest) = answer_s (read_loop b rest 0 0)

-- EncodeULEB, with room for a number of bytes.
pub encode_uleb : ℕ → ℕ → List ℕ
encode_uleb zero value = []
encode_uleb (suc room) value =
    let more = encode_uleb room (value / 2 ^ 7) in
    if value / 2 ^ 7 == 0 then bit_and value 127 ∷ [] else bit_or 128 (bit_and value 127) ∷ more

-- `value & 0x7f` of an `int64_t`
abbrev pub low_bits : ℤ → ℕ
low_bits (pos n) = n % 128
low_bits (negsuc n) = 127 - n % 128

-- `((value == 0) && (sign == 0)) || ((value == -1) && (sign != 0))`
abbrev pub is_last : ℤ → ℕ → Bool
is_last (pos zero) sign = sign == 0
is_last (negsuc zero) sign = not (sign == 0)
is_last _ sign = false

-- EncodeSLEB
pub encode_sleb : ℕ → ℤ → List ℕ
encode_sleb zero value = []
encode_sleb (suc room) value =
    let more = encode_sleb room (shift_right value 7) in
    if is_last (shift_right value 7) (bit_and (low_bits value) 64)
    then low_bits value ∷ []
    else bit_or 128 (low_bits value) ∷ more
