-- ===== src/Bits/Runs.antt =====
-- Fields of concrete words.
use cbc_engine.Prelude.{◌+◌, ◌%◌, ◌*◌, ◌-◌, ◌^◌, ◌≤◌, ◌<◌, ◌≡◌, refl, arith, some}
use cbc_engine.Bits.{align_up, bits, rotate_right_64, sign_extend_64}
use cbc_engine.Bits.Fields.{align_up-least, bits-field, rotate_right_64-parts}

align_up-least_example : (13 ≤ align_up 13 8) × (align_up 13 8 < 13 + 8) × (align_up 13 8 % 8 ≡ 0)
align_up-least_example = align_up-least 13 8 (omega arith) (omega arith)

bits-field_example : bits 720 4 7 ≡ some 13
bits-field_example = bits-field 720 4 7 (omega arith) (omega arith)

rotate_right_64-parts_example : rotate_right_64 5 1 ≡ 2 + 1 * 2 ^ 63
rotate_right_64-parts_example = rotate_right_64-parts 5 1 (omega arith) (omega arith) (omega arith)

-- -1 of 12 bits.
all_ones : sign_extend_64 4095 12 ≡ 2 ^ 64 - 1
unfolding sign_extend_64
all_ones = refl
