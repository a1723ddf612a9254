-- ===== src/Isa/Fields.antt =====
-- src/cbc/isa.h, Format: the packed fields of the instructions, and how they are read and written.
-- A register is its number, an Imm12 the 16 bits that it keeps, of which the format holds 12.
pub mod RoundTrip
use cbc_engine.Prelude.{ℕ, ◌*◌, ◌/◌, ◌%◌, ◌^◌, List, bit_or, bit_and, Option, some}
use cbc_engine.Isa.{Reader, ◌>>=◌, pure, run, read, bytes_of}

-- Two fields of 4 bits in a byte, and a field of 4 bits and one of 12 in two bytes.
abbrev pub low_4 : ℕ → ℕ
low_4 b = bit_and b 15

abbrev pub above_4 : ℕ → ℕ
above_4 b = b / 2 ^ 4

pub record Rr : Type 0 where
  pub x : ℕ
  pub y : ℕ

pub decode_rr : Reader Rr
decode_rr bytes = run bytes do b ← read 1; pure (record { x = low_4 b; y = above_4 b })

unfoldable pub encode_rr : Rr → List ℕ
encode_rr field = bytes_of 1 (bit_or field.x (field.y * 2 ^ 4))

pub record Xr : Type 0 where
  pub imm : ℕ
  pub r : ℕ

pub decode_xr : Reader Xr
decode_xr bytes = run bytes do b ← read 1; pure (record { imm = low_4 b; r = above_4 b })

pub encode_xr : Xr → List ℕ
encode_xr field = bytes_of 1 (bit_or field.imm (field.r * 2 ^ 4))

pub record Xx : Type 0 where
  pub imm1 : ℕ
  pub imm2 : ℕ

pub decode_xx : Reader Xx
decode_xx bytes = run bytes do b ← read 1; pure (record { imm1 = low_4 b; imm2 = above_4 b })

pub encode_xx : Xx → List ℕ
encode_xx field = bytes_of 1 (bit_or field.imm1 (field.imm2 * 2 ^ 4))

pub record RImm4 : Type 0 where
  pub r : ℕ
  pub imm4 : ℕ

pub decode_r_imm4 : Reader RImm4
decode_r_imm4 bytes = run bytes do b ← read 1; pure (record { r = low_4 b; imm4 = above_4 b })

pub record XImm12 : Type 0 where
  pub imm4 : ℕ
  pub imm12 : ℕ

pub decode_x_imm12 : Reader XImm12
decode_x_imm12 bytes = run bytes do b ← read 2; pure (record { imm4 = low_4 b; imm12 = above_4 b })

unfoldable pub encode_x_imm12 : XImm12 → List ℕ
encode_x_imm12 field = bytes_of 2 (bit_or field.imm4 (field.imm12 * 2 ^ 4) % 2 ^ 16)

pub record RImm12 : Type 0 where
  pub r : ℕ
  pub imm12 : ℕ

pub decode_r_imm12 : Reader RImm12
decode_r_imm12 bytes = run bytes do b ← read 2; pure (record { r = low_4 b; imm12 = above_4 b })

unfoldable pub encode_r_imm12 : RImm12 → List ℕ
encode_r_imm12 field = bytes_of 2 (bit_or field.r (field.imm12 * 2 ^ 4) % 2 ^ 16)
