-- ===== src/Isa/Immediates.antt =====
-- src/cbc/isa_rt.h and emitter/encoding_rt.cpp: the formats with immediates, with the
-- Decode of each and, where there is one, its Encode.
pub mod RoundTrip
use cbc_engine.Prelude.{ℕ, ◌+◌, ◌*◌, ◌/◌, ◌%◌, ◌^◌, ◌<◌, ◌≡◌, List, ◌++◌, Option, none, some}
use cbc_engine.Isa.{Reader, ◌>>=◌, pure, run, read, bytes_of}
use cbc_engine.Isa.Fields.{
  Rr, Xr, Xx, XImm12, RImm12, decode_rr, decode_xr, decode_xx, decode_x_imm12, decode_r_imm12,
  encode_rr, encode_xr, encode_xx, encode_x_imm12, encode_r_imm12,
}

pub record B3xi12 : Type 0 where
  pub opc : ℕ
  pub xi12 : XImm12

pub decode_b3xi12 : Reader B3xi12
decode_b3xi12 bytes =
    run bytes do opc ← read 1; xi12 ← decode_x_imm12; pure (record { opc = opc; xi12 = xi12 })

unfoldable pub encode_b3xi12 : B3xi12 → List ℕ
encode_b3xi12 command = bytes_of 1 command.opc ++ encode_x_imm12 command.xi12

pub record B4xi12i8 : Type 0 where
  pub opc : ℕ
  pub xi12 : XImm12
  pub imm8 : ℕ

pub decode_b4xi12i8 : Reader B4xi12i8
decode_b4xi12i8 bytes = run bytes do
  opc ← read 1
  xi12 ← decode_x_imm12
  imm8 ← read 1
  pure (record { opc = opc; xi12 = xi12; imm8 = imm8 })

pub record B4xi12rr : Type 0 where
  pub opc : ℕ
  pub xi12 : XImm12
  pub rr : Rr

pub decode_b4xi12rr : Reader B4xi12rr
decode_b4xi12rr bytes = run bytes do
  opc ← read 1
  xi12 ← decode_x_imm12
  rr ← decode_rr
  pure (record { opc = opc; xi12 = xi12; rr = rr })

unfoldable pub encode_b4xi12rr : B4xi12rr → List ℕ
encode_b4xi12rr command =
    bytes_of 1 command.opc ++ (encode_x_imm12 command.xi12 ++ encode_rr command.rr)

pub record B5xi12ri12 : Type 0 where
  pub opc : ℕ
  pub xi12 : XImm12
  pub ri12 : RImm12

pub decode_b5xi12ri12 : Reader B5xi12ri12
decode_b5xi12ri12 bytes = run bytes do
  opc ← read 1
  xi12 ← decode_x_imm12
  ri12 ← decode_r_imm12
  pure (record { opc = opc; xi12 = xi12; ri12 = ri12 })

unfoldable pub encode_b5xi12ri12 : B5xi12ri12 → List ℕ
encode_b5xi12ri12 command =
    bytes_of 1 command.opc ++ (encode_x_imm12 command.xi12 ++ encode_r_imm12 command.ri12)

pub record B5i32 : Type 0 where
  pub opc : ℕ
  pub imm32 : ℕ

pub decode_b5i32 : Reader B5i32
decode_b5i32 bytes =
    run bytes do opc ← read 1; imm32 ← read 4; pure (record { opc = opc; imm32 = imm32 })

unfoldable pub encode_b5i32 : B5i32 → List ℕ
encode_b5i32 command = bytes_of 1 command.opc ++ bytes_of 4 command.imm32

pub record B6xri32 : Type 0 where
  pub opc : ℕ
  pub xr : Xr
  pub imm32 : ℕ

pub decode_b6xri32 : Reader B6xri32
decode_b6xri32 bytes = run bytes do
  opc ← read 1
  xr ← decode_xr
  imm32 ← read 4
  pure (record { opc = opc; xr = xr; imm32 = imm32 })

unfoldable pub encode_b6xri32 : B6xri32 → List ℕ
encode_b6xri32 command =
    bytes_of 1 command.opc ++ (encode_xr command.xr ++ bytes_of 4 command.imm32)

pub record B7xrrri32 : Type 0 where
  pub opc : ℕ
  pub xr : Xr
  pub rr : Rr
  pub imm32 : ℕ

pub decode_b7xrrri32 : Reader B7xrrri32
decode_b7xrrri32 bytes = run bytes do
  opc ← read 1
  xr ← decode_xr
  rr ← decode_rr
  imm32 ← read 4
  pure (record { opc = opc; xr = xr; rr = rr; imm32 = imm32 })

unfoldable pub encode_b7xrrri32 : B7xrrri32 → List ℕ
encode_b7xrrri32 command =
    bytes_of 1 command.opc
    ++ (encode_xr command.xr ++ (encode_rr command.rr ++ bytes_of 4 command.imm32))

pub record B9i64 : Type 0 where
  pub opc : ℕ
  pub imm64 : ℕ

pub decode_b9i64 : Reader B9i64
decode_b9i64 bytes =
    run bytes do opc ← read 1; imm64 ← read 8; pure (record { opc = opc; imm64 = imm64 })

unfoldable pub encode_b9i64 : B9i64 → List ℕ
encode_b9i64 command = bytes_of 1 command.opc ++ bytes_of 8 command.imm64

pub record B10xri64 : Type 0 where
  pub opc : ℕ
  pub xr : Xr
  pub imm64 : ℕ

pub decode_b10xri64 : Reader B10xri64
decode_b10xri64 bytes = run bytes do
  opc ← read 1
  xr ← decode_xr
  imm64 ← read 8
  pure (record { opc = opc; xr = xr; imm64 = imm64 })

unfoldable pub encode_b10xri64 : B10xri64 → List ℕ
encode_b10xri64 command =
    bytes_of 1 command.opc ++ (encode_xr command.xr ++ bytes_of 8 command.imm64)

pub record B13i64i32 : Type 0 where
  pub opc : ℕ
  pub imm64 : ℕ
  pub imm32 : ℕ

pub decode_b13i64i32 : Reader B13i64i32
decode_b13i64i32 bytes = run bytes do
  opc ← read 1
  imm64 ← read 8
  imm32 ← read 4
  pure (record { opc = opc; imm64 = imm64; imm32 = imm32 })

unfoldable pub encode_b13i64i32 : B13i64i32 → List ℕ
encode_b13i64i32 command =
    bytes_of 1 command.opc ++ (bytes_of 8 command.imm64 ++ bytes_of 4 command.imm32)
