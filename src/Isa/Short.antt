-- ===== src/Isa/Short.antt =====
-- src/cbc/isa_rt.h and emitter/encoding_rt.cpp: the short formats: registers and 4-bit immediates, with the
-- Decode of each and, where there is one, its Encode.
pub mod RoundTrip
use cbc_engine.Prelude.{ℕ, ◌+◌, ◌*◌, ◌/◌, ◌%◌, ◌^◌, ◌<◌, ◌≡◌, List, ◌++◌, Option, none, some}
use cbc_engine.Isa.{Reader, ◌>>=◌, pure, run, read, bytes_of}
use cbc_engine.Isa.Fields.{
  Rr, Xr, Xx, XImm12, RImm12, decode_rr, decode_xr, decode_xx, decode_x_imm12, decode_r_imm12,
  encode_rr, encode_xr, encode_xx, encode_x_imm12, encode_r_imm12,
}

pub record B1 : Type 0 where
  pub opc : ℕ

pub decode_b1 : Reader B1
decode_b1 bytes = run bytes do opc ← read 1; pure (record { opc = opc })

unfoldable pub encode_b1 : B1 → List ℕ
encode_b1 command = bytes_of 1 command.opc

pub record B2rr : Type 0 where
  pub opc : ℕ
  pub rr : Rr

pub decode_b2rr : Reader B2rr
decode_b2rr bytes = run bytes do opc ← read 1; rr ← decode_rr; pure (record { opc = opc; rr = rr })

unfoldable pub encode_b2rr : B2rr → List ℕ
encode_b2rr command = bytes_of 1 command.opc ++ encode_rr command.rr

pub record B2xr : Type 0 where
  pub opc : ℕ
  pub xr : Xr

pub decode_b2xr : Reader B2xr
decode_b2xr bytes = run bytes do opc ← read 1; xr ← decode_xr; pure (record { opc = opc; xr = xr })

unfoldable pub encode_b2xr : B2xr → List ℕ
encode_b2xr command = bytes_of 1 command.opc ++ encode_xr command.xr

pub record B3xri8 : Type 0 where
  pub opc : ℕ
  pub xr : Xr
  pub imm8 : ℕ

pub decode_b3xri8 : Reader B3xri8
decode_b3xri8 bytes = run bytes do
  opc ← read 1
  xr ← decode_xr
  imm8 ← read 1
  pure (record { opc = opc; xr = xr; imm8 = imm8 })

unfoldable pub encode_b3xri8 : B3xri8 → List ℕ
encode_b3xri8 command = bytes_of 1 command.opc ++ (encode_xr command.xr ++ bytes_of 1 command.imm8)

pub record B4xri16 : Type 0 where
  pub opc : ℕ
  pub xr : Xr
  pub imm : ℕ

pub decode_b4xri16 : Reader B4xri16
decode_b4xri16 bytes =
    run bytes
      do opc ← read 1; xr ← decode_xr; imm ← read 2; pure (record { opc = opc; xr = xr; imm = imm })

pub record B3xrrr : Type 0 where
  pub opc : ℕ
  pub xr : Xr
  pub rr : Rr

pub decode_b3xrrr : Reader B3xrrr
decode_b3xrrr bytes =
    run bytes
      do opc ← read 1; xr ← decode_xr; rr ← decode_rr; pure (record { opc = opc; xr = xr; rr = rr })

unfoldable pub encode_b3xrrr : B3xrrr → List ℕ
encode_b3xrrr command = bytes_of 1 command.opc ++ (encode_xr command.xr ++ encode_rr command.rr)

pub record B3xxrr : Type 0 where
  pub opc : ℕ
  pub xx : Xx
  pub rr : Rr

pub decode_b3xxrr : Reader B3xxrr
decode_b3xxrr bytes =
    run bytes
      do opc ← read 1; xx ← decode_xx; rr ← decode_rr; pure (record { opc = opc; xx = xx; rr = rr })

unfoldable pub encode_b3xxrr : B3xxrr → List ℕ
encode_b3xxrr command = bytes_of 1 command.opc ++ (encode_xx command.xx ++ encode_rr command.rr)

pub record B3rrrr : Type 0 where
  pub opc : ℕ
  pub rr1 : Rr
  pub rr2 : Rr

pub decode_b3rrrr : Reader B3rrrr
decode_b3rrrr bytes = run bytes do
  opc ← read 1
  rr1 ← decode_rr
  rr2 ← decode_rr
  pure (record { opc = opc; rr1 = rr1; rr2 = rr2 })

unfoldable pub encode_b3rrrr : B3rrrr → List ℕ
encode_b3rrrr command = bytes_of 1 command.opc ++ (encode_rr command.rr1 ++ encode_rr command.rr2)
