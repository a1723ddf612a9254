-- ===== src/Isa/Copies.antt =====
-- src/cbc/isa_rt.h and emitter/encoding_rt.cpp: copies of records and of local variables, with the
-- Decode of each and, where there is one, its Encode.
pub mod RoundTrip
use cbc_engine.Prelude.{ℕ, ◌+◌, ◌*◌, ◌/◌, ◌%◌, ◌^◌, ◌<◌, ◌≡◌, List, ◌++◌, Option, none, some}
use cbc_engine.Isa.{Reader, ◌>>=◌, pure, run, read, bytes_of}
use cbc_engine.Isa.Fields.{
  Rr, Xr, Xx, XImm12, RImm12, decode_rr, decode_xr, decode_xx, decode_x_imm12, decode_r_imm12,
  encode_rr, encode_xr, encode_xx, encode_x_imm12, encode_r_imm12,
}

pub record CopyDerived : Type 0 where
  pub opc : ℕ
  pub dst : Rr
  pub src : Rr
  pub ti : ℕ

pub decode_copy_derived : Reader CopyDerived
decode_copy_derived bytes = run bytes do
  opc ← read 1
  dst ← decode_rr
  src ← decode_rr
  ti ← read 8
  pure (record { opc = opc; dst = dst; src = src; ti = ti })

unfoldable pub encode_copy_derived : CopyDerived → List ℕ
encode_copy_derived command =
    bytes_of 1 command.opc
    ++ (encode_rr command.dst ++ (encode_rr command.src ++ bytes_of 8 command.ti))

pub record CopyDerivedGeneric : Type 0 where
  pub opc : ℕ
  pub dst : Rr
  pub src : Rr
  pub ti : Rr

pub decode_copy_derived_generic : Reader CopyDerivedGeneric
decode_copy_derived_generic bytes = run bytes do
  opc ← read 1
  dst ← decode_rr
  src ← decode_rr
  ti ← decode_rr
  pure (record { opc = opc; dst = dst; src = src; ti = ti })

unfoldable pub encode_copy_derived_generic : CopyDerivedGeneric → List ℕ
encode_copy_derived_generic command =
    bytes_of 1 command.opc
    ++ (encode_rr command.dst ++ (encode_rr command.src ++ encode_rr command.ti))

pub record CopyLocal : Type 0 where
  pub opc : ℕ
  pub records : Rr
  pub ti : ℕ

pub decode_copy_local : Reader CopyLocal
decode_copy_local bytes = run bytes do
  opc ← read 1
  records ← decode_rr
  ti ← read 8
  pure (record { opc = opc; records = records; ti = ti })

unfoldable pub encode_copy_local : CopyLocal → List ℕ
encode_copy_local command =
    bytes_of 1 command.opc ++ (encode_rr command.records ++ bytes_of 8 command.ti)

pub record CopyLocalGeneric : Type 0 where
  pub opc : ℕ
  pub first : Rr
  pub second : Rr

pub decode_copy_local_generic : Reader CopyLocalGeneric
decode_copy_local_generic bytes = run bytes do
  opc ← read 1
  first ← decode_rr
  second ← decode_rr
  pure (record { opc = opc; first = first; second = second })

unfoldable pub encode_copy_local_generic : CopyLocalGeneric → List ℕ
encode_copy_local_generic command =
    bytes_of 1 command.opc ++ (encode_rr command.first ++ encode_rr command.second)
