-- ===== src/Isa/Operations.antt =====
-- src/cbc/isa_rt.h and emitter/encoding_rt.cpp: operations with a 64-bit operand, bit fields and struct fields, with the
-- Decode of each and, where there is one, its Encode.
pub mod RoundTrip
use cbc_engine.Prelude.{leb, ℕ, ◌+◌, ◌*◌, ◌/◌, ◌%◌, ◌^◌, ◌<◌, ◌≡◌, List, ◌++◌, Option, none, some}
use cbc_engine.Isa.{Reader, ◌>>=◌, pure, run, read, bytes_of, ◌>>◌, assert}
use cbc_engine.Isa.Fields.{
  Rr, Xr, Xx, XImm12, RImm12, decode_rr, decode_xr, decode_xx, decode_x_imm12, decode_r_imm12,
  encode_rr, encode_xr, encode_xx, encode_x_imm12, encode_r_imm12,
}

pub record BinaryChecked : Type 0 where
  pub opc : ℕ
  pub op : ℕ
  pub rr : Rr
  pub imm : ℕ

pub decode_binary_checked : Reader BinaryChecked
decode_binary_checked bytes = run bytes do
  opc ← read 1
  op ← read 1
  assert (leb op 11)
  rr ← decode_rr
  imm ← read 8
  pure (record { opc = opc; op = op; rr = rr; imm = imm })

unfoldable pub encode_binary_checked : BinaryChecked → List ℕ
encode_binary_checked command =
    bytes_of 1 command.opc
    ++ (bytes_of 1 command.op ++ (encode_rr command.rr ++ bytes_of 8 command.imm))

pub record BinarySaturating : Type 0 where
  pub opc : ℕ
  pub op : ℕ
  pub rr : Rr
  pub imm : ℕ

pub decode_binary_saturating : Reader BinarySaturating
decode_binary_saturating bytes = run bytes do
  opc ← read 1
  op ← read 1
  assert (leb op 14)
  rr ← decode_rr
  imm ← read 8
  pure (record { opc = opc; op = op; rr = rr; imm = imm })

unfoldable pub encode_binary_saturating : BinarySaturating → List ℕ
encode_binary_saturating command =
    bytes_of 1 command.opc
    ++ (bytes_of 1 command.op ++ (encode_rr command.rr ++ bytes_of 8 command.imm))

pub record Bfx : Type 0 where
  pub opc : ℕ
  pub rr : Rr
  pub offs : ℕ
  pub size : ℕ

pub decode_bfx : Reader Bfx
decode_bfx bytes = run bytes do
  opc ← read 1
  rr ← decode_rr
  offs ← read 1
  size ← read 1
  pure (record { opc = opc; rr = rr; offs = offs; size = size })

unfoldable pub encode_bfx : Bfx → List ℕ
encode_bfx command =
    bytes_of 1 command.opc
    ++ (encode_rr command.rr ++ (bytes_of 1 command.offs ++ bytes_of 1 command.size))

pub record Iof : Type 0 where
  pub opc : ℕ
  pub rr : Rr
  pub imm64 : ℕ

pub decode_iof : Reader Iof
decode_iof bytes = run bytes do
  opc ← read 1
  rr ← decode_rr
  imm64 ← read 8
  pure (record { opc = opc; rr = rr; imm64 = imm64 })

unfoldable pub encode_iof : Iof → List ℕ
encode_iof command = bytes_of 1 command.opc ++ (encode_rr command.rr ++ bytes_of 8 command.imm64)

pub record StructFieldOp : Type 0 where
  pub opc : ℕ
  pub rr : Rr
  pub offset : ℕ
  pub ti : ℕ

pub decode_struct_field_op : Reader StructFieldOp
decode_struct_field_op bytes = run bytes do
  opc ← read 1
  rr ← decode_rr
  offset ← read 1
  ti ← read 8
  pure (record { opc = opc; rr = rr; offset = offset; ti = ti })

unfoldable pub encode_struct_field_op : StructFieldOp → List ℕ
encode_struct_field_op command =
    bytes_of 1 command.opc
    ++ (encode_rr command.rr ++ (bytes_of 1 command.offset ++ bytes_of 8 command.ti))

pub record Index : Type 0 where
  pub opc : ℕ
  pub rr : Rr
  pub idx : Xr
  pub ti : ℕ

pub decode_index : Reader Index
decode_index bytes = run bytes do
  opc ← read 1
  rr ← decode_rr
  idx ← decode_xr
  ti ← read 8
  pure (record { opc = opc; rr = rr; idx = idx; ti = ti })

unfoldable pub encode_index : Index → List ℕ
encode_index command =
    bytes_of 1 command.opc
    ++ (encode_rr command.rr ++ (encode_xr command.idx ++ bytes_of 8 command.ti))

pub record IndexGeneric : Type 0 where
  pub opc : ℕ
  pub rr : Rr
  pub idx : Rr

pub decode_index_generic : Reader IndexGeneric
decode_index_generic bytes = run bytes do
  opc ← read 1
  rr ← decode_rr
  idx ← decode_rr
  pure (record { opc = opc; rr = rr; idx = idx })

unfoldable pub encode_index_generic : IndexGeneric → List ℕ
encode_index_generic command =
    bytes_of 1 command.opc ++ (encode_rr command.rr ++ encode_rr command.idx)

pub record ConstIndexGeneric : Type 0 where
  pub opc : ℕ
  pub rr : Rr
  pub ti : Rr
  pub idx : ℕ

pub decode_const_index_generic : Reader ConstIndexGeneric
decode_const_index_generic bytes = run bytes do
  opc ← read 1
  rr ← decode_rr
  ti ← decode_rr
  idx ← read 8
  pure (record { opc = opc; rr = rr; ti = ti; idx = idx })

unfoldable pub encode_const_index_generic : ConstIndexGeneric → List ℕ
encode_const_index_generic command =
    bytes_of 1 command.opc
    ++ (encode_rr command.rr ++ (encode_rr command.ti ++ bytes_of 8 command.idx))
