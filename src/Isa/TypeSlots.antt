-- ===== src/Isa/TypeSlots.antt =====
-- src/cbc/isa_rt.h and emitter/encoding_rt.cpp: copies between type slots, with the
-- Decode of each and, where there is one, its Encode.
pub mod RoundTrip
use cbc_engine.Prelude.{ℕ, ◌+◌, ◌*◌, ◌/◌, ◌%◌, ◌^◌, ◌<◌, ◌≡◌, List, ◌++◌, Option, none, some}
use cbc_engine.Isa.{Reader, ◌>>=◌, pure, run, read, bytes_of}
use cbc_engine.Isa.Fields.{
  Rr, Xr, Xx, XImm12, RImm12, decode_rr, decode_xr, decode_xx, decode_x_imm12, decode_r_imm12,
  encode_rr, encode_xr, encode_xx, encode_x_imm12, encode_r_imm12,
}

pub record CopyTypeSlot : Type 0 where
  pub opc : ℕ
  pub dst_offset : ℕ
  pub src_offset : ℕ
  pub ti : ℕ

pub decode_copy_type_slot : Reader CopyTypeSlot
decode_copy_type_slot bytes = run bytes do
  opc ← read 1
  dst_offset ← read 4
  src_offset ← read 4
  ti ← read 8
  pure (record { opc = opc; dst_offset = dst_offset; src_offset = src_offset; ti = ti })

unfoldable pub encode_copy_type_slot : CopyTypeSlot → List ℕ
encode_copy_type_slot command =
    bytes_of 1 command.opc
    ++ (bytes_of 4 command.dst_offset ++ (bytes_of 4 command.src_offset ++ bytes_of 8 command.ti))

pub record CopyTypeSlotGeneric : Type 0 where
  pub opc : ℕ
  pub dst_offset : ℕ
  pub src_offset : ℕ
  pub ti : Rr

pub decode_copy_type_slot_generic : Reader CopyTypeSlotGeneric
decode_copy_type_slot_generic bytes = run bytes do
  opc ← read 1
  dst_offset ← read 4
  src_offset ← read 4
  ti ← decode_rr
  pure (record { opc = opc; dst_offset = dst_offset; src_offset = src_offset; ti = ti })

unfoldable pub encode_copy_type_slot_generic : CopyTypeSlotGeneric → List ℕ
encode_copy_type_slot_generic command =
    bytes_of 1 command.opc
    ++ (bytes_of 4 command.dst_offset ++ (bytes_of 4 command.src_offset ++ encode_rr command.ti))

pub record CopyToTypeSlot : Type 0 where
  pub opc : ℕ
  pub dst_offset : ℕ
  pub src : Rr
  pub ti : ℕ

pub decode_copy_to_type_slot : Reader CopyToTypeSlot
decode_copy_to_type_slot bytes = run bytes do
  opc ← read 1
  dst_offset ← read 4
  src ← decode_rr
  ti ← read 8
  pure (record { opc = opc; dst_offset = dst_offset; src = src; ti = ti })

unfoldable pub encode_copy_to_type_slot : CopyToTypeSlot → List ℕ
encode_copy_to_type_slot command =
    bytes_of 1 command.opc
    ++ (bytes_of 4 command.dst_offset ++ (encode_rr command.src ++ bytes_of 8 command.ti))

pub record CopyToTypeSlotGeneric : Type 0 where
  pub opc : ℕ
  pub dst_offset : ℕ
  pub src : Rr
  pub ti : Rr

pub decode_copy_to_type_slot_generic : Reader CopyToTypeSlotGeneric
decode_copy_to_type_slot_generic bytes = run bytes do
  opc ← read 1
  dst_offset ← read 4
  src ← decode_rr
  ti ← decode_rr
  pure (record { opc = opc; dst_offset = dst_offset; src = src; ti = ti })

unfoldable pub encode_copy_to_type_slot_generic : CopyToTypeSlotGeneric → List ℕ
encode_copy_to_type_slot_generic command =
    bytes_of 1 command.opc
    ++ (bytes_of 4 command.dst_offset ++ (encode_rr command.src ++ encode_rr command.ti))

pub record CopyFromTypeSlot : Type 0 where
  pub opc : ℕ
  pub dst : Rr
  pub src_offset : ℕ
  pub ti : ℕ

pub decode_copy_from_type_slot : Reader CopyFromTypeSlot
decode_copy_from_type_slot bytes = run bytes do
  opc ← read 1
  dst ← decode_rr
  src_offset ← read 4
  ti ← read 8
  pure (record { opc = opc; dst = dst; src_offset = src_offset; ti = ti })

unfoldable pub encode_copy_from_type_slot : CopyFromTypeSlot → List ℕ
encode_copy_from_type_slot command =
    bytes_of 1 command.opc
    ++ (encode_rr command.dst ++ (bytes_of 4 command.src_offset ++ bytes_of 8 command.ti))

pub record CopyFromTypeSlotGeneric : Type 0 where
  pub opc : ℕ
  pub dst : Rr
  pub src_offset : ℕ
  pub ti : Rr

pub decode_copy_from_type_slot_generic : Reader CopyFromTypeSlotGeneric
decode_copy_from_type_slot_generic bytes = run bytes do
  opc ← read 1
  dst ← decode_rr
  src_offset ← read 4
  ti ← decode_rr
  pure (record { opc = opc; dst = dst; src_offset = src_offset; ti = ti })

unfoldable pub encode_copy_from_type_slot_generic : CopyFromTypeSlotGeneric → List ℕ
encode_copy_from_type_slot_generic command =
    bytes_of 1 command.opc
    ++ (encode_rr command.dst ++ (bytes_of 4 command.src_offset ++ encode_rr command.ti))
