-- ===== src/Isa/Stores.antt =====
-- src/cbc/isa_rt.h and emitter/encoding_rt.cpp: the formats whose size depends on the opcode, and
-- InitOption. A `uint64_t` immediate is kept sign-extended.
pub mod RoundTrip
pub mod Frame
use cbc_engine.Prelude.{
  Bool, ◌&&◌, ltb, leb, ℕ, ◌*◌, ◌/◌, ◌%◌, ◌^◌, List, [], ◌++◌, bit_or, ◌==◌, if◌then◌else◌,
}
use cbc_engine.Prelude.Int.{ℤ}
use cbc_engine.Word.{w32, sget, to_unsigned}
use cbc_engine.Bits.{sign_extend_64, is_n_bits_signed_64}
use cbc_engine.Isa.Opcode
use cbc_engine.Isa.{
  Reader, ◌>>=◌, ◌>>◌, pure, run, read, bytes_of, peek_opcode, assert, fatal, ireg_count,
}
use cbc_engine.Isa.Fields.{Rr, decode_rr, encode_rr, low_4, above_4}

pub record InitOption : Type 0 where
  pub opc : ℕ
  pub src : ℕ
  pub underlying_ti : ℕ

pub decode_init_option : Reader InitOption
decode_init_option bytes = run bytes do
  opc ← read 1
  b ← read 1
  assert (ltb (low_4 b) ireg_count)
  assert (ltb (above_4 b) ireg_count)
  pure (record { opc = opc; src = low_4 b; underlying_ti = above_4 b })

unfoldable pub encode_init_option : InitOption → List ℕ
encode_init_option command =
    bytes_of 1 command.opc ++ bytes_of 1 (bit_or command.src (command.underlying_ti * 2 ^ 4))

pub record StoreGenericOp : Type 0 where
  pub opc : ℕ
  pub src : ℕ
  pub base : ℕ
  pub derived : ℕ
  pub ti : ℕ
  pub offset : ℕ

-- Decode0, Decode1 and Decode4: the offset takes no byte, one or four.
store_generic_of : ℕ → Rr → Rr → ℕ → StoreGenericOp
store_generic_of opc rr1 rr2 offset = record {
  opc = opc;
  src = rr1.x;
  base = rr1.y;
  derived = rr2.x;
  ti = rr2.y;
  offset = offset;
}

-- IReg::From on the four registers.
abbrev pub are_iregs : Rr → Rr → Bool
are_iregs a b = ltb a.x ireg_count && ltb a.y ireg_count && ltb b.x ireg_count && ltb b.y ireg_count

decode_store_generic_0 : Reader StoreGenericOp
decode_store_generic_0 bytes = run bytes do
  opc ← read 1
  assert (opc == Opcode.store_generic)
  rr1 ← decode_rr
  rr2 ← decode_rr
  assert (are_iregs rr1 rr2)
  pure (store_generic_of opc rr1 rr2 0)

decode_store_generic_1 : Reader StoreGenericOp
decode_store_generic_1 bytes = run bytes do
  opc ← read 1
  assert (opc == Opcode.store_generic_1)
  rr1 ← decode_rr
  rr2 ← decode_rr
  offset ← read 1
  assert (are_iregs rr1 rr2)
  pure (store_generic_of opc rr1 rr2 offset)

decode_store_generic_4 : Reader StoreGenericOp
decode_store_generic_4 bytes = run bytes do
  opc ← read 1
  assert (opc == Opcode.store_generic_4)
  rr1 ← decode_rr
  rr2 ← decode_rr
  offset ← read 4
  assert (are_iregs rr1 rr2)
  pure (store_generic_of opc rr1 rr2 offset)

pub decode_store_generic_op : Reader StoreGenericOp
decode_store_generic_op bytes = run bytes do
  opc ← peek_opcode
  if opc == Opcode.store_generic
      then decode_store_generic_0
      else if opc == Opcode.store_generic_1
      then decode_store_generic_1
      else if opc == Opcode.store_generic_4
      then decode_store_generic_4
      else fatal

pub offset_bytes : ℕ → ℕ → List ℕ
offset_bytes opc offset =
    if opc == Opcode.store_generic
    then []
    else if opc == Opcode.store_generic_1
    then bytes_of 1 (offset % 2 ^ 8)
    else bytes_of 4 offset

unfoldable pub encode_store_generic_op : StoreGenericOp → List ℕ
encode_store_generic_op command =
    bytes_of 1 command.opc
    ++ (encode_rr (record { x = command.src; y = command.base })
        ++ (encode_rr (record { x = command.derived; y = command.ti })
            ++ offset_bytes command.opc command.offset))

pub record StoreFrameImm : Type 0 where
  pub opc : ℕ
  pub stk : ℕ
  pub imm : ℕ
  pub offs : ℤ

-- Decode1 to Decode8.
decode_store_frame_imm_1 : Reader StoreFrameImm
decode_store_frame_imm_1 bytes = run bytes do
  opc ← read 1
  assert (opc == Opcode.store_frame_imm_1)
  stk ← read 1
  assert (leb stk 7)
  v ← read 1
  offs ← read 4
  assert (is_n_bits_signed_64 (sign_extend_64 v 8) 8)
  pure (record { opc = opc; stk = stk; imm = sign_extend_64 v 8; offs = sget w32 offs })

decode_store_frame_imm_2 : Reader StoreFrameImm
decode_store_frame_imm_2 bytes = run bytes do
  opc ← read 1
  assert (opc == Opcode.store_frame_imm_2)
  stk ← read 1
  assert (leb stk 7)
  v ← read 2
  offs ← read 4
  assert (is_n_bits_signed_64 (sign_extend_64 v 16) 16)
  pure (record { opc = opc; stk = stk; imm = sign_extend_64 v 16; offs = sget w32 offs })

decode_store_frame_imm_4 : Reader StoreFrameImm
decode_store_frame_imm_4 bytes = run bytes do
  opc ← read 1
  assert (opc == Opcode.store_frame_imm_4)
  stk ← read 1
  assert (leb stk 7)
  v ← read 4
  offs ← read 4
  assert (is_n_bits_signed_64 (sign_extend_64 v 32) 32)
  pure (record { opc = opc; stk = stk; imm = sign_extend_64 v 32; offs = sget w32 offs })

decode_store_frame_imm_8 : Reader StoreFrameImm
decode_store_frame_imm_8 bytes = run bytes do
  opc ← read 1
  assert (opc == Opcode.store_frame_imm_8)
  stk ← read 1
  assert (leb stk 7)
  v ← read 8
  offs ← read 4
  assert (is_n_bits_signed_64 v 64)
  pure (record { opc = opc; stk = stk; imm = v; offs = sget w32 offs })

pub decode_store_frame_imm : Reader StoreFrameImm
decode_store_frame_imm bytes = run bytes do
  opc ← peek_opcode
  if opc == Opcode.store_frame_imm_1
      then decode_store_frame_imm_1
      else if opc == Opcode.store_frame_imm_2
      then decode_store_frame_imm_2
      else if opc == Opcode.store_frame_imm_4
      then decode_store_frame_imm_4
      else if opc == Opcode.store_frame_imm_8
      then decode_store_frame_imm_8
      else fatal

unfoldable pub imm_bytes : ℕ → ℕ → List ℕ
imm_bytes opc imm =
    if opc == Opcode.store_frame_imm_1
    then bytes_of 1 (imm % 2 ^ 8)
    else if opc == Opcode.store_frame_imm_2
    then bytes_of 2 (imm % 2 ^ 16)
    else if opc == Opcode.store_frame_imm_4
    then bytes_of 4 (imm % 2 ^ 32)
    else bytes_of 8 imm

unfoldable pub encode_store_frame_imm : StoreFrameImm → List ℕ
encode_store_frame_imm command =
    bytes_of 1 command.opc
    ++ (bytes_of 1 (command.stk % 2 ^ 8)
        ++ (imm_bytes command.opc command.imm ++ bytes_of 4 (to_unsigned w32 command.offs)))
