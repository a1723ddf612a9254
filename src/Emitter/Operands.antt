-- ===== src/Emitter/Operands.antt =====
-- src/cbc/emitter/emitter.cpp: the instructions whose size the emitter chooses by an operand.
pub mod Reads
pub mod Frame
use cbc_engine.Prelude.{ℕ, ◌+◌, ◌*◌, ◌%◌, ◌^◌, ltb, leb, ◌==◌, if◌then◌else◌, List, [], ◌∷◌, ◌++◌}
use cbc_engine.Prelude.{Bool, true, false, not, ◌||◌, bit_and, Option, none, some}
use cbc_engine.Prelude.Int.{ℤ}
use cbc_engine.Prelude.Partial.{◌>>=◌, ◌>>◌, assert}
use cbc_engine.Word.{Width, w8, w16, w32, w64}
use cbc_engine.Bits.{is_n_bits_signed_64}
use cbc_engine.Memory.{StoreAccessKind, st_8, st_16, st_32, st_64, st_ref, special, st_f32, st_f64}
use cbc_engine.Isa.Opcode
use cbc_engine.Isa.Short.{encode_b1, encode_b2rr, encode_b2xr}
use cbc_engine.Isa.Operations.{encode_binary_checked, encode_binary_saturating}
use cbc_engine.Isa.Stores.{
  StoreFrameImm, StoreGenericOp, encode_store_generic_op, encode_store_frame_imm,
}
use cbc_engine.Emitter.{Emitter, emit, is_32_or_64, of_width, short_immediate, binary_imm}

-- The ASSERTs of SatBinaryImm and of BinaryImm on Checked operations.
pub fits_width : Width → ℕ → Bool
fits_width w8 imm = is_n_bits_signed_64 imm 8 || leb imm 255
fits_width w16 imm = is_n_bits_signed_64 imm 16 || leb imm 65535
fits_width w32 imm = is_n_bits_signed_64 imm 32 || leb imm 4294967295
fits_width w64 imm = true

pub sat_binary_imm : ℕ → Width → ℕ → ℕ → ℕ → Emitter → Option Emitter
sat_binary_imm op width d l imm e = do
  assert (fits_width width imm)
  some (
      if is_n_bits_signed_64 imm 12
      then emit
          (short_immediate
            (of_width width Opcode.sbinimm8 Opcode.sbinimm16 Opcode.sbinimm32 Opcode.sbinimm64) op d
            l imm)
          e
      else emit
          (encode_binary_saturating (record {
            opc =
                of_width width Opcode.sbinimm8w Opcode.sbinimm16w Opcode.sbinimm32w
                  Opcode.sbinimm64w;
            op = op;
            rr = record { x = d; y = l };
            imm = imm;
          }))
          e)

pub checked_binary_imm : ℕ → Width → ℕ → ℕ → ℕ → Emitter → Option Emitter
checked_binary_imm op width d l imm e = do
  assert (fits_width width imm)
  some (
      if is_n_bits_signed_64 imm 12
      then emit
          (short_immediate
            (of_width width Opcode.cbini8i Opcode.cbini16i Opcode.cbini32i Opcode.cbini64i) op d l
            imm)
          e
      else emit
          (encode_binary_checked (record {
            opc = of_width width Opcode.cbini8w Opcode.cbini16w Opcode.cbini32w Opcode.cbini64w;
            op = op;
            rr = record { x = d; y = l };
            imm = imm;
          }))
          e)

-- Mov on both kinds of registers, by the opcode, Nop and Ret.
pub mov : ℕ → ℕ → ℕ → Emitter → Emitter
mov opc d s = emit (encode_b2rr (record { opc = opc; rr = record { x = d; y = s } }))

pub nop : Emitter → Emitter
nop = emit (encode_b1 (record { opc = Opcode.nop }))

pub ret : Emitter → Emitter
ret = emit (encode_b1 (record { opc = Opcode.ret }))

-- MovImm; AddI adds to the register that is zero.
pub mov_imm : Width → ℕ → ℕ → Emitter → Option Emitter
mov_imm width d imm e = do
  assert (is_32_or_64 width)
  if is_n_bits_signed_64 imm 4
      then some (
          emit
            (encode_b2xr
              (record { opc = Opcode.movi; xr = record { imm = bit_and imm 15; r = d } }))
            e)
      else binary_imm 0 width d 0 imm e

-- StoreGeneric: the opcode by the offset.
pub store_generic_opcode : ℕ → ℕ
store_generic_opcode offset =
    if offset == 0
    then Opcode.store_generic
    else if ltb offset 255
    then Opcode.store_generic_1
    else Opcode.store_generic_4

pub store_generic_command : ℕ → ℕ → ℕ → ℕ → ℕ → StoreGenericOp
store_generic_command src base_ref base ti offset = record {
  opc = store_generic_opcode offset;
  src = src;
  base = base_ref;
  derived = base;
  ti = ti;
  offset = offset;
}

pub store_generic : ℕ → ℕ → ℕ → ℕ → ℕ → Emitter → Emitter
store_generic src base_ref base ti offset =
    emit (encode_store_generic_op (store_generic_command src base_ref base ti offset))

-- StoreFrameImm: a reference is stored as 64 bits and has to be null; `none` is that ASSERT.
pub kind_number : StoreAccessKind → ℕ
kind_number st_8 = 0
kind_number st_16 = 1
kind_number st_32 = 2
kind_number st_64 = 3
kind_number st_ref = 4
kind_number special = 5
kind_number st_f32 = 6
kind_number st_f64 = 7

pub integral : StoreAccessKind → StoreAccessKind
integral st_ref = st_64
integral st_f32 = st_32
integral st_f64 = st_64
integral stk = stk

pub frame_opcode : StoreAccessKind → ℕ → ℕ
frame_opcode stk imm =
    if is_n_bits_signed_64 imm 8 || kind_number stk == 0
    then Opcode.store_frame_imm_1
    else if is_n_bits_signed_64 imm 16 || kind_number stk == 1
    then Opcode.store_frame_imm_2
    else if is_n_bits_signed_64 imm 32 || kind_number stk == 2
    then Opcode.store_frame_imm_4
    else Opcode.store_frame_imm_8

abbrev null_reference : StoreAccessKind → ℕ → Bool
null_reference st_ref imm = imm == 0
null_reference _ imm = true

pub store_frame_imm_command : StoreAccessKind → ℕ → ℤ → StoreFrameImm
store_frame_imm_command stk imm offset = record {
  opc = frame_opcode (integral stk) imm;
  stk = kind_number (integral stk);
  imm = imm;
  offs = offset;
}

pub store_frame_imm : StoreAccessKind → ℕ → ℤ → Emitter → Option Emitter
store_frame_imm stk imm offset e = do
  assert (null_reference stk imm)
  some (emit (encode_store_frame_imm (store_frame_imm_command stk imm offset)) e)
