-- ===== src/Emitter/Fixups.antt =====
-- src/cbc/emitter/emitter.cpp: the places of a code that wait for a label or for a literal, and how
-- they are resolved. A register is its number. Distances are `int32_t`, integers here; their range is
-- not checked, since positions stay below INT32_MAX.
pub mod Immediates
pub mod Lands
use cbc_engine.Prelude.{
  ℕ, ◌+◌, ◌-◌, ◌*◌, ◌/◌, ◌%◌, ◌^◌, ltb, ◌==◌, if◌then◌else◌, List, [], ◌∷◌, ◌++◌,
}
use cbc_engine.Prelude.{Bool, true, false, ◌&&◌, bit_and, Option, none, some, length, replicate}
use cbc_engine.Prelude.Int.{ℤ, pos, negsuc, ◌-ℤ◌}
use cbc_engine.Prelude.Partial.{◌>>=◌, ◌>>◌, assert}
use cbc_engine.Word.{Width, w8, w16, w32, w64, to_unsigned, shift_right, sget}
use cbc_engine.Bits.{is_sign, is_n_bits_signed_64}
use cbc_engine.Isa.{bytes_of}
use cbc_engine.Isa.Opcode
use cbc_engine.Isa.Fields.{Rr, XImm12, RImm12, encode_x_imm12}
use cbc_engine.Isa.Immediates.{encode_b5i32, encode_b3xi12, encode_b4xi12rr, encode_b5xi12ri12}
use cbc_engine.Emitter.Buffer.{Segment, view_add}
use cbc_engine.Emitter.SymbolTable.{
  Symbol, Symbols, Table, value, value_i32, label_position, use_symbol,
}

-- The classes of fixups, with their members: LiteralFixup, Literal12Fixup, JmpFixup, BrIfRef,
-- BccFixup and BccImmFixup.
pub data Fixup : Type 0 where
  literal : Symbol → Fixup
  literal_12 : ℕ → Symbol → Fixup
  jmp : ℕ → Fixup
  br_if_ref : ℕ → ℕ → Fixup
  bcc : ℕ → ℕ → Width → Rr → Fixup
  bcc_imm : ℕ → ℕ → Width → ℕ → ℕ → Fixup

-- Size of each.
pub size : Fixup → ℕ
size (literal symbol) = 2
size (literal_12 i4 symbol) = 2
size (jmp label) = 5
size (br_if_ref label type_info) = 3
size (bcc label cc width rr) = 4
size (bcc_imm label cc width left right) = 5

-- What a Resolve reads and changes: the code, the symbols and the literals.
pub record Building : Type 0 where
  pub segment : Segment
  pub symbols : Symbols
  pub table : Table

-- Fixup::Distance
pub distance : ℕ → ℕ → ℕ → Symbols → Option ℤ
distance label position size symbols = do
  at ← label_position label symbols
  some (at -ℤ pos (position + size))

-- IsNBitsSigned on `int32_t`, at 12 bits.
pub is_short : ℤ → Bool
is_short d = is_sign (shift_right d 11)

-- The relocation converter of Build, on a value that becomes a symbol.
pub use_value : ℕ → Building → Option (ℕ × Building)
use_value v b = do
  let (symbol, symbols) = value v b.symbols
  (index, table) ← use_symbol symbol symbols b.table
  some (index, record b { symbols = symbols; table = table })

-- A 12-bit immediate, or the index of a literal: for a distance and for a value.
pub immediate_of_distance : ℤ → Building → Option (ℕ × Building)
immediate_of_distance d b =
    if is_short d
    then some (bit_and (to_unsigned w32 d) 4095, b)
    else use_value (to_unsigned w64 d) b

pub immediate_of_value : ℕ → Building → Option (ℕ × Building)
immediate_of_value v b =
    if is_n_bits_signed_64 v 12 then some (bit_and v 4095, b) else use_value v b

-- BccFixup::opcode and BccImmFixup::opcode.
pub bcc_opcode : Bool → Width → Option ℕ
bcc_opcode is_imm w32 = some (if is_imm then Opcode.bcc32i else Opcode.bcc32l)
bcc_opcode is_imm w64 = some (if is_imm then Opcode.bcc64i else Opcode.bcc64l)
bcc_opcode is_imm _ = none

pub bcc_imm_opcode : Bool → Bool → Width → Option ℕ
bcc_imm_opcode is_imm_offset is_imm_value w32 = some (
    if is_imm_offset
    then (if is_imm_value then Opcode.bcci32i else Opcode.bccl32i)
    else (if is_imm_value then Opcode.bcci32l else Opcode.bccl32l))
bcc_imm_opcode is_imm_offset is_imm_value w64 = some (
    if is_imm_offset
    then (if is_imm_value then Opcode.bcci64i else Opcode.bccl64i)
    else (if is_imm_value then Opcode.bcci64l else Opcode.bccl64l))
bcc_imm_opcode is_imm_offset is_imm_value _ = none

write : ℕ → List ℕ → Building → Option Building
write position bytes b = do
  segment ← view_add position bytes b.segment
  some (record b { segment = segment })

-- Resolve of each class.
pub resolve : Fixup → ℕ → Building → Option Building
resolve (literal symbol) position b = do
  (index, table) ← use_symbol symbol b.symbols b.table
  write position (bytes_of 2 index) (record b { table = table })
resolve (literal_12 i4 symbol) position b = do
  (index, table) ← use_symbol symbol b.symbols b.table
  write position (encode_x_imm12 (record { imm4 = i4; imm12 = index })) (record b { table = table })
resolve (jmp label) position b = do
  d ← distance label position 5 b.symbols
  write position (encode_b5i32 (record { opc = Opcode.jmp32; imm32 = to_unsigned w32 d })) b
resolve (br_if_ref label type_info) position b = do
  d ← distance label position 3 b.symbols
  assert (is_short d)
  write position
      (encode_b3xi12 (record {
        opc = Opcode.branch_is_ref;
        xi12 = record { imm4 = type_info; imm12 = to_unsigned w16 d };
      }))
      b
resolve (bcc label cc width rr) position b = do
  d ← distance label position 4 b.symbols
  (immediate, b') ← immediate_of_distance d b
  opc ← bcc_opcode (is_short d) width
  write position
      (encode_b4xi12rr
        (record { opc = opc; xi12 = record { imm4 = cc; imm12 = immediate }; rr = rr }))
      b'
resolve (bcc_imm label cc width left right) position b = do
  d ← distance label position 5 b.symbols
  (offset, b1) ← immediate_of_distance d b
  (v, b2) ← immediate_of_value right b1
  opc ← bcc_imm_opcode (is_short d) (is_n_bits_signed_64 right 12) width
  write position
      (encode_b5xi12ri12 (record {
        opc = opc;
        xi12 = record { imm4 = cc; imm12 = offset };
        ri12 = record { r = left; imm12 = v };
      }))
      b2
