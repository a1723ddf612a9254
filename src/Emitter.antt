-- ===== src/Emitter.antt =====
-- src/cbc/emitter/emitter.h and emitter.cpp: the code of a function as it is written. Encode of an
-- instruction adds its bytes to the segment; that fields fit (the ASSERTs of the fields and of AddW8)
-- is asked by the theorems. A register, an operation and a condition is its number, and `none` is a
-- failed ASSERT. The literals of Build go to the table; its copies on the heap are left out.
pub mod Buffer
pub mod SymbolTable
pub mod Fixups
pub mod Positions
pub mod Operands
pub mod Copies
pub mod Objects
pub mod Calls
pub mod Written
pub mod Runs
use cbc_engine.Prelude.{ℕ, ◌+◌, ◌*◌, ◌%◌, ◌^◌, ltb, leb, ◌==◌, if◌then◌else◌, List, [], ◌∷◌, ◌++◌}
use cbc_engine.Prelude.{
  Bool, true, false, not, ◌||◌, bit_and, Option, none, some, length, replicate,
}
use cbc_engine.Prelude.Int.{ℤ, pos}
use cbc_engine.Prelude.Partial.{◌>>=◌, ◌>>◌, assert}
use cbc_engine.Word.{Width, w8, w16, w32, w64}
use cbc_engine.Bits.{is_n_bits_signed_64}
use cbc_engine.Memory.{StoreAccessKind, st_8, st_16, st_32, st_64, st_ref, special, st_f32, st_f64}
use cbc_engine.Isa.{bytes_of}
use cbc_engine.Isa.Opcode
use cbc_engine.Isa.Fields.{Rr, encode_rr}
use cbc_engine.Isa.Short.{B1, B2rr, encode_b1, encode_b2rr, encode_b2xr, encode_b3xrrr}
use cbc_engine.Isa.Immediates.{encode_b4xi12rr}
use cbc_engine.Isa.Operations.{encode_binary_checked, encode_binary_saturating}
use cbc_engine.Isa.Stores.{StoreFrameImm, encode_store_generic_op, encode_store_frame_imm}
use cbc_engine.Emitter.Buffer.{Segment}
use cbc_engine.Emitter.SymbolTable.{Symbol, Symbols, Table, value, new_label, bind, build_table}
use cbc_engine.Emitter.Fixups.{
  Fixup, literal_12, jmp, br_if_ref, bcc, bcc_imm, size, Building, resolve,
}

pub record Emitter : Type 0 where
  pub symbols : Symbols
  pub segment : Segment
  pub fixups : List (ℕ × Fixup)

-- Encode(segment, command).
pub emit : List ℕ → Emitter → Emitter
emit bytes e = record e { segment = e.segment ++ bytes }

-- Emitter::AddFixup: the place is filled with zeros.
pub add_fixup : Fixup → Emitter → Emitter
add_fixup f e = record e {
  segment = e.segment ++ replicate (size f) 0;
  fixups = e.fixups ++ (length e.segment, f) ∷ [];
}

-- NewLabel and Bind.
pub add_label : Emitter → ℕ × Emitter
add_label e = let (label, symbols) = new_label e.symbols in (label, record e { symbols = symbols })

pub bind_label : ℕ → Emitter → Option Emitter
bind_label label e = do
  symbols ← bind label (pos (length e.segment)) e.symbols
  some (record e { symbols = symbols })

-- Build: the fixups are resolved in their order, and the table is built.
resolve_all : List (ℕ × Fixup) → Building → Option Building
resolve_all [] b = some b
resolve_all ((position, f) ∷ fixups) b = do b' ← resolve f position b; resolve_all fixups b'

pub build : Emitter → Option (Segment × Table)
build e = do
  b ← resolve_all e.fixups (record { segment = e.segment; symbols = e.symbols; table = [] })
  table ← build_table b.table
  some (b.segment, table)

abbrev pub is_32_or_64 : Width → Bool
is_32_or_64 w32 = true
is_32_or_64 w64 = true
is_32_or_64 _ = false

-- One of two values by the width, of four by the width.
abbrev by_width : Width → ℕ → ℕ → ℕ
by_width w32 a b = a
by_width _ a b = b

abbrev of_width : Width → ℕ → ℕ → ℕ → ℕ → ℕ
of_width w8 a b c d = a
of_width w16 a b c d = b
of_width w32 a b c d = c
of_width w64 a b c d = d

-- Jmp, Bcc, BranchIfRef and BccImm.
pub emit_jmp : ℕ → Emitter → Emitter
emit_jmp label e = add_fixup (jmp label) e

pub emit_bcc : ℕ → Width → ℕ → ℕ → ℕ → Emitter → Option Emitter
emit_bcc cc width l r label e = do
  assert (is_32_or_64 width)
  some (add_fixup (bcc label cc width (record { x = l; y = r })) e)

pub emit_branch_if_ref : ℕ → ℕ → Emitter → Emitter
emit_branch_if_ref type_info label e = add_fixup (br_if_ref label type_info) e

pub emit_bcc_imm : ℕ → Width → ℕ → ℕ → ℕ → Emitter → Option Emitter
emit_bcc_imm cc width l r label e = do
  assert (is_32_or_64 width)
  some (add_fixup (bcc_imm label cc width l r) e)

-- Binary on Common, Checked and Saturating operations.
three_registers : ℕ → ℕ → ℕ → ℕ → ℕ → List ℕ
three_registers opc op d l r =
    encode_b3xrrr
      (record { opc = opc; xr = record { imm = op; r = d }; rr = record { x = l; y = r } })

pub binary : ℕ → Width → ℕ → ℕ → ℕ → Emitter → Option Emitter
binary op width d l r e = do
  assert (is_32_or_64 width)
  some (emit (three_registers (by_width width Opcode.bin32 Opcode.bin64) op d l r) e)

pub binary_checked : ℕ → Width → ℕ → ℕ → ℕ → Emitter → Emitter
binary_checked op width d l r = emit (
    three_registers (of_width width Opcode.cbin8 Opcode.cbin16 Opcode.cbin32 Opcode.cbin64) op d l
      r)

pub sat_binary : ℕ → Width → ℕ → ℕ → ℕ → Emitter → Emitter
sat_binary op width d l r = emit (
    three_registers (of_width width Opcode.sbin8 Opcode.sbin16 Opcode.sbin32 Opcode.sbin64) op d l
      r)

-- A short immediate of 12 bits, in BinaryImm and its kin.
pub short_immediate : ℕ → ℕ → ℕ → ℕ → ℕ → List ℕ
short_immediate opc op d l imm = encode_b4xi12rr (record {
  opc = opc;
  xi12 = record { imm4 = op; imm12 = bit_and imm 4095 };
  rr = record { x = d; y = l };
})

-- A literal in their place.
literal_immediate : ℕ → ℕ → ℕ → ℕ → ℕ → Emitter → Emitter
literal_immediate opc op d l imm e =
    let (symbol, symbols) = value imm e.symbols in
    let opened = emit (bytes_of 1 opc) (record e { symbols = symbols }) in
    emit (encode_rr (record { x = d; y = l })) (add_fixup (literal_12 op symbol) opened)

-- BinaryImm on Common operations, and SCCImm.
pub binary_imm : ℕ → Width → ℕ → ℕ → ℕ → Emitter → Option Emitter
binary_imm op width d l imm e = do
  assert (is_32_or_64 width)
  some (
      if is_n_bits_signed_64 imm 12
      then emit (short_immediate (by_width width Opcode.bini32i Opcode.bini64i) op d l imm) e
      else literal_immediate (by_width width Opcode.bini32l Opcode.bini64l) op d l imm e)

pub scc_imm : ℕ → Width → ℕ → ℕ → ℕ → Emitter → Option Emitter
scc_imm cc width d l imm e = do
  assert (is_32_or_64 width)
  some (
      if is_n_bits_signed_64 imm 12
      then emit (short_immediate (by_width width Opcode.scci32i Opcode.scci64i) cc d l imm) e
      else literal_immediate (by_width width Opcode.scci32l Opcode.scci64l) cc d l imm e)
