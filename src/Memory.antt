-- ===== src/Memory.antt =====
-- src/interpreter/internal/operations.h: MemoryLocation, the accesses of the interpreter to memory,
-- and the offsets of array elements. Memory is a function from addresses to bytes, least significant
-- byte first, as on every supported target. A floating-point value is its bits. `none` is a FATAL.
-- An address is a number here: it does not wrap at 2 ^ 64.
-- The ASSERT that a general register is not IRZ is left out.
pub mod Bytes
pub mod Access
pub mod Runs
use cbc_engine.Prelude.{ℕ, zero, suc, ◌+◌, ◌*◌, ◌/◌, ◌%◌, ◌^◌, ◌==◌, if◌then◌else◌}
use cbc_engine.Prelude.{Bool, Option, none, some}
use cbc_engine.Word.{Width, w8, w16, w32, w64, uget, sget, to_unsigned}
use cbc_engine.Location.{LoadAccessKind, ld_u8, ld_u16, ld_32, ld_64, ld_s8, ld_s16, ld_s32to64}
use cbc_engine.Location.{ld_f32, ld_f64, ld_lea, ld_ref}

-- Cbc::Format::StoreAccessKind
pub data StoreAccessKind : Type 0 where
  st_8 st_16 st_32 st_64 st_ref special st_f32 st_f64 : StoreAccessKind

abbrev pub Memory : Type 0
Memory = ℕ → ℕ

-- A number of bytes from an address on, written and read.
pub write_bytes : ℕ → ℕ → ℕ → Memory → Memory
write_bytes zero address value m = m
write_bytes (suc n) address value m =
    λ i. if i == address then value % 256 else write_bytes n (suc address) (value / 256) m i

pub read_bytes : ℕ → ℕ → Memory → ℕ
read_bytes zero address m = 0
read_bytes (suc n) address m = m address + 256 * read_bytes n (suc address) m

-- The general and the floating-point registers of an Ectype, and the memory.
pub record State : Type 0 where
  pub ireg : ℕ → ℕ
  pub freg : ℕ → ℕ
  pub memory : Memory

abbrev pub put : (ℕ → ℕ) → ℕ → ℕ → ℕ → ℕ
put f i v j = if j == i then v else f j

-- Put on an IReg: its ASSERT that the register is not IRZ, which is 0.
abbrev pub put_ireg : ℕ → ℕ → State → Option State
put_ireg r v s =
    if r == 0
    then none
    else some (record { ireg = put s.ireg r v; freg = s.freg; memory = s.memory })

abbrev pub put_freg : ℕ → ℕ → State → State
put_freg r v s = record { ireg = s.ireg; freg = put s.freg r v; memory = s.memory }

abbrev pub store : ℕ → ℕ → ℕ → State → State
store n address v s = record {
  ireg = s.ireg;
  freg = s.freg;
  memory = write_bytes n address v s.memory;
}

-- MemoryLocation::StorePrim, at the address `base + offset`.
pub store_prim : StoreAccessKind → ℕ → ℕ → State → Option State
unfolding write_bytes
store_prim st_8 address src s = some (store 1 address (s.ireg src) s)
store_prim st_16 address src s = some (store 2 address (s.ireg src) s)
store_prim st_32 address src s = some (store 4 address (s.ireg src) s)
store_prim st_64 address src s = some (store 8 address (s.ireg src) s)
store_prim st_f32 address src s = some (store 4 address (s.freg src) s)
store_prim st_f64 address src s = some (store 8 address (s.freg src) s)
store_prim _ address src s = none

-- MemoryLocation::StoreImm
pub store_imm : StoreAccessKind → ℕ → ℕ → State → Option State
unfolding write_bytes
store_imm st_8 address imm s = some (store 1 address imm s)
store_imm st_16 address imm s = some (store 2 address imm s)
store_imm st_32 address imm s = some (store 4 address imm s)
store_imm st_64 address imm s = some (store 8 address imm s)
store_imm _ address imm s = none

-- MemoryLocation::StoreRef and LoadRef
pub store_ref : ℕ → ℕ → State → State
unfolding write_bytes
store_ref address src s = store 8 address (s.ireg src) s

pub load_ref : ℕ → ℕ → State → Option State
unfolding read_bytes
load_ref address dst s = put_ireg dst (read_bytes 8 address s.memory) s

-- `static_cast<uint64_t>` of a signed value of the width.
abbrev pub sign_extended : Width → ℕ → ℕ
sign_extended w v = to_unsigned w64 (sget w v)

-- MemoryLocation::LoadPrim; `derived` is RTSupport::Execution::DerivedPtrOfGlobal.
module _ (derived : ℕ → ℕ) where
  pub load_prim : LoadAccessKind → Bool → ℕ → ℕ → State → Option State
  unfolding read_bytes
  load_prim ld_u8 global address dst s = put_ireg dst (read_bytes 1 address s.memory) s
  load_prim ld_u16 global address dst s = put_ireg dst (read_bytes 2 address s.memory) s
  load_prim ld_32 global address dst s = put_ireg dst (read_bytes 4 address s.memory) s
  load_prim ld_64 global address dst s = put_ireg dst (read_bytes 8 address s.memory) s
  load_prim ld_s8 global address dst s =
      put_ireg dst (sign_extended w8 (read_bytes 1 address s.memory)) s
  load_prim ld_s16 global address dst s =
      put_ireg dst (sign_extended w16 (read_bytes 2 address s.memory)) s
  load_prim ld_s32to64 global address dst s =
      put_ireg dst (sign_extended w32 (read_bytes 4 address s.memory)) s
  load_prim ld_f32 global address dst s = some (put_freg dst (read_bytes 4 address s.memory) s)
  load_prim ld_f64 global address dst s = some (put_freg dst (read_bytes 8 address s.memory) s)
  load_prim ld_lea global address dst s =
      put_ireg dst (if global then derived address else address) s
  load_prim _ global address dst s = none

-- CalcLoadArrayOffset and CalcStoreArrayOffset, on `uint32_t`; `body` is ArrayBodyOffset().
module _ (body : ℕ) where
  abbrev element_at : ℕ → ℕ → ℕ
  element_at size i = (body + i % 2 ^ 32 * size) % 2 ^ 32

  pub load_array_offset : LoadAccessKind → ℕ → Option ℕ
  load_array_offset ld_s8 i = some (element_at 1 i)
  load_array_offset ld_u8 i = some (element_at 1 i)
  load_array_offset ld_s16 i = some (element_at 2 i)
  load_array_offset ld_u16 i = some (element_at 2 i)
  load_array_offset ld_f32 i = some (element_at 4 i)
  load_array_offset ld_32 i = some (element_at 4 i)
  load_array_offset ld_f64 i = some (element_at 8 i)
  load_array_offset ld_ref i = some (element_at 8 i)
  load_array_offset ld_64 i = some (element_at 8 i)
  load_array_offset _ i = none

  pub store_array_offset : StoreAccessKind → ℕ → Option ℕ
  store_array_offset st_8 i = some (element_at 1 i)
  store_array_offset st_16 i = some (element_at 2 i)
  store_array_offset st_f32 i = some (element_at 4 i)
  store_array_offset st_32 i = some (element_at 4 i)
  store_array_offset st_ref i = some (element_at 8 i)
  store_array_offset st_f64 i = some (element_at 8 i)
  store_array_offset st_64 i = some (element_at 8 i)
  store_array_offset _ i = none
