-- ===== src/Location.antt =====
-- src/cbc/move_resolver.h: registers and stack slots under one index, and the calls that a
-- `MoveEmitter` takes. The counts of registers are those of src/cbc/isa.h.
use cbc_engine.Prelude.{ℕ, ◌-◌, ltb, if◌then◌else◌}
use cbc_engine.Prelude.Int.{ℤ}

-- `IReg::VIRT_COUNT`, `Location::REG_COUNT` (there are 16 `FReg`s) and the shift of the stack slots.
abbrev pub virt_count : ℕ
virt_count = 14

abbrev pub reg_count : ℕ
reg_count = 30

-- A negative `idx` is NIL.
pub data Location : Type 0 where
  nil : Location
  at : ℕ → Location

pub data Kind : Type 0 where
  nil ireg freg slot : Kind

abbrev pub kind_at : ℕ → Kind
kind_at i = if ltb i virt_count then Kind.ireg else if ltb i reg_count then Kind.freg else Kind.slot

abbrev pub kind : Location → Kind
kind Location.nil = Kind.nil
kind (Location.at i) = kind_at i

-- `IRegIdx`, `FRegIdx` and `SlotIdx` of a location with that kind.
abbrev pub ireg_idx : ℕ → ℕ
ireg_idx i = i

abbrev pub freg_idx : ℕ → ℕ
freg_idx i = i - virt_count

abbrev pub slot_idx : ℕ → ℕ
slot_idx i = i - reg_count

pub data LoadAccessKind : Type 0 where
  ld_u8 ld_u16 ld_32 ld_lea ld_s8 ld_s16 ld_f32 ld_f64 : LoadAccessKind
  ld_u8to64 ld_u16to64 ld_u32to64 ld_64 ld_s8to64 ld_s16to64 ld_s32to64 ld_ref : LoadAccessKind

-- One constructor for each method of `MoveEmitter`, its destination first.
pub data Instr : Type 0 where
  assign_ireg : ℕ → ℕ → Instr
  assign_freg : ℕ → ℕ → Instr
  assign_param_slot : ℕ → ℕ → Instr
  assign_freg_from_slot : ℕ → ℕ → Instr
  assign_ireg_from_slot : ℕ → ℕ → Instr
  assign_slot_from_ireg : ℕ → ℕ → Instr
  assign_slot_from_freg : ℕ → ℕ → Instr
  assign_ireg_from_addr : ℕ → ℕ → ℤ → LoadAccessKind → Instr
  assign_freg_from_addr : ℕ → ℕ → ℤ → LoadAccessKind → Instr
  assign_slot_from_addr : ℕ → ℕ → ℤ → LoadAccessKind → Instr
