-- ===== src/Abi.antt =====
-- src/cbc/abi.h and .cpp: AbiAssigner, which hands out registers and stack slots to the arguments of
-- a call in the order of the platform's ABI. A head area is the list of its register numbers.
pub mod Slots
pub mod Runs
use cbc_engine.Prelude.{ℕ, zero, suc, ◌+◌, ◌-◌, ◌/◌, if◌then◌else◌}
use cbc_engine.Prelude.{Bool, true, false, List, [], ◌∷◌, Option, none, some}
use cbc_engine.Bits.{align_up}
use cbc_engine.Location.{Location, virt_count, reg_count}

-- Cbc::CbcTypeKind and IsFloat.
pub data CbcTypeKind : Type 0 where
  invalid void bool i8 u8 i16 u16 i32 u32 i64 u64 ref rec f32 f64 : CbcTypeKind

abbrev pub is_float : CbcTypeKind → Bool
is_float f32 = true
is_float f64 = true
is_float _ = false

-- PlatformDescription
pub record PlatformDescription : Type 0 where
  pub ireg_head_area : List ℕ
  pub freg_head_area : List ℕ
  pub sret_shifts : Bool
  pub sret_ir_idx : ℕ
  pub only_on_stack_varargs : Bool

pub record AbiAssigner : Type 0 where
  pub iarg_idx : ℕ
  pub farg_idx : ℕ
  pub slot_idx : ℕ

abbrev pub initial : AbiAssigner
initial = record { iarg_idx = 0; farg_idx = 0; slot_idx = 0 }

-- The element of a head area, where the index is below its size.
abbrev pub register_at : List ℕ → ℕ → Option ℕ
register_at [] i = none
register_at (r ∷ rs) zero = some r
register_at (r ∷ rs) (suc i) = register_at rs i

-- Location::IReg, FReg and Slot.
abbrev pub ireg_location : ℕ → Location
ireg_location r = Location.at r

abbrev pub freg_location : ℕ → Location
freg_location r = Location.at (r + virt_count)

abbrev pub slot_location : ℕ → Location
slot_location s = Location.at (s + reg_count)

abbrev pub give_stack_slot : AbiAssigner → Location × AbiAssigner
give_stack_slot a = (
  slot_location a.slot_idx,
  record { iarg_idx = a.iarg_idx; farg_idx = a.farg_idx; slot_idx = suc a.slot_idx },
)

abbrev pub give_ireg : Option ℕ → AbiAssigner → Location × AbiAssigner
give_ireg none a = give_stack_slot a
give_ireg (some r) a = (
  ireg_location r,
  record { iarg_idx = suc a.iarg_idx; farg_idx = a.farg_idx; slot_idx = a.slot_idx },
)

abbrev pub give_freg : Option ℕ → AbiAssigner → Location × AbiAssigner
give_freg none a = give_stack_slot a
give_freg (some r) a = (
  freg_location r,
  record { iarg_idx = a.iarg_idx; farg_idx = suc a.farg_idx; slot_idx = a.slot_idx },
)

-- Consume
pub consume : PlatformDescription → CbcTypeKind → AbiAssigner → Location × AbiAssigner
consume d kind a =
    if is_float kind
    then give_freg (register_at d.freg_head_area a.farg_idx) a
    else give_ireg (register_at d.ireg_head_area a.iarg_idx) a

pub consume_var_arg : PlatformDescription → CbcTypeKind → AbiAssigner → Location × AbiAssigner
unfolding consume
consume_var_arg d kind a = if d.only_on_stack_varargs then give_stack_slot a else consume d kind a

-- ConsumeSret
pub consume_sret : PlatformDescription → AbiAssigner → Location × AbiAssigner
unfolding consume
consume_sret d a = if d.sret_shifts then consume d rec a else (ireg_location d.sret_ir_idx, a)

-- ConsumeStackArea; STACK_SLOT_SIZE is 8.
pub consume_stack_area : ℕ → AbiAssigner → ℕ × AbiAssigner
consume_stack_area size a = (
  a.slot_idx,
  record {
    iarg_idx = a.iarg_idx;
    farg_idx = a.farg_idx;
    slot_idx = a.slot_idx + align_up size 8 / 8;
  },
)

-- The arguments of a call, in turn.
pub consume_all : PlatformDescription → List CbcTypeKind → AbiAssigner → List Location × AbiAssigner
unfolding consume
consume_all d [] a = ([], a)
consume_all d (k ∷ ks) a =
    let (l, b) = consume d k a in let (ls, c) = consume_all d ks b in (l ∷ ls, c)
