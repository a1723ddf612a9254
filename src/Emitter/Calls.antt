-- ===== src/Emitter/Calls.antt =====
-- The calls of Copies and Objects as data, when their arguments fit, and what they ask for.
use cbc_engine.Prelude.{ℕ, Bool, true, if◌then◌else◌, ◌<◌, ◌^◌, List, [], ◌∷◌}
use cbc_engine.Prelude.Int.{ℤ}
use cbc_engine.Word.{InRange, w32, w64, to_unsigned}
use cbc_engine.Memory.{st_64, st_f64}
use cbc_engine.Isa.Command.{Command}
use cbc_engine.InterpretationLoop.{Action, pointer, held, element_of}
use cbc_engine.Emitter.Copies.{
  copy_derived, copy_derived_generic, copy_local, copy_to_local, copy_from_local,
  copy_local_generic, copy_to_local_generic, copy_from_local_generic, copy_type_slot,
  copy_type_slot_generic, copy_to_type_slot, copy_to_type_slot_generic, copy_from_type_slot,
  copy_from_type_slot_generic, lea_index, lea_index_generic, lea_const_index_generic,
}
use cbc_engine.Emitter.Objects.{
  new_obj_generic, new_obj_generic_on_acc, new_obj, new_arr, new_arr_generic, init_closure, spawn,
  spawn_future, div_check, null_check, array_index_check, instance_of, throw, catch,
  load_generic_type_info, new_box, assign_generic, instance_of_generic, stack_param, stack_param_f,
  lea_stack_param,
}

-- The calls, with their arguments.
pub data Call : Type 0 where
  copy_derived_call : ℕ → ℕ → ℕ → ℕ → ℕ → Call
  copy_derived_generic_call : ℕ → ℕ → ℕ → ℕ → ℕ → Call
  copy_local_call : ℕ → ℕ → ℕ → Call
  copy_to_local_call : ℕ → ℕ → ℕ → ℕ → Call
  copy_from_local_call : ℕ → ℕ → ℕ → ℕ → Call
  copy_local_generic_call : ℕ → ℕ → ℕ → Call
  copy_to_local_generic_call : ℕ → ℕ → ℕ → ℕ → Call
  copy_from_local_generic_call : ℕ → ℕ → ℕ → ℕ → Call
  copy_type_slot_call : ℤ → ℤ → ℕ → Call
  copy_type_slot_generic_call : ℤ → ℤ → ℕ → Call
  copy_to_type_slot_call : ℤ → ℕ → ℕ → ℕ → Call
  copy_to_type_slot_generic_call : ℤ → ℕ → ℕ → ℕ → Call
  copy_from_type_slot_call : ℕ → ℕ → ℤ → ℕ → Call
  copy_from_type_slot_generic_call : ℕ → ℕ → ℤ → ℕ → Call
  lea_index_call : ℕ → ℕ → ℕ → ℕ → Bool → Call
  lea_index_generic_call : ℕ → ℕ → ℕ → ℕ → Call
  lea_const_index_generic_call : ℕ → ℕ → ℤ → ℕ → Call
  new_obj_generic_call : ℕ → Bool → Call
  new_obj_generic_on_acc_call : ℕ → Call
  new_obj_call : ℕ → Bool → Call
  new_arr_call : ℕ → Call
  new_arr_generic_call : ℕ → Call
  init_closure_call : Bool → Call
  spawn_call : ℕ → Call
  spawn_future_call : Call
  div_check_call : ℕ → Call
  null_check_call : ℕ → Call
  array_index_check_call : ℕ → ℕ → Call
  instance_of_call : ℕ → ℕ → ℕ → Call
  throw_call : ℕ → Call
  catch_call : ℕ → Call
  load_generic_type_info_call : ℕ → Call
  new_box_call : ℕ → Call
  assign_generic_call : ℕ → ℕ → ℕ → Call
  instance_of_generic_call : ℕ → ℕ → ℕ → Call
  stack_param_call : ℕ → ℕ → Call
  stack_param_f_call : ℕ → ℕ → Call
  lea_stack_param_call : ℕ → ℕ → Call

unfoldable pub command_of : Call → Command
command_of (copy_derived_call dst_base dst src_base src ti) =
    copy_derived dst_base dst src_base src ti
command_of (copy_derived_generic_call dst_base dst src_base src ti) =
    copy_derived_generic dst_base dst src_base src ti
command_of (copy_local_call dst src ti) = copy_local dst src ti
command_of (copy_to_local_call dst src_base src ti) = copy_to_local dst src_base src ti
command_of (copy_from_local_call dst_base dst src ti) = copy_from_local dst_base dst src ti
command_of (copy_local_generic_call dst src ti) = copy_local_generic dst src ti
command_of (copy_to_local_generic_call dst src_base src ti) =
    copy_to_local_generic dst src_base src ti
command_of (copy_from_local_generic_call dst_base dst src ti) =
    copy_from_local_generic dst_base dst src ti
command_of (copy_type_slot_call dst_offset src_offset ti) = copy_type_slot dst_offset src_offset ti
command_of (copy_type_slot_generic_call dst_offset src_offset ti) =
    copy_type_slot_generic dst_offset src_offset ti
command_of (copy_to_type_slot_call dst_offset src_base src ti) =
    copy_to_type_slot dst_offset src_base src ti
command_of (copy_to_type_slot_generic_call dst_offset src_base src ti) =
    copy_to_type_slot_generic dst_offset src_base src ti
command_of (copy_from_type_slot_call dst_base dst src_offset ti) =
    copy_from_type_slot dst_base dst src_offset ti
command_of (copy_from_type_slot_generic_call dst_base dst src_offset ti) =
    copy_from_type_slot_generic dst_base dst src_offset ti
command_of (lea_index_call dst src idx ti is_cangjie_array) =
    lea_index dst src idx ti is_cangjie_array
command_of (lea_index_generic_call dst src idx ti) = lea_index_generic dst src idx ti
command_of (lea_const_index_generic_call dst src idx ti) = lea_const_index_generic dst src idx ti
command_of (new_obj_generic_call ti pinned) = new_obj_generic ti pinned
command_of (new_obj_generic_on_acc_call ti) = new_obj_generic_on_acc ti
command_of (new_obj_call ti pinned) = new_obj ti pinned
command_of (new_arr_call ti) = new_arr ti
command_of (new_arr_generic_call ti) = new_arr_generic ti
command_of (init_closure_call instantiated_sret) = init_closure instantiated_sret
command_of (spawn_call ti) = spawn ti
command_of spawn_future_call = spawn_future
command_of (div_check_call r) = div_check r
command_of (null_check_call r) = null_check r
command_of (array_index_check_call len idx) = array_index_check len idx
command_of (instance_of_call dst obj ti) = instance_of dst obj ti
command_of (throw_call reg) = throw reg
command_of (catch_call reg) = catch reg
command_of (load_generic_type_info_call ti) = load_generic_type_info ti
command_of (new_box_call ti) = new_box ti
command_of (assign_generic_call dst src ti) = assign_generic dst src ti
command_of (instance_of_generic_call dst obj ti) = instance_of_generic dst obj ti
command_of (stack_param_call src offset) = stack_param src offset
command_of (stack_param_f_call src dst) = stack_param_f src dst
command_of (lea_stack_param_call dst offset) = lea_stack_param dst offset

-- Registers are IRegs.
abbrev pub AreRegisters : List ℕ → Type 0
AreRegisters [] = Unit
AreRegisters (r ∷ rs) = (r < 15) × AreRegisters rs

-- A register has its number, the address of a type information has 64 bits, an offset of a type slot
-- is an `int32_t` and an offset of a stack parameter a `uint16_t`.
abbrev pub FitCall : Call → Type 0
FitCall (copy_derived_call dst_base dst src_base src ti) =
    AreRegisters (dst_base ∷ dst ∷ src_base ∷ src ∷ []) × (ti < 2 ^ 64)
FitCall (copy_derived_generic_call dst_base dst src_base src ti) =
    AreRegisters (dst_base ∷ dst ∷ src_base ∷ src ∷ ti ∷ [])
FitCall (copy_local_call dst src ti) = AreRegisters (dst ∷ src ∷ []) × (ti < 2 ^ 64)
FitCall (copy_to_local_call dst src_base src ti) =
    AreRegisters (dst ∷ src_base ∷ src ∷ []) × (ti < 2 ^ 64)
FitCall (copy_from_local_call dst_base dst src ti) =
    AreRegisters (dst_base ∷ dst ∷ src ∷ []) × (ti < 2 ^ 64)
FitCall (copy_local_generic_call dst src ti) = AreRegisters (dst ∷ src ∷ ti ∷ [])
FitCall (copy_to_local_generic_call dst src_base src ti) =
    AreRegisters (dst ∷ src_base ∷ src ∷ ti ∷ [])
FitCall (copy_from_local_generic_call dst_base dst src ti) =
    AreRegisters (dst_base ∷ dst ∷ src ∷ ti ∷ [])
FitCall (copy_type_slot_call dst_offset src_offset ti) =
    (ti < 2 ^ 64) × InRange w32 dst_offset × InRange w32 src_offset
FitCall (copy_type_slot_generic_call dst_offset src_offset ti) =
    AreRegisters (ti ∷ []) × InRange w32 dst_offset × InRange w32 src_offset
FitCall (copy_to_type_slot_call dst_offset src_base src ti) =
    AreRegisters (src_base ∷ src ∷ []) × (ti < 2 ^ 64) × InRange w32 dst_offset
FitCall (copy_to_type_slot_generic_call dst_offset src_base src ti) =
    AreRegisters (src_base ∷ src ∷ ti ∷ []) × InRange w32 dst_offset
FitCall (copy_from_type_slot_call dst_base dst src_offset ti) =
    AreRegisters (dst_base ∷ dst ∷ []) × (ti < 2 ^ 64) × InRange w32 src_offset
FitCall (copy_from_type_slot_generic_call dst_base dst src_offset ti) =
    AreRegisters (dst_base ∷ dst ∷ ti ∷ []) × InRange w32 src_offset
FitCall (lea_index_call dst src idx ti is_cangjie_array) =
    AreRegisters (dst ∷ src ∷ idx ∷ []) × (ti < 2 ^ 64)
FitCall (lea_index_generic_call dst src idx ti) = AreRegisters (dst ∷ src ∷ idx ∷ ti ∷ [])
FitCall (lea_const_index_generic_call dst src idx ti) = AreRegisters (dst ∷ src ∷ ti ∷ [])
FitCall (new_obj_generic_call ti pinned) = AreRegisters (ti ∷ [])
FitCall (new_obj_generic_on_acc_call ti) = AreRegisters (ti ∷ [])
FitCall (new_obj_call ti pinned) = (ti < 2 ^ 64)
FitCall (new_arr_call ti) = (ti < 2 ^ 64)
FitCall (new_arr_generic_call ti) = AreRegisters (ti ∷ [])
FitCall (init_closure_call instantiated_sret) = Unit
FitCall (spawn_call ti) = (ti < 2 ^ 64)
FitCall spawn_future_call = Unit
FitCall (div_check_call r) = AreRegisters (r ∷ [])
FitCall (null_check_call r) = AreRegisters (r ∷ [])
FitCall (array_index_check_call len idx) = AreRegisters (len ∷ idx ∷ [])
FitCall (instance_of_call dst obj ti) = AreRegisters (dst ∷ obj ∷ []) × (ti < 2 ^ 64)
FitCall (throw_call reg) = AreRegisters (reg ∷ [])
FitCall (catch_call reg) = AreRegisters (reg ∷ [])
FitCall (load_generic_type_info_call ti) = (ti < 2 ^ 64)
FitCall (new_box_call ti) = (ti < 2 ^ 64)
FitCall (assign_generic_call dst src ti) = AreRegisters (dst ∷ src ∷ ti ∷ [])
FitCall (instance_of_generic_call dst obj ti) = AreRegisters (dst ∷ obj ∷ ti ∷ [])
FitCall (stack_param_call src offset) = AreRegisters (src ∷ []) × (offset < 2 ^ 16)
FitCall (stack_param_f_call src dst) = (src < 16) × (dst < 2 ^ 16)
FitCall (lea_stack_param_call dst offset) = AreRegisters (dst ∷ []) × (offset < 2 ^ 16)

-- What each call asks for, by its name and its parameters.
abbrev pub asked : Call → Action
asked (copy_derived_call dst_base dst src_base src ti) =
    Action.copy_derived dst_base dst src_base src (pointer ti)
asked (copy_derived_generic_call dst_base dst src_base src ti) =
    Action.copy_derived dst_base dst src_base src (held ti)
asked (copy_local_call dst src ti) = Action.copy_local dst src (pointer ti)
asked (copy_to_local_call dst src_base src ti) = Action.copy_to_local dst src_base src (pointer ti)
asked (copy_from_local_call dst_base dst src ti) =
    Action.copy_from_local dst_base dst src (pointer ti)
asked (copy_local_generic_call dst src ti) = Action.copy_local dst src (held ti)
asked (copy_to_local_generic_call dst src_base src ti) =
    Action.copy_to_local dst src_base src (held ti)
asked (copy_from_local_generic_call dst_base dst src ti) =
    Action.copy_from_local dst_base dst src (held ti)
asked (copy_type_slot_call dst_offset src_offset ti) =
    Action.copy_type_slot dst_offset src_offset (pointer ti)
asked (copy_type_slot_generic_call dst_offset src_offset ti) =
    Action.copy_type_slot dst_offset src_offset (held ti)
asked (copy_to_type_slot_call dst_offset src_base src ti) =
    Action.copy_to_type_slot dst_offset src_base src (pointer ti)
asked (copy_to_type_slot_generic_call dst_offset src_base src ti) =
    Action.copy_to_type_slot dst_offset src_base src (held ti)
asked (copy_from_type_slot_call dst_base dst src_offset ti) =
    Action.copy_from_type_slot dst_base dst src_offset (pointer ti)
asked (copy_from_type_slot_generic_call dst_base dst src_offset ti) =
    Action.copy_from_type_slot dst_base dst src_offset (held ti)
asked (lea_index_call dst src idx ti is_cangjie_array) =
    Action.lea_index dst src idx (pointer ti) is_cangjie_array
asked (lea_index_generic_call dst src idx ti) = Action.lea_index dst src idx (element_of ti) true
asked (lea_const_index_generic_call dst src idx ti) =
    Action.lea_const_index dst src (to_unsigned w64 idx) (element_of ti)
asked (new_obj_generic_call ti pinned) =
    if pinned then Action.new_object_pinned (held ti) else Action.new_object (held ti)
asked (new_obj_generic_on_acc_call ti) = Action.new_object_acc (held ti)
asked (new_obj_call ti pinned) =
    if pinned then Action.new_object_pinned (pointer ti) else Action.new_object (pointer ti)
asked (new_arr_call ti) = Action.new_array (pointer ti)
asked (new_arr_generic_call ti) = Action.new_array (held ti)
asked (init_closure_call instantiated_sret) = Action.initialize_closure instantiated_sret
asked (spawn_call ti) = Action.spawn (pointer ti)
asked spawn_future_call = Action.spawn_future
asked (div_check_call r) = Action.div_check r
asked (null_check_call r) = Action.null_check r
asked (array_index_check_call len idx) = Action.index_check len idx
asked (instance_of_call dst obj ti) = Action.is_instance_of dst obj (pointer ti)
asked (throw_call reg) = Action.throw reg
asked (catch_call reg) = Action.catch reg
asked (load_generic_type_info_call ti) = Action.load_type_info ti
asked (new_box_call ti) = Action.new_object_acc (pointer ti)
asked (assign_generic_call dst src ti) = Action.write_struct_field dst src (held ti)
asked (instance_of_generic_call dst obj ti) = Action.is_instance_of dst obj (held ti)
asked (stack_param_call src offset) = Action.store_param st_64 src offset
asked (stack_param_f_call src dst) = Action.store_param st_f64 src dst
asked (lea_stack_param_call dst offset) = Action.lea_param dst offset
