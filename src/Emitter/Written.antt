-- ===== src/Emitter/Written.antt =====
-- What the copies and the instructions on objects write: instructions of the table whose fields fit,
-- and whose handlers do what the calls ask for.
use cbc_engine.Prelude.{
  ℕ, Bool, true, false, ltb, ◌<◌, ◌≡◌, refl, List, [], ◌∷◌, some, if◌then◌else◌, arith,
}
use cbc_engine.Word.{w32, w64}
use cbc_engine.Isa.Format.{formats}
use cbc_engine.Isa.Command.Code.{IsInstruction}
use cbc_engine.Isa.StackParams.RoundTrip.{to_unsigned-lt, sget-to_unsigned}
use cbc_engine.InterpretationLoop.{
  all_iregs, handle, handle_copies, handle_objects, handle_box, handle_closures, handle_generics,
  handle_checks, handle_params,
}
use cbc_engine.Emitter.Copies.{
  copy_derived, copy_derived_generic, copy_local, copy_to_local, copy_from_local,
  copy_local_generic, copy_to_local_generic, copy_from_local_generic, copy_type_slot,
  copy_type_slot_generic, copy_to_type_slot, copy_to_type_slot_generic, copy_from_type_slot,
  copy_from_type_slot_generic, lea_index, lea_index_generic, lea_const_index_generic,
}
use cbc_engine.Emitter.Objects.{
  new_obj_generic, new_obj_generic_on_acc, new_obj, new_arr, new_arr_generic, init_closure, spawn,
  spawn_future, div_check, null_check, array_index_check, instance_of, throw, catch,
  load_generic_type_info, new_box, assign_generic, instance_of_generic, stack_param, stack_param_f,
  lea_stack_param,
}
use cbc_engine.Emitter.Calls.{
  Call, command_of, FitCall, asked, AreRegisters, copy_derived_call, copy_derived_generic_call,
  copy_local_call, copy_to_local_call, copy_from_local_call, copy_local_generic_call,
  copy_to_local_generic_call, copy_from_local_generic_call, copy_type_slot_call,
  copy_type_slot_generic_call, copy_to_type_slot_call, copy_to_type_slot_generic_call,
  copy_from_type_slot_call, copy_from_type_slot_generic_call, lea_index_call,
  lea_index_generic_call, lea_const_index_generic_call, new_obj_generic_call,
  new_obj_generic_on_acc_call, new_obj_call, new_arr_call, new_arr_generic_call, init_closure_call,
  spawn_call, spawn_future_call, div_check_call, null_check_call, array_index_check_call,
  instance_of_call, throw_call, catch_call, load_generic_type_info_call, new_box_call,
  assign_generic_call, instance_of_generic_call, stack_param_call, stack_param_f_call,
  lea_stack_param_call,
}

flag : (b : Bool) → (if b then 1 else 0) < 16
flag true = omega arith
flag false = omega arith

set_flag : (b : Bool) → ltb 0 (if b then 1 else 0) ≡ b
set_flag true = refl
set_flag false = refl

are_named : (rs : List ℕ) → AreRegisters rs → all_iregs rs ≡ true
unfolding all_iregs
are_named [] h = refl
are_named (r ∷ rs) h = ground (arith, h.0, are_named rs h.1)

command_of-IsInstruction : (c : Call) → FitCall c → IsInstruction (command_of c)
unfolding command_of formats copy_derived copy_derived_generic copy_local copy_to_local
    copy_from_local copy_local_generic copy_to_local_generic copy_from_local_generic copy_type_slot
    copy_type_slot_generic copy_to_type_slot copy_to_type_slot_generic copy_from_type_slot
    copy_from_type_slot_generic lea_index lea_index_generic lea_const_index_generic new_obj_generic
    new_obj_generic_on_acc new_obj new_arr new_arr_generic init_closure spawn spawn_future div_check
    null_check array_index_check instance_of throw catch load_generic_type_info new_box
    assign_generic instance_of_generic stack_param stack_param_f lea_stack_param
command_of-IsInstruction (copy_derived_call dst_base dst src_base src ti) h =
    (refl, ground (arith, h))
command_of-IsInstruction (copy_derived_generic_call dst_base dst src_base src ti) h =
    (refl, ground (arith, h))
command_of-IsInstruction (copy_local_call dst src ti) h = (refl, ground (arith, h))
command_of-IsInstruction (copy_to_local_call dst src_base src ti) h = (refl, ground (arith, h))
command_of-IsInstruction (copy_from_local_call dst_base dst src ti) h = (refl, ground (arith, h))
command_of-IsInstruction (copy_local_generic_call dst src ti) h = (refl, ground (arith, h))
command_of-IsInstruction (copy_to_local_generic_call dst src_base src ti) h =
    (refl, ground (arith, h))
command_of-IsInstruction (copy_from_local_generic_call dst_base dst src ti) h =
    (refl, ground (arith, h))
command_of-IsInstruction (copy_type_slot_call dst_offset src_offset ti) h =
    (refl, ground (arith, h, to_unsigned-lt w32 dst_offset, to_unsigned-lt w32 src_offset))
command_of-IsInstruction (copy_type_slot_generic_call dst_offset src_offset ti) h =
    (refl, ground (arith, h, to_unsigned-lt w32 dst_offset, to_unsigned-lt w32 src_offset))
command_of-IsInstruction (copy_to_type_slot_call dst_offset src_base src ti) h =
    (refl, ground (arith, h, to_unsigned-lt w32 dst_offset))
command_of-IsInstruction (copy_to_type_slot_generic_call dst_offset src_base src ti) h =
    (refl, ground (arith, h, to_unsigned-lt w32 dst_offset))
command_of-IsInstruction (copy_from_type_slot_call dst_base dst src_offset ti) h =
    (refl, ground (arith, h, to_unsigned-lt w32 src_offset))
command_of-IsInstruction (copy_from_type_slot_generic_call dst_base dst src_offset ti) h =
    (refl, ground (arith, h, to_unsigned-lt w32 src_offset))
command_of-IsInstruction (lea_index_call dst src idx ti is_cangjie_array) h =
    (refl, ground (arith, h, flag is_cangjie_array))
command_of-IsInstruction (lea_index_generic_call dst src idx ti) h = (refl, ground (arith, h))
command_of-IsInstruction (lea_const_index_generic_call dst src idx ti) h =
    (refl, ground (arith, h, to_unsigned-lt w64 idx))
command_of-IsInstruction (new_obj_generic_call ti true) h = (refl, ground (arith, h))
command_of-IsInstruction (new_obj_generic_call ti false) h = (refl, ground (arith, h))
command_of-IsInstruction (new_obj_generic_on_acc_call ti) h = (refl, ground (arith, h))
command_of-IsInstruction (new_obj_call ti true) h = (refl, ground (arith, h))
command_of-IsInstruction (new_obj_call ti false) h = (refl, ground (arith, h))
command_of-IsInstruction (new_arr_call ti) h = (refl, ground (arith, h))
command_of-IsInstruction (new_arr_generic_call ti) h = (refl, ground (arith, h))
command_of-IsInstruction (init_closure_call true) h = (refl, ground (arith, h))
command_of-IsInstruction (init_closure_call false) h = (refl, ground (arith, h))
command_of-IsInstruction (spawn_call ti) h = (refl, ground (arith, h))
command_of-IsInstruction spawn_future_call h = (refl, ground (arith, h))
command_of-IsInstruction (div_check_call r) h = (refl, ground (arith, h))
command_of-IsInstruction (null_check_call r) h = (refl, ground (arith, h))
command_of-IsInstruction (array_index_check_call len idx) h = (refl, ground (arith, h))
command_of-IsInstruction (instance_of_call dst obj ti) h = (refl, ground (arith, h))
command_of-IsInstruction (throw_call reg) h = (refl, ground (arith, h))
command_of-IsInstruction (catch_call reg) h = (refl, ground (arith, h))
command_of-IsInstruction (load_generic_type_info_call ti) h = (refl, ground (arith, h))
command_of-IsInstruction (new_box_call ti) h = (refl, ground (arith, h))
command_of-IsInstruction (assign_generic_call dst src ti) h = (refl, ground (arith, h))
command_of-IsInstruction (instance_of_generic_call dst obj ti) h = (refl, ground (arith, h))
command_of-IsInstruction (stack_param_call src offset) h = (refl, ground (arith, h))
command_of-IsInstruction (stack_param_f_call src dst) h = (refl, ground (arith, h))
command_of-IsInstruction (lea_stack_param_call dst offset) h = (refl, ground (arith, h))

handled : (c : Call) → FitCall c → handle (command_of c) ≡ some (asked c)
unfolding command_of handle handle_copies handle_objects handle_box handle_closures handle_generics
    handle_checks handle_params copy_derived copy_derived_generic copy_local copy_to_local
    copy_from_local copy_local_generic copy_to_local_generic copy_from_local_generic copy_type_slot
    copy_type_slot_generic copy_to_type_slot copy_to_type_slot_generic copy_from_type_slot
    copy_from_type_slot_generic lea_index lea_index_generic lea_const_index_generic new_obj_generic
    new_obj_generic_on_acc new_obj new_arr new_arr_generic init_closure spawn spawn_future div_check
    null_check array_index_check instance_of throw catch load_generic_type_info new_box
    assign_generic instance_of_generic stack_param stack_param_f lea_stack_param
handled (copy_derived_call dst_base dst src_base src ti) h =
    rw (are_named (dst_base ∷ dst ∷ src_base ∷ src ∷ []) (omega arith)) refl
handled (copy_derived_generic_call dst_base dst src_base src ti) h =
    rw (are_named (ti ∷ dst_base ∷ dst ∷ src_base ∷ src ∷ []) (omega arith)) refl
handled (copy_local_call dst src ti) h = rw (are_named (dst ∷ src ∷ []) (omega arith)) refl
handled (copy_to_local_call dst src_base src ti) h =
    rw (are_named (dst ∷ src_base ∷ src ∷ []) (omega arith)) refl
handled (copy_from_local_call dst_base dst src ti) h =
    rw (are_named (dst_base ∷ dst ∷ src ∷ []) (omega arith)) refl
handled (copy_local_generic_call dst src ti) h =
    rw (are_named (ti ∷ dst ∷ src ∷ []) (omega arith)) refl
handled (copy_to_local_generic_call dst src_base src ti) h =
    rw (are_named (ti ∷ dst ∷ src_base ∷ src ∷ []) (omega arith)) refl
handled (copy_from_local_generic_call dst_base dst src ti) h =
    rw (are_named (ti ∷ dst_base ∷ dst ∷ src ∷ []) (omega arith)) refl
handled (copy_type_slot_call dst_offset src_offset ti) h =
    rw (sget-to_unsigned w32 dst_offset h.1, sget-to_unsigned w32 src_offset h.2) refl
handled (copy_type_slot_generic_call dst_offset src_offset ti) h =
    rw
      (
        are_named (ti ∷ []) (omega arith),
        sget-to_unsigned w32 dst_offset h.1,
        sget-to_unsigned w32 src_offset h.2,
      )
      refl
handled (copy_to_type_slot_call dst_offset src_base src ti) h =
    rw (are_named (src_base ∷ src ∷ []) (omega arith), sget-to_unsigned w32 dst_offset h.2) refl
handled (copy_to_type_slot_generic_call dst_offset src_base src ti) h =
    rw (are_named (ti ∷ src_base ∷ src ∷ []) (omega arith), sget-to_unsigned w32 dst_offset h.1)
      refl
handled (copy_from_type_slot_call dst_base dst src_offset ti) h =
    rw (are_named (dst_base ∷ dst ∷ []) (omega arith), sget-to_unsigned w32 src_offset h.2) refl
handled (copy_from_type_slot_generic_call dst_base dst src_offset ti) h =
    rw (are_named (ti ∷ dst_base ∷ dst ∷ []) (omega arith), sget-to_unsigned w32 src_offset h.1)
      refl
handled (lea_index_call dst src idx ti is_cangjie_array) h =
    rw (are_named (dst ∷ src ∷ idx ∷ []) (omega arith), set_flag is_cangjie_array) refl
handled (lea_index_generic_call dst src idx ti) h =
    rw (are_named (ti ∷ dst ∷ src ∷ idx ∷ []) (omega arith)) refl
handled (lea_const_index_generic_call dst src idx ti) h =
    rw (are_named (ti ∷ dst ∷ src ∷ []) (omega arith)) refl
handled (new_obj_generic_call ti true) h = rw (are_named (ti ∷ []) (omega arith)) refl
handled (new_obj_generic_call ti false) h = rw (are_named (ti ∷ []) (omega arith)) refl
handled (new_obj_generic_on_acc_call ti) h = rw (are_named (ti ∷ []) (omega arith)) refl
handled (new_obj_call ti true) h = refl
handled (new_obj_call ti false) h = refl
handled (new_arr_call ti) h = refl
handled (new_arr_generic_call ti) h = rw (are_named (ti ∷ []) (omega arith)) refl
handled (init_closure_call true) h = refl
handled (init_closure_call false) h = refl
handled (spawn_call ti) h = refl
handled spawn_future_call h = refl
handled (div_check_call r) h = rw (are_named (r ∷ []) (omega arith)) refl
handled (null_check_call r) h = rw (are_named (r ∷ []) (omega arith)) refl
handled (array_index_check_call len idx) h = rw (are_named (len ∷ idx ∷ []) (omega arith)) refl
handled (instance_of_call dst obj ti) h = rw (are_named (dst ∷ obj ∷ []) (omega arith)) refl
handled (throw_call reg) h = rw (are_named (reg ∷ []) (omega arith)) refl
handled (catch_call reg) h = rw (are_named (reg ∷ []) (omega arith)) refl
handled (load_generic_type_info_call ti) h = refl
handled (new_box_call ti) h = refl
handled (assign_generic_call dst src ti) h = rw (are_named (dst ∷ src ∷ ti ∷ []) (omega arith)) refl
handled (instance_of_generic_call dst obj ti) h =
    rw (are_named (dst ∷ obj ∷ ti ∷ []) (omega arith)) refl
handled (stack_param_call src offset) h = refl
handled (stack_param_f_call src dst) h = refl
handled (lea_stack_param_call dst offset) h = refl

-- Every copy, every address of an element and most instructions on objects are written as an
-- instruction whose opcode has its format in the table and whose fields fit their bits, and the
-- interpreter's handler of that opcode asks for what the call named: the method or the thunk, with
-- the registers, the offsets and the type information in their places. The arguments are registers,
-- addresses and offsets in their ranges.
pub handle-command_of :
    (c : Call) → FitCall c → IsInstruction (command_of c) × (handle (command_of c) ≡ some (asked c))
handle-command_of c h = (command_of-IsInstruction c h, handled c h)
