-- ===== src/Isa/Command/Fit.antt =====
-- When a command fits its format: the fields fit their bits.
use cbc_engine.Isa.Format.{Format}
use cbc_engine.Isa.Command.{
  Command, b1, b2rr, b2xr, b6xri32, b10xri64, b4xi12rr, b5xi12ri12, b5i32, b3xi12, b3xrrr, b9i64,
  b4xri16, b7xrrri32, b3rrrr, store_generic_op, init_option, b3xxrr, b4xi12i8, b3xri8, virtual_call,
  interface_call, interface_call_generic, bfx, b13i64i32, iof, struct_field_op, atomic_op,
  binary_checked, copy_derived, copy_derived_generic, copy_local, copy_local_generic,
  copy_type_slot, copy_to_type_slot, copy_from_type_slot, copy_type_slot_generic,
  copy_to_type_slot_generic, copy_from_type_slot_generic, index, index_generic, const_index_generic,
  binary_saturating, stack_param, stack_param_f, stack_param_s16, stack_param_s32, lea_stack_param,
  store_frame_imm,
}
use cbc_engine.Isa.Short.RoundTrip.{
  FitB1, FitB2rr, FitB2xr, FitB3xrrr, FitB3rrrr, FitB3xxrr, FitB3xri8,
}
use cbc_engine.Isa.Immediates.RoundTrip.{
  FitB6xri32, FitB10xri64, FitB4xi12rr, FitB5xi12ri12, FitB5i32, FitB3xi12, FitB9i64, FitB7xrrri32,
  FitB13i64i32,
}
use cbc_engine.Isa.Stores.RoundTrip.{FitStoreGenericOp, FitInitOption}
use cbc_engine.Isa.Calls.RoundTrip.{
  FitVirtualCall, FitInterfaceCall, FitInterfaceCallGeneric, FitAtomicOp,
}
use cbc_engine.Isa.Operations.RoundTrip.{
  FitBfx, FitIof, FitStructFieldOp, FitBinaryChecked, FitIndex, FitIndexGeneric,
  FitConstIndexGeneric, FitBinarySaturating,
}
use cbc_engine.Isa.Copies.RoundTrip.{
  FitCopyDerived, FitCopyDerivedGeneric, FitCopyLocal, FitCopyLocalGeneric,
}
use cbc_engine.Isa.TypeSlots.RoundTrip.{
  FitCopyTypeSlot, FitCopyToTypeSlot, FitCopyFromTypeSlot, FitCopyTypeSlotGeneric,
  FitCopyToTypeSlotGeneric, FitCopyFromTypeSlotGeneric,
}
use cbc_engine.Isa.StackParams.RoundTrip.{
  FitStackParam, FitStackParamF, FitStackParamS16, FitStackParamS32, FitLeaStackParam,
}
use cbc_engine.Isa.Stores.Frame.{FitStoreFrameImm}

abbrev pub format : Command → Format
format (b1 c) = Format.b1
format (b2rr c) = Format.b2rr
format (b2xr c) = Format.b2xr
format (b6xri32 c) = Format.b6xri32
format (b10xri64 c) = Format.b10xri64
format (b4xi12rr c) = Format.b4xi12rr
format (b5xi12ri12 c) = Format.b5xi12ri12
format (b5i32 c) = Format.b5i32
format (b3xi12 c) = Format.b3xi12
format (b3xrrr c) = Format.b3xrrr
format (b9i64 c) = Format.b9i64
format (b4xri16 c) = Format.b4xri16
format (b7xrrri32 c) = Format.b7xrrri32
format (b3rrrr c) = Format.b3rrrr
format (store_generic_op c) = Format.store_generic_op
format (init_option c) = Format.init_option
format (b3xxrr c) = Format.b3xxrr
format (b4xi12i8 c) = Format.b4xi12i8
format (b3xri8 c) = Format.b3xri8
format (virtual_call c) = Format.virtual_call
format (interface_call c) = Format.interface_call
format (interface_call_generic c) = Format.interface_call_generic
format (bfx c) = Format.bfx
format (b13i64i32 c) = Format.b13i64i32
format (iof c) = Format.iof
format (struct_field_op c) = Format.struct_field_op
format (atomic_op c) = Format.atomic_op
format (binary_checked c) = Format.binary_checked
format (copy_derived c) = Format.copy_derived
format (copy_derived_generic c) = Format.copy_derived_generic
format (copy_local c) = Format.copy_local
format (copy_local_generic c) = Format.copy_local_generic
format (copy_type_slot c) = Format.copy_type_slot
format (copy_to_type_slot c) = Format.copy_to_type_slot
format (copy_from_type_slot c) = Format.copy_from_type_slot
format (copy_type_slot_generic c) = Format.copy_type_slot_generic
format (copy_to_type_slot_generic c) = Format.copy_to_type_slot_generic
format (copy_from_type_slot_generic c) = Format.copy_from_type_slot_generic
format (index c) = Format.index
format (index_generic c) = Format.index_generic
format (const_index_generic c) = Format.const_index_generic
format (binary_saturating c) = Format.binary_saturating
format (stack_param c) = Format.stack_param
format (stack_param_f c) = Format.stack_param_f
format (stack_param_s16 c) = Format.stack_param_s16
format (stack_param_s32 c) = Format.stack_param_s32
format (lea_stack_param c) = Format.lea_stack_param
format (store_frame_imm c) = Format.store_frame_imm

-- Each field fits its bits.
abbrev pub FitCommand : Command → Type 0
FitCommand (b1 c) = FitB1 c
FitCommand (b2rr c) = FitB2rr c
FitCommand (b2xr c) = FitB2xr c
FitCommand (b6xri32 c) = FitB6xri32 c
FitCommand (b10xri64 c) = FitB10xri64 c
FitCommand (b4xi12rr c) = FitB4xi12rr c
FitCommand (b5xi12ri12 c) = FitB5xi12ri12 c
FitCommand (b5i32 c) = FitB5i32 c
FitCommand (b3xi12 c) = FitB3xi12 c
FitCommand (b3xrrr c) = FitB3xrrr c
FitCommand (b9i64 c) = FitB9i64 c
FitCommand (b4xri16 c) = ⊥
FitCommand (b7xrrri32 c) = FitB7xrrri32 c
FitCommand (b3rrrr c) = FitB3rrrr c
FitCommand (store_generic_op c) = FitStoreGenericOp c
FitCommand (init_option c) = FitInitOption c
FitCommand (b3xxrr c) = FitB3xxrr c
FitCommand (b4xi12i8 c) = ⊥
FitCommand (b3xri8 c) = FitB3xri8 c
FitCommand (virtual_call c) = FitVirtualCall c
FitCommand (interface_call c) = FitInterfaceCall c
FitCommand (interface_call_generic c) = FitInterfaceCallGeneric c
FitCommand (bfx c) = FitBfx c
FitCommand (b13i64i32 c) = FitB13i64i32 c
FitCommand (iof c) = FitIof c
FitCommand (struct_field_op c) = FitStructFieldOp c
FitCommand (atomic_op c) = FitAtomicOp c
FitCommand (binary_checked c) = FitBinaryChecked c
FitCommand (copy_derived c) = FitCopyDerived c
FitCommand (copy_derived_generic c) = FitCopyDerivedGeneric c
FitCommand (copy_local c) = FitCopyLocal c
FitCommand (copy_local_generic c) = FitCopyLocalGeneric c
FitCommand (copy_type_slot c) = FitCopyTypeSlot c
FitCommand (copy_to_type_slot c) = FitCopyToTypeSlot c
FitCommand (copy_from_type_slot c) = FitCopyFromTypeSlot c
FitCommand (copy_type_slot_generic c) = FitCopyTypeSlotGeneric c
FitCommand (copy_to_type_slot_generic c) = FitCopyToTypeSlotGeneric c
FitCommand (copy_from_type_slot_generic c) = FitCopyFromTypeSlotGeneric c
FitCommand (index c) = FitIndex c
FitCommand (index_generic c) = FitIndexGeneric c
FitCommand (const_index_generic c) = FitConstIndexGeneric c
FitCommand (binary_saturating c) = FitBinarySaturating c
FitCommand (stack_param c) = FitStackParam c
FitCommand (stack_param_f c) = FitStackParamF c
FitCommand (stack_param_s16 c) = FitStackParamS16 c
FitCommand (stack_param_s32 c) = FitStackParamS32 c
FitCommand (lea_stack_param c) = FitLeaStackParam c
FitCommand (store_frame_imm c) = FitStoreFrameImm c
