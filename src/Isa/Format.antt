-- ===== src/Isa/Format.antt =====
-- src/cbc/isa_rt.h, CBC_RT_OPCODES: the format of each opcode.
use cbc_engine.Prelude.{List, [], ◌∷◌}

-- The formats that the table names.
pub data Format : Type 0 where
  b1 b2rr b2xr b6xri32 b10xri64 b4xi12rr b5xi12ri12 b5i32 b3xi12 b3xrrr b9i64 b4xri16 b7xrrri32 :
      Format
  b3rrrr store_generic_op init_option b3xxrr b4xi12i8 b3xri8 virtual_call interface_call : Format
  interface_call_generic bfx b13i64i32 iof struct_field_op atomic_op binary_checked : Format
  copy_derived copy_derived_generic copy_local copy_local_generic copy_type_slot : Format
  copy_to_type_slot copy_from_type_slot copy_type_slot_generic copy_to_type_slot_generic : Format
  copy_from_type_slot_generic index index_generic const_index_generic binary_saturating : Format
  stack_param stack_param_f stack_param_s16 stack_param_s32 lea_stack_param store_frame_imm : Format

-- The table, in the order of the opcodes from 0.
unfoldable pub formats : List Format
formats =
    b1 ∷ b1 ∷ b1 ∷ b2rr ∷ b2xr ∷ b2rr ∷ b2rr ∷ b2rr ∷ b6xri32 ∷ b10xri64 ∷ b4xi12rr ∷ b4xi12rr
    ∷ b4xi12rr ∷ b4xi12rr ∷ b5xi12ri12 ∷ b5xi12ri12 ∷ b5xi12ri12 ∷ b5xi12ri12 ∷ b5xi12ri12
    ∷ b5xi12ri12 ∷ b5xi12ri12 ∷ b5xi12ri12 ∷ b5i32 ∷ b3xi12 ∷ b3xrrr ∷ b3xrrr ∷ b4xi12rr ∷ b4xi12rr
    ∷ b4xi12rr ∷ b4xi12rr ∷ b3xrrr ∷ b3xrrr ∷ b3xrrr ∷ b3xrrr ∷ b3xrrr ∷ b3xrrr ∷ b9i64 ∷ b9i64
    ∷ b2rr ∷ b2rr ∷ b2rr ∷ b9i64 ∷ b2rr ∷ b1 ∷ b1 ∷ b9i64 ∷ b1 ∷ b4xri16 ∷ b4xri16 ∷ b4xi12rr
    ∷ b4xi12rr ∷ b3xrrr ∷ b3xrrr ∷ b4xi12rr ∷ b4xi12rr ∷ b4xi12rr ∷ b4xi12rr ∷ b7xrrri32 ∷ b7xrrri32
    ∷ b7xrrri32 ∷ b7xrrri32 ∷ b7xrrri32 ∷ b7xrrri32 ∷ b3rrrr ∷ store_generic_op ∷ store_generic_op
    ∷ store_generic_op ∷ b7xrrri32 ∷ init_option ∷ init_option ∷ init_option ∷ b4xi12rr ∷ b4xi12rr
    ∷ b3xrrr ∷ b3xrrr ∷ b4xi12rr ∷ b4xi12rr ∷ b4xi12rr ∷ b4xi12rr ∷ b7xrrri32 ∷ b7xrrri32
    ∷ b7xrrri32 ∷ b7xrrri32 ∷ b7xrrri32 ∷ b7xrrri32 ∷ b3xrrr ∷ b3xrrr ∷ b3xrrr ∷ b3xrrr ∷ b4xi12rr
    ∷ b4xi12rr ∷ b4xi12rr ∷ b4xi12rr ∷ b4xi12rr ∷ b3xxrr ∷ b3xxrr ∷ b1 ∷ b1 ∷ b1 ∷ b3xi12 ∷ b3xi12
    ∷ b4xi12i8 ∷ b3xri8 ∷ virtual_call ∷ interface_call ∷ interface_call_generic ∷ b1 ∷ bfx ∷ bfx
    ∷ b13i64i32 ∷ b2xr ∷ b2xr ∷ b2rr ∷ b9i64 ∷ iof ∷ b2xr ∷ b9i64 ∷ b6xri32 ∷ b6xri32
    ∷ struct_field_op ∷ struct_field_op ∷ b2xr ∷ b2xr ∷ b9i64 ∷ b3xrrr ∷ b3xrrr ∷ atomic_op
    ∷ atomic_op ∷ atomic_op ∷ atomic_op ∷ atomic_op ∷ atomic_op ∷ atomic_op ∷ atomic_op ∷ atomic_op
    ∷ atomic_op ∷ atomic_op ∷ atomic_op ∷ atomic_op ∷ atomic_op ∷ atomic_op ∷ atomic_op ∷ atomic_op
    ∷ atomic_op ∷ atomic_op ∷ atomic_op ∷ atomic_op ∷ atomic_op ∷ atomic_op ∷ atomic_op ∷ atomic_op
    ∷ atomic_op ∷ atomic_op ∷ atomic_op ∷ atomic_op ∷ atomic_op ∷ b4xi12rr ∷ b4xi12rr ∷ b3xrrr
    ∷ b3xrrr ∷ b3xrrr ∷ b3xrrr ∷ b4xi12rr ∷ b4xi12rr ∷ b4xi12rr ∷ b4xi12rr ∷ binary_checked
    ∷ binary_checked ∷ binary_checked ∷ binary_checked ∷ copy_derived ∷ copy_derived_generic
    ∷ copy_local ∷ copy_derived ∷ copy_derived ∷ copy_local_generic ∷ copy_local_generic
    ∷ copy_local_generic ∷ copy_type_slot ∷ copy_to_type_slot ∷ copy_from_type_slot
    ∷ copy_type_slot_generic ∷ copy_to_type_slot_generic ∷ copy_from_type_slot_generic ∷ index
    ∷ index_generic ∷ const_index_generic ∷ b3xrrr ∷ b3xrrr ∷ b3xrrr ∷ b3xrrr ∷ b4xi12rr ∷ b4xi12rr
    ∷ b4xi12rr ∷ b4xi12rr ∷ binary_saturating ∷ binary_saturating ∷ binary_saturating
    ∷ binary_saturating ∷ stack_param ∷ stack_param_f ∷ stack_param_s16 ∷ stack_param_s32
    ∷ lea_stack_param ∷ store_frame_imm ∷ store_frame_imm ∷ store_frame_imm ∷ store_frame_imm ∷ []
