-- ===== src/Isa/Command/Opcode.antt =====
-- Every encoding starts with the opcode.
use native.Mathlib.Nat.{mod-eq_of_lt}
use cbc_engine.Prelude.{ℕ, ◌≡◌, List, [], ◌∷◌, some, arith}
use cbc_engine.Isa.{bytes_of}
use cbc_engine.Isa.Command.Fit.{FitCommand}
use cbc_engine.Isa.Command.{
  Command, encode, b1, b2rr, b2xr, b6xri32, b10xri64, b4xi12rr, b5xi12ri12, b5i32, b3xi12, b3xrrr,
  b9i64, b4xri16, b7xrrri32, b3rrrr, store_generic_op, init_option, b3xxrr, b4xi12i8, b3xri8,
  virtual_call, interface_call, interface_call_generic, bfx, b13i64i32, iof, struct_field_op,
  atomic_op, binary_checked, copy_derived, copy_derived_generic, copy_local, copy_local_generic,
  copy_type_slot, copy_to_type_slot, copy_from_type_slot, copy_type_slot_generic,
  copy_to_type_slot_generic, copy_from_type_slot_generic, index, index_generic, const_index_generic,
  binary_saturating, stack_param, stack_param_f, stack_param_s16, stack_param_s32, lea_stack_param,
  store_frame_imm,
}
use cbc_engine.Isa.Short.{
  encode_b1, encode_b2rr, encode_b2xr, encode_b3xrrr, encode_b3rrrr, encode_b3xxrr, encode_b3xri8,
}
use cbc_engine.Isa.Immediates.{
  encode_b6xri32, encode_b10xri64, encode_b4xi12rr, encode_b5xi12ri12, encode_b5i32, encode_b3xi12,
  encode_b9i64, encode_b7xrrri32, encode_b13i64i32,
}
use cbc_engine.Isa.Stores.{encode_store_generic_op, encode_init_option, encode_store_frame_imm}
use cbc_engine.Isa.Calls.{
  encode_virtual_call, encode_interface_call, encode_interface_call_generic, encode_atomic_op,
}
use cbc_engine.Isa.Operations.{
  encode_bfx, encode_iof, encode_struct_field_op, encode_binary_checked, encode_index,
  encode_index_generic, encode_const_index_generic, encode_binary_saturating,
}
use cbc_engine.Isa.Copies.{
  encode_copy_derived, encode_copy_derived_generic, encode_copy_local, encode_copy_local_generic,
}
use cbc_engine.Isa.TypeSlots.{
  encode_copy_type_slot, encode_copy_to_type_slot, encode_copy_from_type_slot,
  encode_copy_type_slot_generic, encode_copy_to_type_slot_generic,
  encode_copy_from_type_slot_generic,
}
use cbc_engine.Isa.StackParams.{
  encode_stack_param, encode_stack_param_f, encode_stack_param_s16, encode_stack_param_s32,
  encode_lea_stack_param,
}

abbrev pub opcode : Command → ℕ
opcode (b1 c) = c.opc
opcode (b2rr c) = c.opc
opcode (b2xr c) = c.opc
opcode (b6xri32 c) = c.opc
opcode (b10xri64 c) = c.opc
opcode (b4xi12rr c) = c.opc
opcode (b5xi12ri12 c) = c.opc
opcode (b5i32 c) = c.opc
opcode (b3xi12 c) = c.opc
opcode (b3xrrr c) = c.opc
opcode (b9i64 c) = c.opc
opcode (b4xri16 c) = c.opc
opcode (b7xrrri32 c) = c.opc
opcode (b3rrrr c) = c.opc
opcode (store_generic_op c) = c.opc
opcode (init_option c) = c.opc
opcode (b3xxrr c) = c.opc
opcode (b4xi12i8 c) = c.opc
opcode (b3xri8 c) = c.opc
opcode (virtual_call c) = c.opc
opcode (interface_call c) = c.opc
opcode (interface_call_generic c) = c.opc
opcode (bfx c) = c.opc
opcode (b13i64i32 c) = c.opc
opcode (iof c) = c.opc
opcode (struct_field_op c) = c.opc
opcode (atomic_op c) = c.opc
opcode (binary_checked c) = c.opc
opcode (copy_derived c) = c.opc
opcode (copy_derived_generic c) = c.opc
opcode (copy_local c) = c.opc
opcode (copy_local_generic c) = c.opc
opcode (copy_type_slot c) = c.opc
opcode (copy_to_type_slot c) = c.opc
opcode (copy_from_type_slot c) = c.opc
opcode (copy_type_slot_generic c) = c.opc
opcode (copy_to_type_slot_generic c) = c.opc
opcode (copy_from_type_slot_generic c) = c.opc
opcode (index c) = c.opc
opcode (index_generic c) = c.opc
opcode (const_index_generic c) = c.opc
opcode (binary_saturating c) = c.opc
opcode (stack_param c) = c.opc
opcode (stack_param_f c) = c.opc
opcode (stack_param_s16 c) = c.opc
opcode (stack_param_s32 c) = c.opc
opcode (lea_stack_param c) = c.opc
opcode (store_frame_imm c) = c.opc

abbrev pub StartsWith : ℕ → List ℕ → Type 0
StartsWith o [] = ⊥
StartsWith o (b ∷ bytes) = b ≡ o

same_start :
    (o : ℕ) {written bytes : List ℕ}
    → some written ≡ some bytes
    → StartsWith o written
    → StartsWith o bytes
same_start o {written} {bytes} e h = let same : bytes ≡ written = cc in rw same h

pub encode-StartsWith :
    (c : Command) {bytes : List ℕ}
    → encode c ≡ some bytes
    → FitCommand c
    → StartsWith (opcode c) bytes
unfolding encode bytes_of encode_b1 encode_b2rr encode_b2xr encode_b6xri32 encode_b10xri64
    encode_b4xi12rr encode_b5xi12ri12 encode_b5i32 encode_b3xi12 encode_b3xrrr encode_b9i64
    encode_b7xrrri32 encode_b3rrrr encode_store_generic_op encode_init_option encode_b3xxrr
    encode_b3xri8 encode_virtual_call encode_interface_call encode_interface_call_generic encode_bfx
    encode_b13i64i32 encode_iof encode_struct_field_op encode_atomic_op encode_binary_checked
    encode_copy_derived encode_copy_derived_generic encode_copy_local encode_copy_local_generic
    encode_copy_type_slot encode_copy_to_type_slot encode_copy_from_type_slot
    encode_copy_type_slot_generic encode_copy_to_type_slot_generic
    encode_copy_from_type_slot_generic encode_index encode_index_generic encode_const_index_generic
    encode_binary_saturating encode_stack_param encode_stack_param_f encode_stack_param_s16
    encode_stack_param_s32 encode_lea_stack_param encode_store_frame_imm
encode-StartsWith (b1 c) e h = same_start c.opc e (mod-eq_of_lt h)
encode-StartsWith (b2rr c) e h = same_start c.opc e (mod-eq_of_lt h.0)
encode-StartsWith (b2xr c) e h = same_start c.opc e (mod-eq_of_lt h.0)
encode-StartsWith (b6xri32 c) e h = same_start c.opc e (mod-eq_of_lt h.0)
encode-StartsWith (b10xri64 c) e h = same_start c.opc e (mod-eq_of_lt h.0)
encode-StartsWith (b4xi12rr c) e h = same_start c.opc e (mod-eq_of_lt h.0)
encode-StartsWith (b5xi12ri12 c) e h = same_start c.opc e (mod-eq_of_lt h.0)
encode-StartsWith (b5i32 c) e h = same_start c.opc e (mod-eq_of_lt h.0)
encode-StartsWith (b3xi12 c) e h = same_start c.opc e (mod-eq_of_lt h.0)
encode-StartsWith (b3xrrr c) e h = same_start c.opc e (mod-eq_of_lt h.0)
encode-StartsWith (b9i64 c) e h = same_start c.opc e (mod-eq_of_lt h.0)
encode-StartsWith (b4xri16 c) e h = absurd h
encode-StartsWith (b7xrrri32 c) e h = same_start c.opc e (mod-eq_of_lt h.0)
encode-StartsWith (b3rrrr c) e h = same_start c.opc e (mod-eq_of_lt h.0)
encode-StartsWith (store_generic_op c) e h = same_start c.opc e (ground arith)
encode-StartsWith (init_option c) e h = same_start c.opc e (mod-eq_of_lt h.0)
encode-StartsWith (b3xxrr c) e h = same_start c.opc e (mod-eq_of_lt h.0)
encode-StartsWith (b4xi12i8 c) e h = absurd h
encode-StartsWith (b3xri8 c) e h = same_start c.opc e (mod-eq_of_lt h.0)
encode-StartsWith (virtual_call c) e h = same_start c.opc e (mod-eq_of_lt h.0)
encode-StartsWith (interface_call c) e h = same_start c.opc e (mod-eq_of_lt h.0)
encode-StartsWith (interface_call_generic c) e h = same_start c.opc e (mod-eq_of_lt h.0)
encode-StartsWith (bfx c) e h = same_start c.opc e (mod-eq_of_lt h.0)
encode-StartsWith (b13i64i32 c) e h = same_start c.opc e (mod-eq_of_lt h.0)
encode-StartsWith (iof c) e h = same_start c.opc e (mod-eq_of_lt h.0)
encode-StartsWith (struct_field_op c) e h = same_start c.opc e (mod-eq_of_lt h.0)
encode-StartsWith (atomic_op c) e h = same_start c.opc e (mod-eq_of_lt h.0)
encode-StartsWith (binary_checked c) e h = same_start c.opc e (mod-eq_of_lt h.0)
encode-StartsWith (copy_derived c) e h = same_start c.opc e (mod-eq_of_lt h.0)
encode-StartsWith (copy_derived_generic c) e h = same_start c.opc e (mod-eq_of_lt h.0)
encode-StartsWith (copy_local c) e h = same_start c.opc e (mod-eq_of_lt h.0)
encode-StartsWith (copy_local_generic c) e h = same_start c.opc e (mod-eq_of_lt h.0)
encode-StartsWith (copy_type_slot c) e h = same_start c.opc e (mod-eq_of_lt h.0)
encode-StartsWith (copy_to_type_slot c) e h = same_start c.opc e (mod-eq_of_lt h.0)
encode-StartsWith (copy_from_type_slot c) e h = same_start c.opc e (mod-eq_of_lt h.0)
encode-StartsWith (copy_type_slot_generic c) e h = same_start c.opc e (mod-eq_of_lt h.0)
encode-StartsWith (copy_to_type_slot_generic c) e h = same_start c.opc e (mod-eq_of_lt h.0)
encode-StartsWith (copy_from_type_slot_generic c) e h = same_start c.opc e (mod-eq_of_lt h.0)
encode-StartsWith (index c) e h = same_start c.opc e (mod-eq_of_lt h.0)
encode-StartsWith (index_generic c) e h = same_start c.opc e (mod-eq_of_lt h.0)
encode-StartsWith (const_index_generic c) e h = same_start c.opc e (mod-eq_of_lt h.0)
encode-StartsWith (binary_saturating c) e h = same_start c.opc e (mod-eq_of_lt h.0)
encode-StartsWith (stack_param c) e h = same_start c.opc e (mod-eq_of_lt h.0)
encode-StartsWith (stack_param_f c) e h = same_start c.opc e (mod-eq_of_lt h.0)
encode-StartsWith (stack_param_s16 c) e h = same_start c.opc e (mod-eq_of_lt h.0)
encode-StartsWith (stack_param_s32 c) e h = same_start c.opc e (mod-eq_of_lt h.0)
encode-StartsWith (lea_stack_param c) e h = same_start c.opc e (mod-eq_of_lt h.0)
encode-StartsWith (store_frame_imm c) e h = same_start c.opc e (ground arith)
