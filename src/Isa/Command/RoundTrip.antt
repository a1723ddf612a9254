-- ===== src/Isa/Command/RoundTrip.antt =====
-- What encode answers with is decoded, in the format of the command, to the command itself.
use cbc_engine.Prelude.{ℕ, ◌≡◌, List, ◌++◌, some}
use cbc_engine.Isa.{Reader}
use cbc_engine.Isa.Command.Fit.{format, FitCommand}
use cbc_engine.Isa.Command.{
  Command, mapped, decode, encode, b1, b2rr, b2xr, b6xri32, b10xri64, b4xi12rr, b5xi12ri12, b5i32,
  b3xi12, b3xrrr, b9i64, b4xri16, b7xrrri32, b3rrrr, store_generic_op, init_option, b3xxrr,
  b4xi12i8, b3xri8, virtual_call, interface_call, interface_call_generic, bfx, b13i64i32, iof,
  struct_field_op, atomic_op, binary_checked, copy_derived, copy_derived_generic, copy_local,
  copy_local_generic, copy_type_slot, copy_to_type_slot, copy_from_type_slot,
  copy_type_slot_generic, copy_to_type_slot_generic, copy_from_type_slot_generic, index,
  index_generic, const_index_generic, binary_saturating, stack_param, stack_param_f,
  stack_param_s16, stack_param_s32, lea_stack_param, store_frame_imm,
}
use cbc_engine.Isa.Short.RoundTrip.{
  decode_b1-encode_b1, decode_b2rr-encode_b2rr, decode_b2xr-encode_b2xr,
  decode_b3xrrr-encode_b3xrrr, decode_b3rrrr-encode_b3rrrr, decode_b3xxrr-encode_b3xxrr,
  decode_b3xri8-encode_b3xri8,
}
use cbc_engine.Isa.Immediates.RoundTrip.{
  decode_b6xri32-encode_b6xri32, decode_b10xri64-encode_b10xri64, decode_b4xi12rr-encode_b4xi12rr,
  decode_b5xi12ri12-encode_b5xi12ri12, decode_b5i32-encode_b5i32, decode_b3xi12-encode_b3xi12,
  decode_b9i64-encode_b9i64, decode_b7xrrri32-encode_b7xrrri32, decode_b13i64i32-encode_b13i64i32,
}
use cbc_engine.Isa.Stores.RoundTrip.{
  decode_store_generic_op-encode_store_generic_op, decode_init_option-encode_init_option,
}
use cbc_engine.Isa.Calls.RoundTrip.{
  decode_virtual_call-encode_virtual_call, decode_interface_call-encode_interface_call,
  decode_interface_call_generic-encode_interface_call_generic, decode_atomic_op-encode_atomic_op,
}
use cbc_engine.Isa.Operations.RoundTrip.{
  decode_bfx-encode_bfx, decode_iof-encode_iof, decode_struct_field_op-encode_struct_field_op,
  decode_binary_checked-encode_binary_checked, decode_index-encode_index,
  decode_index_generic-encode_index_generic, decode_const_index_generic-encode_const_index_generic,
  decode_binary_saturating-encode_binary_saturating,
}
use cbc_engine.Isa.Copies.RoundTrip.{
  decode_copy_derived-encode_copy_derived, decode_copy_derived_generic-encode_copy_derived_generic,
  decode_copy_local-encode_copy_local, decode_copy_local_generic-encode_copy_local_generic,
}
use cbc_engine.Isa.TypeSlots.RoundTrip.{
  decode_copy_type_slot-encode_copy_type_slot, decode_copy_to_type_slot-encode_copy_to_type_slot,
  decode_copy_from_type_slot-encode_copy_from_type_slot,
  decode_copy_type_slot_generic-encode_copy_type_slot_generic,
  decode_copy_to_type_slot_generic-encode_copy_to_type_slot_generic,
  decode_copy_from_type_slot_generic-encode_copy_from_type_slot_generic,
}
use cbc_engine.Isa.StackParams.RoundTrip.{
  decode_stack_param-encode_stack_param, decode_stack_param_f-encode_stack_param_f,
  decode_stack_param_s16-encode_stack_param_s16, decode_stack_param_s32-encode_stack_param_s32,
  decode_lea_stack_param-encode_lea_stack_param,
}
use cbc_engine.Isa.Stores.Frame.{decode_store_frame_imm-encode_store_frame_imm}
use cbc_engine.Isa.Short.{
  decode_b1, decode_b2rr, decode_b2xr, decode_b3xrrr, decode_b3rrrr, decode_b3xxrr, decode_b3xri8,
}
use cbc_engine.Isa.Immediates.{
  decode_b6xri32, decode_b10xri64, decode_b4xi12rr, decode_b5xi12ri12, decode_b5i32, decode_b3xi12,
  decode_b9i64, decode_b7xrrri32, decode_b13i64i32,
}
use cbc_engine.Isa.Stores.{decode_store_generic_op, decode_init_option, decode_store_frame_imm}
use cbc_engine.Isa.Calls.{
  decode_virtual_call, decode_interface_call, decode_interface_call_generic, decode_atomic_op,
}
use cbc_engine.Isa.Operations.{
  decode_bfx, decode_iof, decode_struct_field_op, decode_binary_checked, decode_index,
  decode_index_generic, decode_const_index_generic, decode_binary_saturating,
}
use cbc_engine.Isa.Copies.{
  decode_copy_derived, decode_copy_derived_generic, decode_copy_local, decode_copy_local_generic,
}
use cbc_engine.Isa.TypeSlots.{
  decode_copy_type_slot, decode_copy_to_type_slot, decode_copy_from_type_slot,
  decode_copy_type_slot_generic, decode_copy_to_type_slot_generic,
  decode_copy_from_type_slot_generic,
}
use cbc_engine.Isa.StackParams.{
  decode_stack_param, decode_stack_param_f, decode_stack_param_s16, decode_stack_param_s32,
  decode_lea_stack_param,
}

read_back :
    {A : Type 0} (f : A → Command) (p : Reader A) (c : A) {written bytes : List ℕ} {rest : List ℕ}
    → some written ≡ some bytes
    → p (written ++ rest) ≡ some (c, rest)
    → mapped f p (bytes ++ rest) ≡ some (f c, rest)
read_back f p c {written} {bytes} e h = let same : bytes ≡ written = cc in rw (same, h)

-- What Encode writes of a command whose fields fit their bits is decoded, in its format, to the
-- command, and the bytes that follow are left.
pub decode-encode :
    (c : Command) {bytes : List ℕ} (rest : List ℕ)
    → encode c ≡ some bytes
    → FitCommand c
    → decode (format c) (bytes ++ rest) ≡ some (c, rest)
unfolding decode encode
decode-encode (b1 c) rest e h = read_back b1 decode_b1 c e (decode_b1-encode_b1 c rest h)
decode-encode (b2rr c) rest e h = read_back b2rr decode_b2rr c e (decode_b2rr-encode_b2rr c rest h)
decode-encode (b2xr c) rest e h = read_back b2xr decode_b2xr c e (decode_b2xr-encode_b2xr c rest h)
decode-encode (b6xri32 c) rest e h =
    read_back b6xri32 decode_b6xri32 c e (decode_b6xri32-encode_b6xri32 c rest h)
decode-encode (b10xri64 c) rest e h =
    read_back b10xri64 decode_b10xri64 c e (decode_b10xri64-encode_b10xri64 c rest h)
decode-encode (b4xi12rr c) rest e h =
    read_back b4xi12rr decode_b4xi12rr c e (decode_b4xi12rr-encode_b4xi12rr c rest h)
decode-encode (b5xi12ri12 c) rest e h =
    read_back b5xi12ri12 decode_b5xi12ri12 c e (decode_b5xi12ri12-encode_b5xi12ri12 c rest h)
decode-encode (b5i32 c) rest e h =
    read_back b5i32 decode_b5i32 c e (decode_b5i32-encode_b5i32 c rest h)
decode-encode (b3xi12 c) rest e h =
    read_back b3xi12 decode_b3xi12 c e (decode_b3xi12-encode_b3xi12 c rest h)
decode-encode (b3xrrr c) rest e h =
    read_back b3xrrr decode_b3xrrr c e (decode_b3xrrr-encode_b3xrrr c rest h)
decode-encode (b9i64 c) rest e h =
    read_back b9i64 decode_b9i64 c e (decode_b9i64-encode_b9i64 c rest h)
decode-encode (b4xri16 c) rest e h = absurd h
decode-encode (b7xrrri32 c) rest e h =
    read_back b7xrrri32 decode_b7xrrri32 c e (decode_b7xrrri32-encode_b7xrrri32 c rest h)
decode-encode (b3rrrr c) rest e h =
    read_back b3rrrr decode_b3rrrr c e (decode_b3rrrr-encode_b3rrrr c rest h)
decode-encode (store_generic_op c) rest e h =
    read_back store_generic_op decode_store_generic_op c e
      (decode_store_generic_op-encode_store_generic_op c rest h)
decode-encode (init_option c) rest e h =
    read_back init_option decode_init_option c e (decode_init_option-encode_init_option c rest h)
decode-encode (b3xxrr c) rest e h =
    read_back b3xxrr decode_b3xxrr c e (decode_b3xxrr-encode_b3xxrr c rest h)
decode-encode (b4xi12i8 c) rest e h = absurd h
decode-encode (b3xri8 c) rest e h =
    read_back b3xri8 decode_b3xri8 c e (decode_b3xri8-encode_b3xri8 c rest h)
decode-encode (virtual_call c) rest e h =
    read_back virtual_call decode_virtual_call c e
      (decode_virtual_call-encode_virtual_call c rest h)
decode-encode (interface_call c) rest e h =
    read_back interface_call decode_interface_call c e
      (decode_interface_call-encode_interface_call c rest h)
decode-encode (interface_call_generic c) rest e h =
    read_back interface_call_generic decode_interface_call_generic c e
      (decode_interface_call_generic-encode_interface_call_generic c rest h)
decode-encode (bfx c) rest e h = read_back bfx decode_bfx c e (decode_bfx-encode_bfx c rest h)
decode-encode (b13i64i32 c) rest e h =
    read_back b13i64i32 decode_b13i64i32 c e (decode_b13i64i32-encode_b13i64i32 c rest h)
decode-encode (iof c) rest e h = read_back iof decode_iof c e (decode_iof-encode_iof c rest h)
decode-encode (struct_field_op c) rest e h =
    read_back struct_field_op decode_struct_field_op c e
      (decode_struct_field_op-encode_struct_field_op c rest h)
decode-encode (atomic_op c) rest e h =
    read_back atomic_op decode_atomic_op c e (decode_atomic_op-encode_atomic_op c rest h)
decode-encode (binary_checked c) rest e h =
    read_back binary_checked decode_binary_checked c e
      (decode_binary_checked-encode_binary_checked c rest h)
decode-encode (copy_derived c) rest e h =
    read_back copy_derived decode_copy_derived c e
      (decode_copy_derived-encode_copy_derived c rest h)
decode-encode (copy_derived_generic c) rest e h =
    read_back copy_derived_generic decode_copy_derived_generic c e
      (decode_copy_derived_generic-encode_copy_derived_generic c rest h)
decode-encode (copy_local c) rest e h =
    read_back copy_local decode_copy_local c e (decode_copy_local-encode_copy_local c rest h)
decode-encode (copy_local_generic c) rest e h =
    read_back copy_local_generic decode_copy_local_generic c e
      (decode_copy_local_generic-encode_copy_local_generic c rest h)
decode-encode (copy_type_slot c) rest e h =
    read_back copy_type_slot decode_copy_type_slot c e
      (decode_copy_type_slot-encode_copy_type_slot c rest h)
decode-encode (copy_to_type_slot c) rest e h =
    read_back copy_to_type_slot decode_copy_to_type_slot c e
      (decode_copy_to_type_slot-encode_copy_to_type_slot c rest h)
decode-encode (copy_from_type_slot c) rest e h =
    read_back copy_from_type_slot decode_copy_from_type_slot c e
      (decode_copy_from_type_slot-encode_copy_from_type_slot c rest h)
decode-encode (copy_type_slot_generic c) rest e h =
    read_back copy_type_slot_generic decode_copy_type_slot_generic c e
      (decode_copy_type_slot_generic-encode_copy_type_slot_generic c rest h)
decode-encode (copy_to_type_slot_generic c) rest e h =
    read_back copy_to_type_slot_generic decode_copy_to_type_slot_generic c e
      (decode_copy_to_type_slot_generic-encode_copy_to_type_slot_generic c rest h)
decode-encode (copy_from_type_slot_generic c) rest e h =
    read_back copy_from_type_slot_generic decode_copy_from_type_slot_generic c e
      (decode_copy_from_type_slot_generic-encode_copy_from_type_slot_generic c rest h)
decode-encode (index c) rest e h =
    read_back index decode_index c e (decode_index-encode_index c rest h)
decode-encode (index_generic c) rest e h =
    read_back index_generic decode_index_generic c e
      (decode_index_generic-encode_index_generic c rest h)
decode-encode (const_index_generic c) rest e h =
    read_back const_index_generic decode_const_index_generic c e
      (decode_const_index_generic-encode_const_index_generic c rest h)
decode-encode (binary_saturating c) rest e h =
    read_back binary_saturating decode_binary_saturating c e
      (decode_binary_saturating-encode_binary_saturating c rest h)
decode-encode (stack_param c) rest e h =
    read_back stack_param decode_stack_param c e (decode_stack_param-encode_stack_param c rest h)
decode-encode (stack_param_f c) rest e h =
    read_back stack_param_f decode_stack_param_f c e
      (decode_stack_param_f-encode_stack_param_f c rest h)
decode-encode (stack_param_s16 c) rest e h =
    read_back stack_param_s16 decode_stack_param_s16 c e
      (decode_stack_param_s16-encode_stack_param_s16 c rest h)
decode-encode (stack_param_s32 c) rest e h =
    read_back stack_param_s32 decode_stack_param_s32 c e
      (decode_stack_param_s32-encode_stack_param_s32 c rest h)
decode-encode (lea_stack_param c) rest e h =
    read_back lea_stack_param decode_lea_stack_param c e
      (decode_lea_stack_param-encode_lea_stack_param c rest h)
decode-encode (store_frame_imm c) rest e h =
    read_back store_frame_imm decode_store_frame_imm c e
      (decode_store_frame_imm-encode_store_frame_imm c rest h)
