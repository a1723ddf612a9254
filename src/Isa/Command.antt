-- ===== src/Isa/Command.antt =====
-- src/cbc/isa_rt.h and formater_rt.cpp: an instruction of any format. LogBaseSpaceInstruction decodes
-- by the format of the opcode, and Log decodes a whole code, one instruction after the other.
pub mod Fit
pub mod RoundTrip
pub mod Opcode
pub mod Code
use cbc_engine.Prelude.{
  ℕ, zero, suc, ◌-◌, List, [], ◌∷◌, ◌++◌, Option, none, some, length, get_elem?,
}
use cbc_engine.Isa.{Reader, and_then, ◌>>=◌, pure, run, peek_opcode}
use cbc_engine.Isa.Format
use cbc_engine.Isa.Format.{Format, formats}
use cbc_engine.Isa.Short.{
  B1, decode_b1, encode_b1, B2rr, decode_b2rr, encode_b2rr, B2xr, decode_b2xr, encode_b2xr, B3xrrr,
  decode_b3xrrr, encode_b3xrrr, B4xri16, decode_b4xri16, B3rrrr, decode_b3rrrr, encode_b3rrrr,
  B3xxrr, decode_b3xxrr, encode_b3xxrr, B3xri8, decode_b3xri8, encode_b3xri8,
}
use cbc_engine.Isa.Immediates.{
  B6xri32, decode_b6xri32, encode_b6xri32, B10xri64, decode_b10xri64, encode_b10xri64, B4xi12rr,
  decode_b4xi12rr, encode_b4xi12rr, B5xi12ri12, decode_b5xi12ri12, encode_b5xi12ri12, B5i32,
  decode_b5i32, encode_b5i32, B3xi12, decode_b3xi12, encode_b3xi12, B9i64, decode_b9i64,
  encode_b9i64, B7xrrri32, decode_b7xrrri32, encode_b7xrrri32, B4xi12i8, decode_b4xi12i8, B13i64i32,
  decode_b13i64i32, encode_b13i64i32,
}
use cbc_engine.Isa.Stores.{
  StoreGenericOp, decode_store_generic_op, encode_store_generic_op, InitOption, decode_init_option,
  encode_init_option, StoreFrameImm, decode_store_frame_imm, encode_store_frame_imm,
}
use cbc_engine.Isa.Calls.{
  VirtualCall, decode_virtual_call, encode_virtual_call, InterfaceCall, decode_interface_call,
  encode_interface_call, InterfaceCallGeneric, decode_interface_call_generic,
  encode_interface_call_generic, AtomicOp, decode_atomic_op, encode_atomic_op,
}
use cbc_engine.Isa.Operations.{
  Bfx, decode_bfx, encode_bfx, Iof, decode_iof, encode_iof, StructFieldOp, decode_struct_field_op,
  encode_struct_field_op, BinaryChecked, decode_binary_checked, encode_binary_checked, Index,
  decode_index, encode_index, IndexGeneric, decode_index_generic, encode_index_generic,
  ConstIndexGeneric, decode_const_index_generic, encode_const_index_generic, BinarySaturating,
  decode_binary_saturating, encode_binary_saturating,
}
use cbc_engine.Isa.Copies.{
  CopyDerived, decode_copy_derived, encode_copy_derived, CopyDerivedGeneric,
  decode_copy_derived_generic, encode_copy_derived_generic, CopyLocal, decode_copy_local,
  encode_copy_local, CopyLocalGeneric, decode_copy_local_generic, encode_copy_local_generic,
}
use cbc_engine.Isa.TypeSlots.{
  CopyTypeSlot, decode_copy_type_slot, encode_copy_type_slot, CopyToTypeSlot,
  decode_copy_to_type_slot, encode_copy_to_type_slot, CopyFromTypeSlot, decode_copy_from_type_slot,
  encode_copy_from_type_slot, CopyTypeSlotGeneric, decode_copy_type_slot_generic,
  encode_copy_type_slot_generic, CopyToTypeSlotGeneric, decode_copy_to_type_slot_generic,
  encode_copy_to_type_slot_generic, CopyFromTypeSlotGeneric, decode_copy_from_type_slot_generic,
  encode_copy_from_type_slot_generic,
}
use cbc_engine.Isa.StackParams.{
  StackParam, decode_stack_param, encode_stack_param, StackParamF, decode_stack_param_f,
  encode_stack_param_f, StackParamS16, decode_stack_param_s16, encode_stack_param_s16,
  StackParamS32, decode_stack_param_s32, encode_stack_param_s32, LeaStackParam,
  decode_lea_stack_param, encode_lea_stack_param,
}

pub data Command : Type 0 where
  b1 : B1 → Command
  b2rr : B2rr → Command
  b2xr : B2xr → Command
  b6xri32 : B6xri32 → Command
  b10xri64 : B10xri64 → Command
  b4xi12rr : B4xi12rr → Command
  b5xi12ri12 : B5xi12ri12 → Command
  b5i32 : B5i32 → Command
  b3xi12 : B3xi12 → Command
  b3xrrr : B3xrrr → Command
  b9i64 : B9i64 → Command
  b4xri16 : B4xri16 → Command
  b7xrrri32 : B7xrrri32 → Command
  b3rrrr : B3rrrr → Command
  store_generic_op : StoreGenericOp → Command
  init_option : InitOption → Command
  b3xxrr : B3xxrr → Command
  b4xi12i8 : B4xi12i8 → Command
  b3xri8 : B3xri8 → Command
  virtual_call : VirtualCall → Command
  interface_call : InterfaceCall → Command
  interface_call_generic : InterfaceCallGeneric → Command
  bfx : Bfx → Command
  b13i64i32 : B13i64i32 → Command
  iof : Iof → Command
  struct_field_op : StructFieldOp → Command
  atomic_op : AtomicOp → Command
  binary_checked : BinaryChecked → Command
  copy_derived : CopyDerived → Command
  copy_derived_generic : CopyDerivedGeneric → Command
  copy_local : CopyLocal → Command
  copy_local_generic : CopyLocalGeneric → Command
  copy_type_slot : CopyTypeSlot → Command
  copy_to_type_slot : CopyToTypeSlot → Command
  copy_from_type_slot : CopyFromTypeSlot → Command
  copy_type_slot_generic : CopyTypeSlotGeneric → Command
  copy_to_type_slot_generic : CopyToTypeSlotGeneric → Command
  copy_from_type_slot_generic : CopyFromTypeSlotGeneric → Command
  index : Index → Command
  index_generic : IndexGeneric → Command
  const_index_generic : ConstIndexGeneric → Command
  binary_saturating : BinarySaturating → Command
  stack_param : StackParam → Command
  stack_param_f : StackParamF → Command
  stack_param_s16 : StackParamS16 → Command
  stack_param_s32 : StackParamS32 → Command
  lea_stack_param : LeaStackParam → Command
  store_frame_imm : StoreFrameImm → Command

module _ {ℓ κ} {A : Type ℓ} {B : Type κ} where
  abbrev pub mapped : (A → B) → Reader A → Reader B
  mapped f p bytes = and_then (p bytes) λ a rest. some (f a, rest)

-- Decode of each format, and Encode; B4xri16 and B4xi12i8 have no Encode.
pub decode : Format → Reader Command
decode Format.b1 = mapped b1 decode_b1
decode Format.b2rr = mapped b2rr decode_b2rr
decode Format.b2xr = mapped b2xr decode_b2xr
decode Format.b6xri32 = mapped b6xri32 decode_b6xri32
decode Format.b10xri64 = mapped b10xri64 decode_b10xri64
decode Format.b4xi12rr = mapped b4xi12rr decode_b4xi12rr
decode Format.b5xi12ri12 = mapped b5xi12ri12 decode_b5xi12ri12
decode Format.b5i32 = mapped b5i32 decode_b5i32
decode Format.b3xi12 = mapped b3xi12 decode_b3xi12
decode Format.b3xrrr = mapped b3xrrr decode_b3xrrr
decode Format.b9i64 = mapped b9i64 decode_b9i64
decode Format.b4xri16 = mapped b4xri16 decode_b4xri16
decode Format.b7xrrri32 = mapped b7xrrri32 decode_b7xrrri32
decode Format.b3rrrr = mapped b3rrrr decode_b3rrrr
decode Format.store_generic_op = mapped store_generic_op decode_store_generic_op
decode Format.init_option = mapped init_option decode_init_option
decode Format.b3xxrr = mapped b3xxrr decode_b3xxrr
decode Format.b4xi12i8 = mapped b4xi12i8 decode_b4xi12i8
decode Format.b3xri8 = mapped b3xri8 decode_b3xri8
decode Format.virtual_call = mapped virtual_call decode_virtual_call
decode Format.interface_call = mapped interface_call decode_interface_call
decode Format.interface_call_generic = mapped interface_call_generic decode_interface_call_generic
decode Format.bfx = mapped bfx decode_bfx
decode Format.b13i64i32 = mapped b13i64i32 decode_b13i64i32
decode Format.iof = mapped iof decode_iof
decode Format.struct_field_op = mapped struct_field_op decode_struct_field_op
decode Format.atomic_op = mapped atomic_op decode_atomic_op
decode Format.binary_checked = mapped binary_checked decode_binary_checked
decode Format.copy_derived = mapped copy_derived decode_copy_derived
decode Format.copy_derived_generic = mapped copy_derived_generic decode_copy_derived_generic
decode Format.copy_local = mapped copy_local decode_copy_local
decode Format.copy_local_generic = mapped copy_local_generic decode_copy_local_generic
decode Format.copy_type_slot = mapped copy_type_slot decode_copy_type_slot
decode Format.copy_to_type_slot = mapped copy_to_type_slot decode_copy_to_type_slot
decode Format.copy_from_type_slot = mapped copy_from_type_slot decode_copy_from_type_slot
decode Format.copy_type_slot_generic = mapped copy_type_slot_generic decode_copy_type_slot_generic
decode Format.copy_to_type_slot_generic =
    mapped copy_to_type_slot_generic decode_copy_to_type_slot_generic
decode Format.copy_from_type_slot_generic =
    mapped copy_from_type_slot_generic decode_copy_from_type_slot_generic
decode Format.index = mapped index decode_index
decode Format.index_generic = mapped index_generic decode_index_generic
decode Format.const_index_generic = mapped const_index_generic decode_const_index_generic
decode Format.binary_saturating = mapped binary_saturating decode_binary_saturating
decode Format.stack_param = mapped stack_param decode_stack_param
decode Format.stack_param_f = mapped stack_param_f decode_stack_param_f
decode Format.stack_param_s16 = mapped stack_param_s16 decode_stack_param_s16
decode Format.stack_param_s32 = mapped stack_param_s32 decode_stack_param_s32
decode Format.lea_stack_param = mapped lea_stack_param decode_lea_stack_param
decode Format.store_frame_imm = mapped store_frame_imm decode_store_frame_imm

unfoldable pub encode : Command → Option (List ℕ)
encode (b1 c) = some (encode_b1 c)
encode (b2rr c) = some (encode_b2rr c)
encode (b2xr c) = some (encode_b2xr c)
encode (b6xri32 c) = some (encode_b6xri32 c)
encode (b10xri64 c) = some (encode_b10xri64 c)
encode (b4xi12rr c) = some (encode_b4xi12rr c)
encode (b5xi12ri12 c) = some (encode_b5xi12ri12 c)
encode (b5i32 c) = some (encode_b5i32 c)
encode (b3xi12 c) = some (encode_b3xi12 c)
encode (b3xrrr c) = some (encode_b3xrrr c)
encode (b9i64 c) = some (encode_b9i64 c)
encode (b4xri16 c) = none
encode (b7xrrri32 c) = some (encode_b7xrrri32 c)
encode (b3rrrr c) = some (encode_b3rrrr c)
encode (store_generic_op c) = some (encode_store_generic_op c)
encode (init_option c) = some (encode_init_option c)
encode (b3xxrr c) = some (encode_b3xxrr c)
encode (b4xi12i8 c) = none
encode (b3xri8 c) = some (encode_b3xri8 c)
encode (virtual_call c) = some (encode_virtual_call c)
encode (interface_call c) = some (encode_interface_call c)
encode (interface_call_generic c) = some (encode_interface_call_generic c)
encode (bfx c) = some (encode_bfx c)
encode (b13i64i32 c) = some (encode_b13i64i32 c)
encode (iof c) = some (encode_iof c)
encode (struct_field_op c) = some (encode_struct_field_op c)
encode (atomic_op c) = some (encode_atomic_op c)
encode (binary_checked c) = some (encode_binary_checked c)
encode (copy_derived c) = some (encode_copy_derived c)
encode (copy_derived_generic c) = some (encode_copy_derived_generic c)
encode (copy_local c) = some (encode_copy_local c)
encode (copy_local_generic c) = some (encode_copy_local_generic c)
encode (copy_type_slot c) = some (encode_copy_type_slot c)
encode (copy_to_type_slot c) = some (encode_copy_to_type_slot c)
encode (copy_from_type_slot c) = some (encode_copy_from_type_slot c)
encode (copy_type_slot_generic c) = some (encode_copy_type_slot_generic c)
encode (copy_to_type_slot_generic c) = some (encode_copy_to_type_slot_generic c)
encode (copy_from_type_slot_generic c) = some (encode_copy_from_type_slot_generic c)
encode (index c) = some (encode_index c)
encode (index_generic c) = some (encode_index_generic c)
encode (const_index_generic c) = some (encode_const_index_generic c)
encode (binary_saturating c) = some (encode_binary_saturating c)
encode (stack_param c) = some (encode_stack_param c)
encode (stack_param_f c) = some (encode_stack_param_f c)
encode (stack_param_s16 c) = some (encode_stack_param_s16 c)
encode (stack_param_s32 c) = some (encode_stack_param_s32 c)
encode (lea_stack_param c) = some (encode_lea_stack_param c)
encode (store_frame_imm c) = some (encode_store_frame_imm c)

-- LogBaseSpaceInstruction: an opcode out of the table reads nothing.
log_format : Option Format → Reader (Option Command)
log_format none bytes = some (none, bytes)
log_format (some f) bytes = mapped some (decode f) bytes

pub log_instruction : ℕ → Reader (Option Command)
log_instruction opc bytes = log_format (get_elem? formats opc) bytes

-- What Log does in a number of rounds: it comes to the end of the code, with the position and the
-- instruction of each round; a Decode fails its ASSERT; or it still runs.
pub data Logged : Type 0 where
  finished : List (ℕ × Option Command) → Logged
  aborted : Logged
  running : Logged

abbrev pub logged : ℕ × Option Command → Logged → Logged
logged line (finished lines) = finished (line ∷ lines)
logged line aborted = aborted
logged line running = running

-- Log, on fuel; `size` is the size of the code.
pub log : ℕ → ℕ → List ℕ → Logged
log size fuel [] = finished []
log size zero (b ∷ bytes) = running
log size (suc fuel) (b ∷ bytes) = elim (log_instruction b (b ∷ bytes)) [
  | none ↦ aborted
  | some (c, rest) ↦ logged (size - length (b ∷ bytes), c) (log size fuel rest)
]
