-- ===== src/Emitter/Copies.antt =====
-- src/cbc/emitter/emitter.cpp: the copies and the addresses of elements, as the instructions that they
-- write. A type information is the number of its address.
use cbc_engine.Prelude.{ℕ, Bool, if◌then◌else◌}
use cbc_engine.Prelude.Int.{ℤ}
use cbc_engine.Word.{w32, w64, to_unsigned}
use cbc_engine.Isa.Opcode
use cbc_engine.Isa.Command.{Command}

unfoldable pub copy_derived : ℕ → ℕ → ℕ → ℕ → ℕ → Command
copy_derived dst_base dst src_base src ti = Command.copy_derived (record {
  opc = Opcode.copy_derived;
  dst = record { x = dst_base; y = dst };
  src = record { x = src_base; y = src };
  ti = ti;
})

unfoldable pub copy_derived_generic : ℕ → ℕ → ℕ → ℕ → ℕ → Command
copy_derived_generic dst_base dst src_base src ti = Command.copy_derived_generic (record {
  opc = Opcode.copy_derived_generic;
  dst = record { x = dst_base; y = dst };
  src = record { x = src_base; y = src };
  ti = record { x = ti; y = 0 };
})

unfoldable pub copy_local : ℕ → ℕ → ℕ → Command
copy_local dst src ti =
    Command.copy_local
      (record { opc = Opcode.copy_local; records = record { x = dst; y = src }; ti = ti })

unfoldable pub copy_to_local : ℕ → ℕ → ℕ → ℕ → Command
copy_to_local dst src_base src ti = Command.copy_derived (record {
  opc = Opcode.copy_to_local;
  dst = record { x = 0; y = dst };
  src = record { x = src_base; y = src };
  ti = ti;
})

unfoldable pub copy_from_local : ℕ → ℕ → ℕ → ℕ → Command
copy_from_local dst_base dst src ti = Command.copy_derived (record {
  opc = Opcode.copy_from_local;
  dst = record { x = dst_base; y = dst };
  src = record { x = 0; y = src };
  ti = ti;
})

unfoldable pub copy_local_generic : ℕ → ℕ → ℕ → Command
copy_local_generic dst src ti = Command.copy_local_generic (record {
  opc = Opcode.copy_local_generic;
  first = record { x = dst; y = src };
  second = record { x = ti; y = 0 };
})

unfoldable pub copy_to_local_generic : ℕ → ℕ → ℕ → ℕ → Command
copy_to_local_generic dst src_base src ti = Command.copy_local_generic (record {
  opc = Opcode.copy_to_local_generic;
  first = record { x = dst; y = src_base };
  second = record { x = src; y = ti };
})

unfoldable pub copy_from_local_generic : ℕ → ℕ → ℕ → ℕ → Command
copy_from_local_generic dst_base dst src ti = Command.copy_local_generic (record {
  opc = Opcode.copy_from_local_generic;
  first = record { x = dst_base; y = dst };
  second = record { x = src; y = ti };
})

unfoldable pub copy_type_slot : ℤ → ℤ → ℕ → Command
copy_type_slot dst_offset src_offset ti = Command.copy_type_slot (record {
  opc = Opcode.copy_typeslot;
  dst_offset = to_unsigned w32 dst_offset;
  src_offset = to_unsigned w32 src_offset;
  ti = ti;
})

unfoldable pub copy_type_slot_generic : ℤ → ℤ → ℕ → Command
copy_type_slot_generic dst_offset src_offset ti = Command.copy_type_slot_generic (record {
  opc = Opcode.copy_typeslot_generic;
  dst_offset = to_unsigned w32 dst_offset;
  src_offset = to_unsigned w32 src_offset;
  ti = record { x = ti; y = 0 };
})

unfoldable pub copy_to_type_slot : ℤ → ℕ → ℕ → ℕ → Command
copy_to_type_slot dst_offset src_base src ti = Command.copy_to_type_slot (record {
  opc = Opcode.copy_to_typeslot;
  dst_offset = to_unsigned w32 dst_offset;
  src = record { x = src_base; y = src };
  ti = ti;
})

unfoldable pub copy_to_type_slot_generic : ℤ → ℕ → ℕ → ℕ → Command
copy_to_type_slot_generic dst_offset src_base src ti = Command.copy_to_type_slot_generic (record {
  opc = Opcode.copy_to_typeslot_generic;
  dst_offset = to_unsigned w32 dst_offset;
  src = record { x = src_base; y = src };
  ti = record { x = ti; y = 0 };
})

unfoldable pub copy_from_type_slot : ℕ → ℕ → ℤ → ℕ → Command
copy_from_type_slot dst_base dst src_offset ti = Command.copy_from_type_slot (record {
  opc = Opcode.copy_from_typeslot;
  dst = record { x = dst_base; y = dst };
  src_offset = to_unsigned w32 src_offset;
  ti = ti;
})

unfoldable pub copy_from_type_slot_generic : ℕ → ℕ → ℤ → ℕ → Command
copy_from_type_slot_generic dst_base dst src_offset ti =
    Command.copy_from_type_slot_generic (record {
      opc = Opcode.copy_from_typeslot_generic;
      dst = record { x = dst_base; y = dst };
      src_offset = to_unsigned w32 src_offset;
      ti = record { x = ti; y = 0 };
    })

unfoldable pub lea_index : ℕ → ℕ → ℕ → ℕ → Bool → Command
lea_index dst src idx ti is_cangjie_array = Command.index (record {
  opc = Opcode.index;
  rr = record { x = dst; y = src };
  idx = record { imm = if is_cangjie_array then 1 else 0; r = idx };
  ti = ti;
})

unfoldable pub lea_index_generic : ℕ → ℕ → ℕ → ℕ → Command
lea_index_generic dst src idx ti = Command.index_generic (record {
  opc = Opcode.index_generic;
  rr = record { x = dst; y = src };
  idx = record { x = idx; y = ti };
})

unfoldable pub lea_const_index_generic : ℕ → ℕ → ℤ → ℕ → Command
lea_const_index_generic dst src idx ti = Command.const_index_generic (record {
  opc = Opcode.const_index_generic;
  rr = record { x = dst; y = src };
  ti = record { x = ti; y = 0 };
  idx = to_unsigned w64 idx;
})
