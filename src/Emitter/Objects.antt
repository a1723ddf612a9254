-- ===== src/Emitter/Objects.antt =====
-- src/cbc/emitter/emitter.cpp: objects, closures, checks and stack parameters, as the instructions
-- that they write. A type information is the number of its address.
use cbc_engine.Prelude.{ℕ, Bool, if◌then◌else◌}
use cbc_engine.Prelude.Int.{ℤ}
use cbc_engine.Word.{w32, to_unsigned}
use cbc_engine.Isa.Opcode
use cbc_engine.Isa.Command.{Command}

unfoldable pub new_obj_generic : ℕ → Bool → Command
new_obj_generic ti pinned = Command.b2rr (record {
  opc = if pinned then Opcode.newobj_pinned_g else Opcode.newobj_g;
  rr = record { x = ti; y = ti };
})

unfoldable pub new_obj_generic_on_acc : ℕ → Command
new_obj_generic_on_acc ti =
    Command.b2rr (record { opc = Opcode.newobj_acc_g; rr = record { x = ti; y = ti } })

unfoldable pub new_obj : ℕ → Bool → Command
new_obj ti pinned =
    Command.b9i64
      (record { opc = if pinned then Opcode.newobj_pinned else Opcode.newobj; imm64 = ti })

unfoldable pub new_arr : ℕ → Command
new_arr ti = Command.b9i64 (record { opc = Opcode.newarr; imm64 = ti })

unfoldable pub new_arr_generic : ℕ → Command
new_arr_generic ti = Command.b2rr (record { opc = Opcode.newarr_g; rr = record { x = ti; y = ti } })

unfoldable pub init_closure : Bool → Command
init_closure instantiated_sret =
    Command.b1
      (record { opc = if instantiated_sret then Opcode.initclosure_sret else Opcode.initclosure })

unfoldable pub spawn : ℕ → Command
spawn ti = Command.b9i64 (record { opc = Opcode.spawn; imm64 = ti })

unfoldable pub spawn_future : Command
spawn_future = Command.b1 (record { opc = Opcode.spawn_future })

unfoldable pub gc_point : Command
gc_point = Command.b1 (record { opc = Opcode.gc_point })

unfoldable pub virtual_call : ℕ → ℕ → Bool → Command
virtual_call vnum ext_def_num sret = Command.virtual_call (record {
  opc = Opcode.virtual_call;
  vnum = vnum;
  edef = ext_def_num;
  sret = if sret then 1 else 0;
})

unfoldable pub div_check : ℕ → Command
div_check r = Command.b2xr (record { opc = Opcode.divcheck; xr = record { imm = 0; r = r } })

unfoldable pub null_check : ℕ → Command
null_check r = Command.b2xr (record { opc = Opcode.nullcheck; xr = record { imm = 0; r = r } })

unfoldable pub array_index_check : ℕ → ℕ → Command
array_index_check len idx =
    Command.b2rr (record { opc = Opcode.array_index_check; rr = record { x = len; y = idx } })

unfoldable pub instance_of : ℕ → ℕ → ℕ → Command
instance_of dst obj ti =
    Command.iof (record { opc = Opcode.iof; rr = record { x = dst; y = obj }; imm64 = ti })

unfoldable pub throw : ℕ → Command
throw reg = Command.b2xr (record { opc = Opcode.throw; xr = record { imm = 0; r = reg } })

unfoldable pub catch : ℕ → Command
catch reg = Command.b2xr (record { opc = Opcode.catch; xr = record { imm = 0; r = reg } })

unfoldable pub load_generic_type_info : ℕ → Command
load_generic_type_info ti = Command.b9i64 (record { opc = Opcode.load_generic_ti; imm64 = ti })

unfoldable pub new_box : ℕ → Command
new_box ti = Command.b9i64 (record { opc = Opcode.newbox2; imm64 = ti })

unfoldable pub unbox_t : ℕ → ℤ → Command
unbox_t src offset = Command.b6xri32 (record {
  opc = Opcode.unbox_t;
  xr = record { imm = 0; r = src };
  imm32 = to_unsigned w32 offset;
})

unfoldable pub assign_generic : ℕ → ℕ → ℕ → Command
assign_generic dst src ti = Command.b3xrrr (record {
  opc = Opcode.assign_generic;
  xr = record { imm = 0; r = dst };
  rr = record { x = src; y = ti };
})

unfoldable pub instance_of_generic : ℕ → ℕ → ℕ → Command
instance_of_generic dst obj ti = Command.b3xrrr (record {
  opc = Opcode.iof_generic;
  xr = record { imm = 0; r = dst };
  rr = record { x = obj; y = ti };
})

unfoldable pub stack_param : ℕ → ℕ → Command
stack_param src offset =
    Command.stack_param (record { opc = Opcode.stk_param; src = src; dst = offset })

unfoldable pub stack_param_f : ℕ → ℕ → Command
stack_param_f src dst =
    Command.stack_param_f (record { opc = Opcode.stk_param_f; src = src; dst = dst })

unfoldable pub lea_stack_param : ℕ → ℕ → Command
lea_stack_param dst offset =
    Command.lea_stack_param (record { opc = Opcode.lea_stack_param; dst = dst; offset = offset })
