-- ===== src/InterpretationLoop.antt =====
-- src/interpreter/interpretation_loop.cpp: what the handlers of the copies and of the instructions on
-- objects ask for, by the fields of the instruction that they decoded. An action is the method, the
-- thunk or the function that the handler calls, with its operands: registers by their numbers, and a
-- type information where it is found. What the action does to the machine is not modelled.
use cbc_engine.Prelude.{ℕ, ltb, ◌==◌, Bool, true, false, ◌&&◌, if◌then◌else◌, List, [], ◌∷◌}
use cbc_engine.Prelude.{Option, none, some}
use cbc_engine.Prelude.Int.{ℤ}
use cbc_engine.Word.{w32, sget}
use cbc_engine.Memory.{StoreAccessKind, st_64, st_f64}
use cbc_engine.Isa.{ireg_count}
use cbc_engine.Isa.Opcode
use cbc_engine.Isa.Command.{Command}

-- A type information: the pointer in the instruction, the one in a register, or the type of the
-- elements of the array type in a register.
pub data Info : Type 0 where
  pointer held element_of : ℕ → Info

pub data Action : Type 0 where
  copy_derived : ℕ → ℕ → ℕ → ℕ → Info → Action
  copy_local : ℕ → ℕ → Info → Action
  copy_to_local copy_from_local : ℕ → ℕ → ℕ → Info → Action
  copy_type_slot : ℤ → ℤ → Info → Action
  copy_to_type_slot : ℤ → ℕ → ℕ → Info → Action
  copy_from_type_slot : ℕ → ℕ → ℤ → Info → Action
  lea_index : ℕ → ℕ → ℕ → Info → Bool → Action
  lea_const_index : ℕ → ℕ → ℕ → Info → Action
  new_object new_object_acc new_object_pinned new_array spawn : Info → Action
  spawn_future : Action
  initialize_closure : Bool → Action
  null_check div_check throw catch : ℕ → Action
  index_check : ℕ → ℕ → Action
  is_instance_of : ℕ → ℕ → Info → Action
  load_type_info : ℕ → Action
  write_struct_field : ℕ → ℕ → Info → Action
  store_param : StoreAccessKind → ℕ → ℕ → Action
  lea_param : ℕ → ℕ → Action

-- IReg::From of every register that a handler names.
unfoldable pub all_iregs : List ℕ → Bool
all_iregs [] = true
all_iregs (r ∷ rs) = ltb r ireg_count && all_iregs rs

abbrev pub named : List ℕ → Action → Option Action
named rs action = if all_iregs rs then some action else none

-- COPY_DERIVED to CONST_INDEX_GENERIC.
unfoldable pub handle_copies : Command → Option Action
handle_copies (Command.copy_derived c) =
    if c.opc == Opcode.copy_derived
    then named (c.dst.x ∷ c.dst.y ∷ c.src.x ∷ c.src.y ∷ [])
        (copy_derived c.dst.x c.dst.y c.src.x c.src.y (pointer c.ti))
    else if c.opc == Opcode.copy_to_local
    then named (c.dst.y ∷ c.src.x ∷ c.src.y ∷ [])
        (copy_to_local c.dst.y c.src.x c.src.y (pointer c.ti))
    else if c.opc == Opcode.copy_from_local
    then named (c.dst.x ∷ c.dst.y ∷ c.src.y ∷ [])
        (copy_from_local c.dst.x c.dst.y c.src.y (pointer c.ti))
    else none
handle_copies (Command.copy_derived_generic c) =
    named (c.ti.x ∷ c.dst.x ∷ c.dst.y ∷ c.src.x ∷ c.src.y ∷ [])
      (copy_derived c.dst.x c.dst.y c.src.x c.src.y (held c.ti.x))
handle_copies (Command.copy_local c) =
    named (c.records.x ∷ c.records.y ∷ []) (copy_local c.records.x c.records.y (pointer c.ti))
handle_copies (Command.copy_local_generic c) =
    if c.opc == Opcode.copy_local_generic
    then named (c.second.x ∷ c.first.x ∷ c.first.y ∷ [])
        (copy_local c.first.x c.first.y (held c.second.x))
    else if c.opc == Opcode.copy_to_local_generic
    then named (c.second.y ∷ c.first.x ∷ c.first.y ∷ c.second.x ∷ [])
        (copy_to_local c.first.x c.first.y c.second.x (held c.second.y))
    else if c.opc == Opcode.copy_from_local_generic
    then named (c.second.y ∷ c.first.x ∷ c.first.y ∷ c.second.x ∷ [])
        (copy_from_local c.first.x c.first.y c.second.x (held c.second.y))
    else none
handle_copies (Command.copy_type_slot c) =
    some (copy_type_slot (sget w32 c.dst_offset) (sget w32 c.src_offset) (pointer c.ti))
handle_copies (Command.copy_to_type_slot c) =
    named (c.src.x ∷ c.src.y ∷ [])
      (copy_to_type_slot (sget w32 c.dst_offset) c.src.x c.src.y (pointer c.ti))
handle_copies (Command.copy_from_type_slot c) =
    named (c.dst.x ∷ c.dst.y ∷ [])
      (copy_from_type_slot c.dst.x c.dst.y (sget w32 c.src_offset) (pointer c.ti))
handle_copies (Command.copy_type_slot_generic c) =
    named (c.ti.x ∷ [])
      (copy_type_slot (sget w32 c.dst_offset) (sget w32 c.src_offset) (held c.ti.x))
handle_copies (Command.copy_to_type_slot_generic c) =
    named (c.ti.x ∷ c.src.x ∷ c.src.y ∷ [])
      (copy_to_type_slot (sget w32 c.dst_offset) c.src.x c.src.y (held c.ti.x))
handle_copies (Command.copy_from_type_slot_generic c) =
    named (c.ti.x ∷ c.dst.x ∷ c.dst.y ∷ [])
      (copy_from_type_slot c.dst.x c.dst.y (sget w32 c.src_offset) (held c.ti.x))
handle_copies (Command.index c) =
    named (c.rr.x ∷ c.rr.y ∷ c.idx.r ∷ [])
      (lea_index c.rr.x c.rr.y c.idx.r (pointer c.ti) (ltb 0 c.idx.imm))
handle_copies (Command.index_generic c) =
    named (c.idx.y ∷ c.rr.x ∷ c.rr.y ∷ c.idx.x ∷ [])
      (lea_index c.rr.x c.rr.y c.idx.x (element_of c.idx.y) true)
handle_copies (Command.const_index_generic c) =
    named (c.ti.x ∷ c.rr.x ∷ c.rr.y ∷ []) (lea_const_index c.rr.x c.rr.y c.idx (element_of c.ti.x))
handle_copies _ = none

-- NEWOBJ_ACC_G to NEWOBJ_PINNED.
unfoldable pub handle_objects : Command → Option Action
handle_objects (Command.b2rr c) =
    if c.opc == Opcode.newobj_acc_g
    then named (c.rr.x ∷ []) (new_object_acc (held c.rr.x))
    else if c.opc == Opcode.newobj_g
    then named (c.rr.x ∷ []) (new_object (held c.rr.x))
    else if c.opc == Opcode.newobj_pinned_g
    then named (c.rr.x ∷ []) (new_object_pinned (held c.rr.x))
    else none
handle_objects (Command.b9i64 c) =
    if c.opc == Opcode.newobj
    then some (new_object (pointer c.imm64))
    else if c.opc == Opcode.newobj_pinned
    then some (new_object_pinned (pointer c.imm64))
    else none
handle_objects _ = none

-- NEWBOX2.
unfoldable pub handle_box : Command → Option Action
handle_box (Command.b9i64 c) =
    if c.opc == Opcode.newbox2 then some (new_object_acc (pointer c.imm64)) else none
handle_box _ = none

-- INITCLOSURE to NEWARR_G.
unfoldable pub handle_closures : Command → Option Action
handle_closures (Command.b1 c) =
    if c.opc == Opcode.initclosure
    then some (initialize_closure false)
    else if c.opc == Opcode.initclosure_sret
    then some (initialize_closure true)
    else if c.opc == Opcode.spawn_future
    then some spawn_future
    else none
handle_closures (Command.b9i64 c) =
    if c.opc == Opcode.spawn
    then some (spawn (pointer c.imm64))
    else if c.opc == Opcode.newarr
    then some (new_array (pointer c.imm64))
    else none
handle_closures (Command.b2rr c) =
    if c.opc == Opcode.newarr_g then named (c.rr.x ∷ []) (new_array (held c.rr.x)) else none
handle_closures _ = none

-- ASSIGN_GENERIC and IOF_GENERIC.
unfoldable pub handle_generics : Command → Option Action
handle_generics (Command.b3xrrr c) =
    if c.opc == Opcode.assign_generic
    then named (c.xr.r ∷ c.rr.x ∷ c.rr.y ∷ []) (write_struct_field c.xr.r c.rr.x (held c.rr.y))
    else if c.opc == Opcode.iof_generic
    then named (c.xr.r ∷ c.rr.x ∷ c.rr.y ∷ []) (is_instance_of c.xr.r c.rr.x (held c.rr.y))
    else none
handle_generics _ = none

-- NULLCHECK to THROW.
unfoldable pub handle_checks : Command → Option Action
handle_checks (Command.b2xr c) =
    if c.opc == Opcode.nullcheck
    then named (c.xr.r ∷ []) (null_check c.xr.r)
    else if c.opc == Opcode.divcheck
    then named (c.xr.r ∷ []) (div_check c.xr.r)
    else if c.opc == Opcode.catch
    then named (c.xr.r ∷ []) (catch c.xr.r)
    else if c.opc == Opcode.throw
    then named (c.xr.r ∷ []) (throw c.xr.r)
    else none
handle_checks (Command.b2rr c) =
    if c.opc == Opcode.array_index_check
    then named (c.rr.x ∷ c.rr.y ∷ []) (index_check c.rr.x c.rr.y)
    else none
handle_checks (Command.b9i64 c) =
    if c.opc == Opcode.load_generic_ti then some (load_type_info c.imm64) else none
handle_checks (Command.iof c) =
    named (c.rr.x ∷ c.rr.y ∷ []) (is_instance_of c.rr.x c.rr.y (pointer c.imm64))
handle_checks _ = none

-- STK_PARAM and STK_PARAM_F, and LEA_STACK_PARAM.
unfoldable pub handle_params : Command → Option Action
handle_params (Command.stack_param c) = some (store_param st_64 c.src c.dst)
handle_params (Command.stack_param_f c) = some (store_param st_f64 c.src c.dst)
handle_params (Command.lea_stack_param c) = some (lea_param c.dst c.offset)
handle_params _ = none

abbrev pub or_else : Option Action → Option Action → Option Action
or_else none other = other
or_else (some action) other = some action

-- The handlers have disjoint opcodes.
unfoldable pub handle : Command → Option Action
handle c = or_else (handle_copies c) (
    or_else (handle_objects c) (
      or_else (handle_box c) (
        or_else (handle_closures c)
          (or_else (handle_generics c) (or_else (handle_checks c) (handle_params c))))))
