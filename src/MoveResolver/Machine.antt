-- ===== src/MoveResolver/Machine.antt =====
-- What the calls on a `MoveEmitter` mean: the specification that `MoveResolver.Resolve` meets.
-- Registers of both kinds are one file, indexed by location. The untyped slots of the frame and
-- the memory that a load reads are not written by a move. Parameter slots are an area of their own.
use cbc_engine.Prelude.{ℕ, ◌+◌, ltb, if◌then◌else◌, List, [], ◌∷◌, ◌++◌, ◌≡◌, refl}
use cbc_engine.Prelude.Int.{ℤ}
use cbc_engine.Location.{Instr, LoadAccessKind, virt_count, reg_count, slot_idx, assign_ireg}
use cbc_engine.Location.{assign_freg, assign_param_slot, assign_freg_from_slot}
use cbc_engine.Location.{assign_ireg_from_slot, assign_slot_from_ireg, assign_slot_from_freg}
use cbc_engine.Location.{assign_ireg_from_addr, assign_freg_from_addr, assign_slot_from_addr}
use cbc_engine.MoveResolver.{AssignmentInfo, Assignment, update}
use cbc_engine.MoveResolver.{move, load}

-- A value is what a register or a slot holds.
pub record Machine (V : Type 0) : Type 0 where
  pub reg : ℕ → V
  pub param : ℕ → V

module _ {V : Type 0} (slot : ℕ → V) (memory : LoadAccessKind → V → ℤ → V) where
  -- The value at a source location.
  abbrev pub read_at : (ℕ → V) → ℕ → V
  read_at reg i = if ltb i reg_count then reg i else slot (slot_idx i)

  -- The value that an assignment is to deliver.
  abbrev pub value : (ℕ → V) → Assignment → V
  value reg a = if a.from_addr then memory a.ldk (read_at reg a.src) a.offset else read_at reg a.src

  -- The value that a node is to deliver.
  abbrev pub node_value : (ℕ → V) → AssignmentInfo → V
  node_value reg (move s) = reg s
  node_value reg (load s offset ldk) = memory ldk (reg s) offset

  unfoldable pub exec : Instr → Machine V → Machine V
  exec (assign_ireg d s) m = record m { reg = update m.reg d (m.reg s) }
  exec (assign_freg d s) m = record m {
    reg = update m.reg (virt_count + d) (m.reg (virt_count + s));
  }
  exec (assign_param_slot d s) m = record m { param = update m.param d (slot s) }
  exec (assign_freg_from_slot d s) m = record m { reg = update m.reg (virt_count + d) (slot s) }
  exec (assign_ireg_from_slot d s) m = record m { reg = update m.reg d (slot s) }
  exec (assign_slot_from_ireg d s) m = record m { param = update m.param d (m.reg s) }
  exec (assign_slot_from_freg d s) m = record m {
    param = update m.param d (m.reg (virt_count + s));
  }
  exec (assign_ireg_from_addr d addr offset ldk) m = record m {
    reg = update m.reg d (memory ldk (read_at m.reg addr) offset);
  }
  exec (assign_freg_from_addr d addr offset ldk) m = record m {
    reg = update m.reg (virt_count + d) (memory ldk (read_at m.reg addr) offset);
  }
  exec (assign_slot_from_addr d addr offset ldk) m = record m {
    param = update m.param d (memory ldk (read_at m.reg addr) offset);
  }

  unfoldable pub run : List Instr → Machine V → Machine V
  run [] m = m
  run (i ∷ is) m = run is (exec i m)

  pub run-append : (is js : List Instr) (m : Machine V) → run (is ++ js) m ≡ run js (run is m)
  unfolding run
  run-append [] js m = refl
  run-append (i ∷ is) js m = run-append is js (exec i m)
