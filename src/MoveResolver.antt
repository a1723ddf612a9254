-- ===== src/MoveResolver.antt =====
-- src/cbc/move_resolver.h and src/cbc/move_resolver.cpp: the parallel moves of a call are put in
-- an order in which no source is overwritten before it is read.
-- The arrays `nodes` and `state` are functions on the indices below `reg_count`; the calls on the
-- `MoveEmitter` are collected in a list, in their order. ASSERTs that guard a call's arguments
-- give `none`; the others (of `Resolve`) are facts that `MoveResolver.Asserts` proves.
pub mod Machine
pub mod Count
pub mod Cycles
pub mod Break
pub mod Asserts
pub mod Place
pub mod Resolve
pub mod Runs
use cbc_engine.Prelude.{ℕ, zero, suc, ◌+◌, ◌-◌, ◌*◌, ltb, ◌==◌, if◌then◌else◌}
use cbc_engine.Prelude.{Bool, true, false, not, ◌&&◌, Option, none, some, List, [], ◌∷◌, ◌++◌}
use cbc_engine.Prelude.Int.{ℤ, pos}
use cbc_engine.Location.{Instr, Kind, LoadAccessKind, Location, assign_freg, assign_freg_from_addr}
use cbc_engine.Location.{assign_freg_from_slot, assign_ireg, assign_ireg_from_addr}
use cbc_engine.Location.{assign_ireg_from_slot, assign_param_slot, assign_slot_from_addr}
use cbc_engine.Location.{assign_slot_from_freg, assign_slot_from_ireg, freg_idx, ireg_idx, kind}
use cbc_engine.Location.{kind_at, reg_count, slot_idx, virt_count}

-- `MoveResolver::Assignment`; neither location is NIL.
pub record Assignment : Type 0 where
  pub dst : ℕ
  pub src : ℕ
  pub offset : ℤ
  pub ldk : LoadAccessKind
  pub from_addr : Bool

-- The temporary registers as locations: `Location::IReg(iRegTemp)` and `Location::FReg(fRegTemp)`.
pub record Temps : Type 0 where
  pub ireg_temp : ℕ
  pub freg_temp : ℕ

pub is_slot : Kind → Bool
is_slot Kind.slot = true
is_slot _ = false

pub add_move : Location → Location → List Assignment → Option (List Assignment)
unfolding is_slot
add_move (Location.at d) (Location.at s) moves =
    if not (is_slot (kind_at d)) && s == d
    then some moves
    else some (
        moves
        ++ (record {
          dst = d;
          src = s;
          offset = pos 0;
          ldk = LoadAccessKind.ld_64;
          from_addr = false;
        }
            ∷ []))
add_move (Location.at d) Location.nil moves = none
add_move Location.nil _ moves = none

pub add_load_from_addr :
    Location → Location → ℤ → LoadAccessKind → List Assignment → Option (List Assignment)
add_load_from_addr (Location.at d) (Location.at s) offset ldk moves = elim (kind_at s) [
  | Kind.freg ↦ none
  | Kind.nil ↦ none
  | _ ↦
      some
        (moves ++ (record { dst = d; src = s; offset = offset; ldk = ldk; from_addr = true } ∷ []))
]
add_load_from_addr (Location.at d) Location.nil offset ldk moves = none
add_load_from_addr Location.nil _ offset ldk moves = none

-- `EmitLoadFromAddr`, on the destination's kind.
pub emit_load : Kind → ℕ → ℕ → ℤ → LoadAccessKind → List Instr
emit_load Kind.ireg dst addr offset ldk = assign_ireg_from_addr (ireg_idx dst) addr offset ldk ∷ []
emit_load Kind.freg dst addr offset ldk = assign_freg_from_addr (freg_idx dst) addr offset ldk ∷ []
emit_load Kind.slot dst addr offset ldk = assign_slot_from_addr (slot_idx dst) addr offset ldk ∷ []
emit_load Kind.nil dst addr offset ldk = []

-- A graph node: `dst <- src`, or `dst <- *(src + offset)`.
pub data AssignmentInfo : Type 0 where
  move : ℕ → AssignmentInfo
  load : ℕ → ℤ → LoadAccessKind → AssignmentInfo

abbrev pub src_of : AssignmentInfo → ℕ
src_of (move s) = s
src_of (load s offset ldk) = s

abbrev pub is_load : AssignmentInfo → Bool
is_load (move s) = false
is_load (load s offset ldk) = true

abbrev pub update {ℓ} : {A : Type ℓ} → (ℕ → A) → ℕ → A → ℕ → A
update f i v j = if j == i then v else f j

abbrev pub Nodes : Type 0
Nodes = ℕ → AssignmentInfo

-- One round of the first loop of `Resolve`: the `switch` on both kinds and `fromAddr`.
-- `none` is `return false`.
pub place_kinds : Kind → Kind → Assignment → Nodes → Option (Nodes × List Instr)
unfolding emit_load
place_kinds Kind.ireg Kind.ireg a nodes =
    some (update nodes a.dst (if a.from_addr then load a.src a.offset a.ldk else move a.src), [])
place_kinds Kind.freg Kind.freg a nodes =
    if a.from_addr then none else some (update nodes a.dst (move a.src), [])
place_kinds Kind.freg Kind.ireg a nodes =
    if a.from_addr then some (update nodes a.dst (load a.src a.offset a.ldk), []) else none
place_kinds Kind.slot Kind.ireg a nodes = some (
  nodes,
  if a.from_addr
      then emit_load Kind.slot a.dst a.src a.offset a.ldk
      else assign_slot_from_ireg (slot_idx a.dst) (ireg_idx a.src) ∷ [],
)
place_kinds Kind.slot Kind.freg a nodes =
    if a.from_addr
    then none
    else some (nodes, assign_slot_from_freg (slot_idx a.dst) (freg_idx a.src) ∷ [])
place_kinds Kind.slot Kind.slot a nodes = some (
  nodes,
  if a.from_addr
      then emit_load Kind.slot a.dst a.src a.offset a.ldk
      else assign_param_slot (slot_idx a.dst) (slot_idx a.src) ∷ [],
)
place_kinds Kind.ireg Kind.slot a nodes = some (nodes, [])
place_kinds Kind.freg Kind.slot a nodes = some (nodes, [])
place_kinds _ _ a nodes = none

-- The first loop: whether it ran to its end, the nodes, and what was emitted on the way.
pub record Placed : Type 0 where
  pub accepted : Bool
  pub nodes : Nodes
  pub emitted : List Instr

pub place : List Assignment → Nodes → Placed
unfolding place_kinds
place [] nodes = record { accepted = true; nodes = nodes; emitted = [] }
place (a ∷ moves) nodes = elim (place_kinds (kind_at a.dst) (kind_at a.src) a nodes) [
  | none ↦ record { accepted = false; nodes = nodes; emitted = [] }
  | some (nodes', now) ↦
      let rest = place moves nodes' in record rest { emitted = now ++ rest.emitted }
]

-- `for (i = 0; i < k; ++i)`: all rounds, a search that breaks at the first hit, a test of all.
pub for_below {ℓ} : {S : Type ℓ} → ℕ → (ℕ → S → S) → S → S
for_below zero f s = s
for_below (suc k) f s = f k (for_below k f s)

pub first_below : ℕ → (ℕ → Bool) → Option ℕ
first_below zero p = none
first_below (suc k) p = elim (first_below k p) [
  | some i ↦ some i
  | none ↦ if p k then some k else none
]

pub any_below : ℕ → (ℕ → Bool) → Bool
any_below zero p = false
any_below (suc k) p = if any_below k p then true else p k

-- The variables of `cycleResolver`.
pub record Shuffle : Type 0 where
  pub nodes : Nodes
  pub done : ℕ → Bool
  pub changed : Bool
  pub emitted : List Instr

-- The lambda `assign`.
pub assign : ℕ → AssignmentInfo → List Instr
unfolding emit_load
assign dst (load s offset ldk) = emit_load (kind_at dst) dst s offset ldk
assign dst (move s) = elim (kind_at dst) [
  | Kind.ireg ↦ assign_ireg (ireg_idx dst) (ireg_idx s) ∷ []
  | Kind.freg ↦ assign_freg (freg_idx dst) (freg_idx s) ∷ []
  | _ ↦ []
]

-- Is some other node still to read `dst`?
pub needed : Shuffle → ℕ → Bool
needed s dst =
    any_below reg_count
      (λ other. not (s.done other) && not (other == dst) && src_of (s.nodes other) == dst)

-- The body of the loop over `dst` that resolves chains.
pub settle : ℕ → Shuffle → Shuffle
unfolding needed assign
settle dst s = if s.done dst then s else if needed s dst then s else record s {
  done = update s.done dst true;
  changed = true;
  emitted = s.emitted ++ assign dst (s.nodes dst);
}

abbrev pub temp_for : Temps → ℕ → ℕ
temp_for t dst = if ltb dst virt_count then t.ireg_temp else t.freg_temp

-- A node of a cycle is read into the temporary register of its kind.
pub break_at : Temps → ℕ → Shuffle → Shuffle
unfolding assign
break_at t dst s = record s {
  nodes = update s.nodes dst (move (temp_for t dst));
  changed = true;
  emitted = s.emitted ++ assign (temp_for t dst) (s.nodes dst);
}

-- The last loop of a round: the first node that is not done is part of a cycle.
pub break_first : Temps → Shuffle → Shuffle
unfolding break_at
break_first t s = elim (first_below reg_count (λ d. not (s.done d))) [
  | none ↦ s
  | some d ↦ break_at t d s
]

-- The body of `while (changed)`.
pub round : Temps → Shuffle → Shuffle
unfolding settle break_first
round t s =
    let s' = for_below reg_count settle (record s { changed = false }) in
    if s'.changed then s' else break_first t s'

-- The fixed-point iteration; `none` means that the fuel ran out.
pub iterate : ℕ → Temps → Shuffle → Option Shuffle
unfolding round
iterate zero t s = none
iterate (suc fuel) t s =
    let s' = round t s in elim s'.changed [ true ↦ iterate fuel t s' | false ↦ some s' ]

-- Nodes that move a register to itself are done at the start.
pub start : Nodes → Shuffle
start nodes = record {
  nodes = nodes;
  done = λ d. src_of (nodes d) == d && not (is_load (nodes d));
  changed = true;
  emitted = [];
}

-- Each round settles a node or breaks a cycle for good.
abbrev pub enough : ℕ
enough = 2 * reg_count + 1

-- The last loop: what is read from a stack slot.
pub late_kinds : Kind → Kind → Assignment → List Instr
unfolding emit_load
late_kinds Kind.ireg Kind.slot a =
    if a.from_addr
    then emit_load Kind.ireg a.dst a.src a.offset a.ldk
    else assign_ireg_from_slot (ireg_idx a.dst) (slot_idx a.src) ∷ []
late_kinds Kind.freg Kind.slot a =
    if a.from_addr
    then emit_load Kind.freg a.dst a.src a.offset a.ldk
    else assign_freg_from_slot (freg_idx a.dst) (slot_idx a.src) ∷ []
late_kinds _ _ a = []

pub late : List Assignment → List Instr
unfolding late_kinds
late [] = []
late (a ∷ moves) = late_kinds (kind_at a.dst) (kind_at a.src) a ++ late moves

-- The result of `Resolve` and the calls it made on the emitter.
pub record Resolved : Type 0 where
  pub success : Bool
  pub emitted : List Instr

-- `none` means that the fuel of `cycleResolver` ran out.
pub resolve : Temps → List Assignment → Option Resolved
resolve t moves =
    let placed = place moves move in
    if placed.accepted
    then elim (iterate enough t (start placed.nodes)) [
      | none ↦ none
      | some s ↦
          some (record { success = true; emitted = placed.emitted ++ (s.emitted ++ late moves) })
    ]
    else some (record { success = false; emitted = placed.emitted })
