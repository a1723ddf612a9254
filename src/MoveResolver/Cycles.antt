-- ===== src/MoveResolver/Cycles.antt =====
-- The state of `cycleResolver` between two steps: what is done is delivered, and what is pending
-- would still deliver the right value.
use cbc_engine.Prelude.{ℕ, ◌≤◌, ◌<◌, ◌==◌, arith}
use cbc_engine.Prelude.{Bool, true, false, not, ◌&&◌, ◌≡◌, ◌≢◌, Bool-cases, ◌⊎◌, inl, inr}
use cbc_engine.Prelude.{List, ◌++◌, ◌∙◌}
use cbc_engine.Prelude.Int.{ℤ}
use cbc_engine.Location.{LoadAccessKind, Instr, reg_count, virt_count}
use cbc_engine.MoveResolver.{AssignmentInfo, Nodes, Temps, Shuffle}
use cbc_engine.MoveResolver.{move, load, src_of, update}
use cbc_engine.MoveResolver.{assign, needed, settle, temp_for}
use cbc_engine.MoveResolver.Count.{any_below-false}
use cbc_engine.MoveResolver.Machine.{Machine, node_value, run, exec, run-append}

-- Moves stay within a kind of registers, and the address of a load is in an integer register.
abbrev pub Fits : ℕ → AssignmentInfo → Type 0
Fits d (move s) =
    ((d < virt_count) × (s < virt_count)) ⊎ ((virt_count ≤ d) × (virt_count ≤ s) × (s < reg_count))
Fits d (load s offset ldk) = s < virt_count

pub Fits-src : (d : ℕ) (i : AssignmentInfo) → Fits d i → src_of i < reg_count
Fits-src d (move s) h = omega arith
Fits-src d (load s offset ldk) h = omega arith

-- The same node with another destination of the same kind.
pub Fits-temp :
    (t : Temps) (d : ℕ) (i : AssignmentInfo)
    → t.ireg_temp < virt_count
    → virt_count ≤ t.freg_temp
    → Fits d i
    → Fits (temp_for t d) i
Fits-temp t d (move s) ti tf h = ground arith
Fits-temp t d (load s offset ldk) ti tf h = h

abbrev pub IsTemps : Temps → Type 0
IsTemps t = (t.ireg_temp < virt_count) × (virt_count ≤ t.freg_temp) × (t.freg_temp < reg_count)

module _ {V : Type 0} (slot : ℕ → V) (memory : LoadAccessKind → V → ℤ → V) where
  -- What one emitted assignment does to the registers and to the parameter slots.
  pub assign-reg :
      (d : ℕ) (i : AssignmentInfo) (m : Machine V) (j : ℕ)
      → d < reg_count
      → Fits d i
      → (run slot memory (assign d i) m).reg j ≡ update m.reg d (node_value slot memory m.reg i) j
  unfolding assign run exec
  assign-reg d (move s) m j lt h = ground arith
  assign-reg d (load s offset ldk) m j lt h = ground arith

  pub assign-param :
      (d : ℕ) (i : AssignmentInfo) (m : Machine V) (j : ℕ)
      → d < reg_count
      → (run slot memory (assign d i) m).param j ≡ m.param j
  unfolding assign run exec
  assign-param d (move s) m j lt = ground arith
  assign-param d (load s offset ldk) m j lt = ground arith

  pub record IsRunning (t : Temps) (nodes : Nodes) (m : Machine V) (s : Shuffle) : Type 0 where
    pub fits : (d : ℕ) → d < reg_count → s.done d ≡ false → Fits d (s.nodes d)
    pub pending :
        (d : ℕ)
        → d < reg_count
        → s.done d ≡ false
        → node_value slot memory (run slot memory s.emitted m).reg (s.nodes d)
          ≡ node_value slot memory m.reg (nodes d)
    pub settled :
        (d : ℕ)
        → d < reg_count
        → s.done d ≡ true
        → d ≢ t.ireg_temp
        → d ≢ t.freg_temp
        → (run slot memory s.emitted m).reg d ≡ node_value slot memory m.reg (nodes d)
    pub params : (p : ℕ) → (run slot memory s.emitted m).param p ≡ m.param p
    pub ireg_temp_done : s.done t.ireg_temp ≡ true
    pub freg_temp_done : s.done t.freg_temp ≡ true

  -- The machine after one assignment more.
  pub emit-reg :
      (is : List Instr) (d : ℕ) (i : AssignmentInfo) (m : Machine V) (j : ℕ)
      → d < reg_count
      → Fits d i
      → (run slot memory (is ++ assign d i) m).reg j
        ≡ update
            (run slot memory is m).reg
            d
            (node_value slot memory (run slot memory is m).reg i)
            j
  emit-reg is d i m j lt h =
      rw (run-append slot memory is (assign d i) m) (assign-reg d i (run slot memory is m) j lt h)

  pub emit-param :
      (is : List Instr) (d : ℕ) (i : AssignmentInfo) (m : Machine V) (j : ℕ)
      → d < reg_count
      → (run slot memory (is ++ assign d i) m).param j ≡ (run slot memory is m).param j
  emit-param is d i m j lt =
      rw (run-append slot memory is (assign d i) m) (assign-param d i (run slot memory is m) j lt)

  -- A node that nobody needs is read by no other pending node.
  not_read :
      (s : Shuffle) (d other : ℕ)
      → needed s d ≡ false
      → other < reg_count
      → s.done other ≡ false
      → (other == d) ≡ false
      → (src_of (s.nodes other) == d) ≡ false
  unfolding needed
  not_read s d other free lt pending ne =
      ground (arith, any_below-false reg_count (reads d) free other lt)
    where
      reads : ℕ → ℕ → Bool
      reads dst o = not (s.done o) && not (o == dst) && src_of (s.nodes o) == dst

  -- A value does not change with a register that it does not read.
  pub node_value-update :
      (i : AssignmentInfo) (f g : ℕ → V) (d : ℕ) (v : V)
      → ((j : ℕ) → g j ≡ update f d v j)
      → (src_of i == d) ≡ false
      → node_value slot memory g i ≡ node_value slot memory f i
  node_value-update (move s) f g d v h ne = ground (arith, h s)
  node_value-update (load s offset ldk) f g d v h ne = ground (arith, h s)

  -- A pending node that nobody needs is carried out.
  carry_out-IsRunning :
      {t : Temps} {nodes : Nodes} {m : Machine V} (d : ℕ) (s : Shuffle)
      → d < reg_count
      → s.done d ≡ false
      → needed s d ≡ false
      → IsRunning t nodes m s
      → IsRunning t nodes m (record s {
        done = update s.done d true;
        changed = true;
        emitted = s.emitted ++ assign d (s.nodes d);
      })
  carry_out-IsRunning {t} {nodes} {m} d s lt here free h = record {
    fits = λ e l p. h.fits e l (ground arith);
    pending = λ e l p.
        let open_node : s.done e ≡ false = ground arith in
        let other : (e == d) ≡ false = ground arith in
        node_value-update (s.nodes e) _ _ d _
          (λ j. emit-reg s.emitted d (s.nodes d) m j lt (h.fits d lt here))
          (not_read s d e free l open_node other)
        ∙ h.pending e l open_node;
    settled = λ e l p ni nf. ground (
      arith,
      emit-reg s.emitted d (s.nodes d) m e lt (h.fits d lt here),
      h.settled e,
      h.pending d,
    );
    params = λ p. emit-param s.emitted d (s.nodes d) m p lt ∙ h.params p;
    ireg_temp_done = ground (arith, h.ireg_temp_done);
    freg_temp_done = ground (arith, h.freg_temp_done);
  }

  pub settle-IsRunning :
      {t : Temps} {nodes : Nodes} {m : Machine V} (d : ℕ) (s : Shuffle)
      → d < reg_count
      → IsRunning t nodes m s
      → IsRunning t nodes m (settle d s)
  unfolding settle
  settle-IsRunning {t} {nodes} {m} d s lt h = elim (Bool-cases (s.done d)) [
    | inl done ↦ rw done h
    | inr open_node ↦ elim (Bool-cases (needed s d)) [
      | inl wanted ↦ rw (open_node, wanted) h
      | inr free ↦ rw (open_node, free) (carry_out-IsRunning d s lt open_node free h)
    ]
  ]
