-- ===== src/MoveResolver/Asserts.antt =====
-- The ASSERTs of `cycleResolver`, in every round that `Resolve` runs.
use mathlib.Core.Path.{subst}
use cbc_engine.Prelude.{sym, ◌≤◌, ℕ, zero, suc, ◌<◌, ◌==◌, arith}
use cbc_engine.Prelude.{Bool, true, false, not, ◌&&◌, ◌≡◌, ◌≢◌, Bool-cases, inl, inr}
use cbc_engine.Prelude.{List, Option-cases, both_ways, if◌then◌else◌}
use cbc_engine.Prelude.Int.{ℤ}
use cbc_engine.Location.{LoadAccessKind, reg_count}
use cbc_engine.MoveResolver.{Assignment, Nodes, Temps, Shuffle}
use cbc_engine.MoveResolver.{
  move, src_of, is_load, settle, break_at, break_first, for_below, first_below, round, start, place,
  temp_for,
}
use cbc_engine.MoveResolver.Count.{for_below-keeps, first_below-some}
use cbc_engine.MoveResolver.Machine.{Machine}
use cbc_engine.MoveResolver.Cycles.{IsTemps, IsRunning, settle-IsRunning}
use cbc_engine.MoveResolver.Break.{Cyclic, needed-Cyclic, pass_quiet, round-Goes, start-IsRunning}
use cbc_engine.MoveResolver.Place.{AllSupported, targets, place-Fits, place-untargeted}
use cbc_engine.MoveResolver.Resolve.{move-Fits}

-- A number of rounds of `while (changed)`.
pub rounds : ℕ → Temps → Shuffle → Shuffle
rounds zero t s = s
rounds (suc n) t s = round t (rounds n t s)

-- The loop over `dst` before its round `k`.
abbrev pub pass : ℕ → Shuffle → Shuffle
pass k s = for_below k settle (record s { changed = false })

-- The ASSERTs of one round: at each pending `dst` of the first loop; before a cycle is broken, on
-- both temporary registers; and after the last round.
pub record HoldAsserts (t : Temps) (s : Shuffle) : Type 0 where
  pub no_self :
      (d : ℕ)
      → d < reg_count
      → (pass d s).done d ≡ false
      → (src_of ((pass d s).nodes d) == d && not (is_load ((pass d s).nodes d))) ≡ false
  pub temps_done :
      (pass reg_count s).changed ≡ false
      → ((pass reg_count s).done t.ireg_temp ≡ true) × ((pass reg_count s).done t.freg_temp ≡ true)
  pub no_temp :
      (pass reg_count s).changed ≡ false
      → (d : ℕ) → d < reg_count
      → (pass reg_count s).done d ≡ false
      → (src_of ((pass reg_count s).nodes d) ≢ t.ireg_temp)
        × (src_of ((pass reg_count s).nodes d) ≢ t.freg_temp)
  pub all_done : (round t s).changed ≡ false → (d : ℕ) → d < reg_count → (round t s).done d ≡ true

-- No pending node moves its own register to itself.
abbrev IsMoving : Shuffle → Type 0
IsMoving s =
    (d : ℕ)
    → d < reg_count
    → s.done d ≡ false
    → (src_of (s.nodes d) == d && not (is_load (s.nodes d))) ≡ false

settle-IsMoving : (d : ℕ) (s : Shuffle) → IsMoving s → IsMoving (settle d s)
unfolding settle
settle-IsMoving d s h e l p = ground (arith, h e l)

pass-IsMoving : (k : ℕ) (s : Shuffle) → IsMoving s → IsMoving (pass k s)
pass-IsMoving k s h =
    for_below-keeps IsMoving settle k (record s { changed = false }) (λ i u lt. settle-IsMoving i u)
      h

-- A temporary register is done, so that it is not the node of the cycle.
break_at-IsMoving :
    (t : Temps) (d : ℕ) (s : Shuffle)
    → s.done d ≡ false
    → s.done (temp_for t d) ≡ true
    → IsMoving s
    → IsMoving (break_at t d s)
unfolding break_at
break_at-IsMoving t d s here done h e l p = elim (Bool-cases (e == d)) [
  | inl same ↦ rw same (ground arith)
  | inr other ↦ rw other (h e l p)
]

break_first-IsMoving :
    (t : Temps) (s : Shuffle)
    → s.done t.ireg_temp ≡ true
    → s.done t.freg_temp ≡ true
    → IsMoving s
    → IsMoving (break_first t s)
unfolding break_first
break_first-IsMoving t s ti tf h =
    elim (Option-cases (first_below reg_count (λ d. not (s.done d)))) [
      | inl end ↦ rw (end, break_first) h
      | inr (d, e) ↦
          let (lt, open_node) = first_below-some reg_count (λ o. not (s.done o)) d e in
          rw (e, break_first) (break_at-IsMoving t d s (ground arith) (ground (arith, ti, tf)) h)
    ]

module _ {V : Type 0} (slot : ℕ → V) (memory : LoadAccessKind → V → ℤ → V) where
  -- The pass of a round keeps the state sound.
  pass-IsRunning :
      {t : Temps} {nodes : Nodes} {m : Machine V} (k : ℕ) (s : Shuffle)
      → k ≤ reg_count
      → IsRunning slot memory t nodes m s
      → IsRunning slot memory t nodes m (pass k s)
  pass-IsRunning {t} {nodes} {m} k s top h =
      for_below-keeps (IsRunning slot memory t nodes m) settle k (record s { changed = false })
        (λ i u lt. settle-IsRunning slot memory i u (omega arith))
        (record {
          fits = h.fits;
          pending = h.pending;
          settled = h.settled;
          params = h.params;
          ireg_temp_done = h.ireg_temp_done;
          freg_temp_done = h.freg_temp_done;
        })

  round-IsMoving :
      {t : Temps} {nodes : Nodes} {m : Machine V} (s : Shuffle)
      → IsRunning slot memory t nodes m s
      → IsMoving s
      → IsMoving (round t s)
  unfolding round
  round-IsMoving {t} {nodes} {m} s h moving = choose (pass reg_count s).changed
    where
      sound : IsRunning slot memory t nodes m (pass reg_count s)
      sound = pass-IsRunning reg_count s (omega arith) h

      passed : IsMoving (pass reg_count s)
      passed = pass-IsMoving reg_count s moving

      choose :
          (b : Bool) → IsMoving (if b then pass reg_count s else break_first t (pass reg_count s))
      choose true = passed
      choose false =
          break_first-IsMoving t (pass reg_count s) sound.ireg_temp_done sound.freg_temp_done passed

  holds :
      {t : Temps} {nodes : Nodes} {m : Machine V} (s : Shuffle)
      → IsTemps t
      → IsRunning slot memory t nodes m s
      → IsMoving s
      → HoldAsserts t s
  holds {t} {nodes} {m} s temps h moving = record {
    no_self = λ d l p. pass-IsMoving d s moving d l p;
    temps_done = λ quiet. (sound.ireg_temp_done, sound.freg_temp_done);
    no_temp = λ quiet d l p.
        let reads = cyclic quiet d l p in
        (
          (λ e. both_ways sound.ireg_temp_done (rw e at reads.0)),
          λ e. both_ways sound.freg_temp_done (rw e at reads.0),
        );
    all_done = λ end. (round-Goes slot memory s temps h).2 end;
  }
    where
      sound : IsRunning slot memory t nodes m (pass reg_count s)
      sound = pass-IsRunning reg_count s (omega arith) h

      cyclic : (pass reg_count s).changed ≡ false → Cyclic (pass reg_count s)
      cyclic quiet =
          let (same, all) = pass_quiet reg_count (record s { changed = false }) quiet in
          subst Cyclic (sym same) (needed-Cyclic (record s { changed = false }) all)

  rounds_sound :
      {t : Temps} {nodes : Nodes} {m : Machine V} (n : ℕ) (s : Shuffle)
      → IsTemps t
      → IsRunning slot memory t nodes m s × IsMoving s
      → IsRunning slot memory t nodes m (rounds n t s) × IsMoving (rounds n t s)
  unfolding rounds
  rounds_sound zero s temps h = h
  rounds_sound {t} (suc n) s temps h =
      let (sound, moving) = rounds_sound n s temps h in
      (
        (round-Goes slot memory (rounds n t s) temps sound).0,
        round-IsMoving (rounds n t s) sound moving,
      )

start-IsMoving : (nodes : Nodes) → IsMoving (start nodes)
unfolding start
start-IsMoving nodes d l p = p

-- Where every assignment is supported and none has a temporary register for its destination, the
-- ASSERTs of `cycleResolver` hold in every round: a pending node of the first loop does not move its
-- own register to itself; where the loop changed nothing, both temporary registers are done and no
-- pending node reads one; and a round that changes nothing has every register done.
pub rounds-HoldAsserts :
    (t : Temps) (moves : List Assignment) (n : ℕ)
    → IsTemps t
    → AllSupported moves
    → targets moves t.ireg_temp ≡ false
    → targets moves t.freg_temp ≡ false
    → HoldAsserts t (rounds n t (start (place moves move).nodes))
rounds-HoldAsserts t moves n temps supported ti tf =
    let begun =
      start-IsRunning values memory t (place moves move).nodes machine
        (λ d lt. place-Fits moves move d supported lt (move-Fits d lt))
        (place-untargeted moves move t.ireg_temp supported (omega arith) ti)
        (place-untargeted moves move t.freg_temp supported (omega arith) tf) in
    let (sound, moving) =
      rounds_sound values memory n (start (place moves move).nodes) temps
        (begun, start-IsMoving (place moves move).nodes) in
    holds values memory (rounds n t (start (place moves move).nodes)) temps sound moving
  where
    values : ℕ → ℕ
    values i = i

    memory : LoadAccessKind → ℕ → ℤ → ℕ
    memory k v offset = v

    machine : Machine ℕ
    machine = record { reg = values; param = values }
