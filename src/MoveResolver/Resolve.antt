-- ===== src/MoveResolver/Resolve.antt =====
-- `MoveResolver::Resolve` is the parallel assignment that it was asked for.
use cbc_engine.Prelude.{ℕ, ◌+◌, ◌<◌, ◌==◌, if◌then◌else◌, arith}
use cbc_engine.Prelude.{Bool, true, false, ◌&&◌, ◌≡◌, ◌≢◌, refl, Bool-cases}
use cbc_engine.Prelude.{
  List, [], ◌∷◌, ◌++◌, ◌∙◌, sym, ap, inl, inr, Option, none, some, Option-cases,
}
use mathlib.Core.Path.{fun_ext}
use cbc_engine.Prelude.Int.{ℤ, pos}
use cbc_engine.Location.{LoadAccessKind, Instr, reg_count, kind_at, Location}
use cbc_engine.MoveResolver.{Assignment, Nodes, Temps}
use cbc_engine.MoveResolver.{Shuffle, Resolved, resolve, iterate, start, enough, place, late}
use cbc_engine.MoveResolver.{move, place_kinds, add_move}
use cbc_engine.MoveResolver.Machine.{Machine, read_at, run, run-append}
use cbc_engine.MoveResolver.Cycles.{Fits, IsTemps}
use cbc_engine.MoveResolver.Break.{iterate_total, start-IsRunning, measure-lt-enough}
use cbc_engine.MoveResolver.Place.{AllSupported, Distinct, targets, intended, late_value}
use cbc_engine.MoveResolver.Place.{place_accepted, place-Fits, place_values, place-run-values}
use cbc_engine.MoveResolver.Place.{late-run, late-early_value, place-untargeted, supported}
use cbc_engine.MoveResolver.Place.{place_refuses, place-run, intended-untargeted}

-- Without an assignment a register's node moves it to itself.
pub move-Fits : (d : ℕ) → d < reg_count → Fits d (move d)
move-Fits d lt = ground arith

resolve_returns :
    (t : Temps) (moves : List Assignment) (s : Shuffle)
    → (place moves move).accepted ≡ true
    → iterate enough t (start (place moves move).nodes) ≡ some s
    → resolve t moves
      ≡ some (record {
        success = true;
        emitted = (place moves move).emitted ++ (s.emitted ++ late moves);
      })
unfolding resolve
resolve_returns t moves s accepted ends = rw (accepted, ends)

module _ {V : Type 0} (slot : ℕ → V) (memory : LoadAccessKind → V → ℤ → V) where
  -- What `resolve` leaves: every register but the temporary ones, and every parameter slot, holds
  -- what the assignments intend for it from the values at the start.
  pub record IsDelivered (t : Temps) (moves : List Assignment) (m : Machine V)
      (result : Option Resolved) : Type 0 where
    pub emitted : List Instr
    pub returns : result ≡ some (record { success = true; emitted = emitted })
    pub registers :
        (d : ℕ)
        → d < reg_count
        → d ≢ t.ireg_temp
        → d ≢ t.freg_temp
        → (run slot memory emitted m).reg d ≡ intended slot memory m.reg moves d (m.reg d)
    pub params :
        (p : ℕ)
        → (run slot memory emitted m).param p
          ≡ intended slot memory m.reg moves (reg_count + p) (m.param p)

  -- Where the temporary registers are one of each kind, every assignment is supported, no two have one destination and none has a temporary
  -- register for it, `Resolve` returns true within its fuel, and what it emitted carries out all
  -- assignments at once: no source is overwritten before it is read.
  pub resolve-delivers :
      (t : Temps) (moves : List Assignment) (m : Machine V)
      → IsTemps t
      → AllSupported moves
      → Distinct moves
      → targets moves t.ireg_temp ≡ false
      → targets moves t.freg_temp ≡ false
      → IsDelivered t moves m (resolve t moves)
  resolve-delivers t moves m temps supported unique ti tf =
      let (s, ends, sound, all) =
        iterate_total slot memory enough (start nodes) temps
          (start-IsRunning slot memory t nodes m'
            (λ d lt. place-Fits moves move d supported lt (move-Fits d lt))
            (place-untargeted moves move t.ireg_temp supported (omega arith) ti)
            (place-untargeted moves move t.freg_temp supported (omega arith) tf))
          (measure-lt-enough t (start nodes)) in
      let (regs, params) = place-run-values slot memory moves move m supported unique in
      let (last_regs, last_params) =
        late-run slot memory moves (run slot memory s.emitted m') m.reg unique in
      record {
        emitted = (place moves move).emitted ++ (s.emitted ++ late moves);
        returns = resolve_returns t moves s (place_accepted moves move supported) ends;
        registers = λ d lt ni nf.
            rw
              (
                run-append slot memory (place moves move).emitted (s.emitted ++ late moves) m,
                run-append slot memory s.emitted (late moves) m',
              )
              (last_regs d lt
                ∙ ap (late_value slot memory m.reg moves d) (
                    sound.settled d lt (all d lt) ni nf
                    ∙ rw (fun_ext regs)
                        (place_values slot memory moves move m.reg d supported unique lt))
                ∙ late-early_value slot memory m.reg moves d (m.reg d) unique);
        params = λ p.
            rw
              (
                run-append slot memory (place moves move).emitted (s.emitted ++ late moves) m,
                run-append slot memory s.emitted (late moves) m',
              )
              (last_params p ∙ (sound.params p ∙ params p));
      }
    where
      nodes : Nodes
      nodes = (place moves move).nodes

      m' : Machine V
      m' = run slot memory (place moves move).emitted m

abbrev pub all_supported : List Assignment → Bool
all_supported [] = true
all_supported (a ∷ moves) = supported a && all_supported moves

some-ne-none : {A : Type 0} {a : A} → some a ≡ none → ⊥
some-ne-none h = cc

-- What the first loop emits before it gives up changes no register.
place_refused :
    (moves : List Assignment) (nodes : Nodes)
    → all_supported moves ≡ false
    → (place moves nodes).accepted ≡ false
unfolding place
place_refused [] nodes h = cc
place_refused (a ∷ moves) nodes h =
    elim (Option-cases (place_kinds (kind_at a.dst) (kind_at a.src) a nodes)) [
      | inl e ↦ rw (e, place)
      | inr ((nodes', now), e) ↦ elim (Bool-cases (supported a)) [
        | inl good ↦ rw (e, place) (place_refused moves nodes' (rw good at h))
        | inr bad ↦ absurd (some-ne-none (sym e ∙ place_refuses a nodes bad))
      ]
    ]

place_registers :
    {V : Type 0} (slot : ℕ → V) (memory : LoadAccessKind → V → ℤ → V) (moves : List Assignment)
    (nodes : Nodes) (m : Machine V) (d : ℕ)
    → (run slot memory (place moves nodes).emitted m).reg d ≡ m.reg d
unfolding place run
place_registers slot memory [] nodes m d = refl
place_registers slot memory (a ∷ moves) nodes m d =
    elim (Option-cases (place_kinds (kind_at a.dst) (kind_at a.src) a nodes)) [
      | inl e ↦ rw (e, place)
      | inr ((nodes', now), e) ↦
          rw (e, place, run-append slot memory now (place moves nodes').emitted m)
            (place_registers slot memory moves nodes' (run slot memory now m) d
              ∙ (place-run slot memory a nodes nodes' now m e).0 d)
    ]

-- `Resolve` returns false where an assignment is not supported: an address in a float register, or
-- a move between registers of the two kinds. What it emitted until then changes no register.
pub resolve-refuses :
    {V : Type 0} (slot : ℕ → V) (memory : LoadAccessKind → V → ℤ → V) (t : Temps)
    (moves : List Assignment)
    → all_supported moves ≡ false
    → (emitted : List Instr) × (resolve t moves
        ≡ some (record { success = false; emitted = emitted }))
      × ((m : Machine V) (d : ℕ) → (run slot memory emitted m).reg d ≡ m.reg d)
unfolding resolve
resolve-refuses slot memory t moves h = (
  (place moves move).emitted,
  rw (place_refused moves move h),
  place_registers slot memory moves move,
)

intended-append :
    {V : Type 0} (slot : ℕ → V) (memory : LoadAccessKind → V → ℤ → V) (reg : ℕ → V)
    (moves more : List Assignment) (x : ℕ) (v : V)
    → intended slot memory reg (moves ++ more) x v
      ≡ intended slot memory reg moves x (intended slot memory reg more x v)
intended-append slot memory reg [] more x v = refl
intended-append slot memory reg (a ∷ moves) more x v =
    ground (arith, intended-append slot memory reg moves more x v)

-- `AddMove` adds to the parallel assignment that `dst`, a register or a slot of a parameter that is
-- no target yet, gets the value at `src`, where a register has its own value before: also where it
-- drops a move of a register to itself. A move of a slot to the slot of the same number is kept.
pub add_move-intended :
    {V : Type 0} (slot : ℕ → V) (memory : LoadAccessKind → V → ℤ → V) (reg : ℕ → V) (dst src : ℕ)
    (moves moves' : List Assignment) (x : ℕ) (v : V)
    → targets moves dst ≡ false
    → add_move (Location.at dst) (Location.at src) moves ≡ some moves'
    → (x < reg_count → v ≡ reg x)
    → intended slot memory reg moves' x v
      ≡ (if dst == x then read_at slot memory reg src else intended slot memory reg moves x v)
unfolding add_move
add_move-intended slot memory reg dst src moves moves' x v fresh h own = ground (
  arith,
  own,
  intended-append slot memory reg moves (plain ∷ []) x v,
  intended-untargeted slot memory reg moves dst (read_at slot memory reg src),
  intended-untargeted slot memory reg moves dst v,
)
  where
    plain : Assignment
    plain = record {
      dst = dst;
      src = src;
      offset = pos 0;
      ldk = LoadAccessKind.ld_64;
      from_addr = false;
    }
