-- ===== src/MoveResolver/Runs.antt =====
-- Concrete runs of the move resolver, and its theorems at concrete inputs.
use cbc_engine.Prelude.{ℕ, ◌+◌, arith, true, false, ◌≡◌, refl}
use cbc_engine.Prelude.{List, [], ◌∷◌, some}
use cbc_engine.Prelude.Int.{ℤ, pos}
use cbc_engine.Location.{LoadAccessKind, Instr, assign_ireg, assign_slot_from_ireg}
use cbc_engine.MoveResolver.{Assignment, Temps}
use cbc_engine.MoveResolver.{add_move, resolve, place, iterate, start, late, round, needed}
use cbc_engine.MoveResolver.{for_below, first_below, any_below, move}
use cbc_engine.MoveResolver.Machine.{Machine, run}
use cbc_engine.MoveResolver.Asserts.{HoldAsserts, rounds, rounds-HoldAsserts}
use cbc_engine.MoveResolver.Place.{intended}
use cbc_engine.MoveResolver.Resolve.{IsDelivered, resolve-delivers, resolve-refuses}
use cbc_engine.MoveResolver.Resolve.{add_move-intended}

abbrev plain : ℕ → ℕ → Assignment
plain d s = record {
  dst = d;
  src = s;
  offset = pos 0;
  ldk = LoadAccessKind.ld_64;
  from_addr = false;
}

-- IR7 and FR15.
abbrev temps : Temps
temps = record { ireg_temp = 7; freg_temp = 29 }

-- Two registers change places, a third is copied, and the first goes to a parameter slot.
abbrev exchange : List Assignment
exchange = plain 1 2 ∷ plain 2 1 ∷ plain 3 1 ∷ plain 30 1 ∷ []

abbrev slots : ℕ → ℕ
slots i = 100 + i

abbrev reads : LoadAccessKind → ℕ → ℤ → ℕ
reads k v o = 1000 + v

abbrev machine : Machine ℕ
machine = record { reg = λ i. i; param = λ p. 0 }

exchange_run :
    resolve temps exchange
    ≡ some (record {
      success = true;
      emitted =
          assign_slot_from_ireg 0 1
          ∷ assign_ireg 3 1
          ∷ assign_ireg 7 2
          ∷ assign_ireg 2 1
          ∷ assign_ireg 1 7
          ∷ [];
    })
unfolding resolve place iterate start late round for_below first_below needed any_below
exchange_run = refl

resolve-delivers_example : IsDelivered slots reads temps exchange machine (resolve temps exchange)
resolve-delivers_example =
    resolve-delivers slots reads temps exchange machine (omega arith)
      (refl, (refl, (refl, (refl, tt)))) (refl, (refl, (refl, (refl, tt)))) refl refl

-- FR0 <- IR1 is not supported.
resolve-refuses_example :
    (emitted : List Instr) × (resolve temps (plain 30 1 ∷ plain 14 1 ∷ [])
      ≡ some (record { success = false; emitted = emitted }))
    × ((m : Machine ℕ) (d : ℕ) → (run slots reads emitted m).reg d ≡ m.reg d)
resolve-refuses_example = resolve-refuses slots reads temps (plain 30 1 ∷ plain 14 1 ∷ []) refl

-- The slot that the caller left goes to the slot of the same number that the callee gets.
add_move-intended_example : intended slots reads (λ i. i) (plain 1 2 ∷ plain 31 31 ∷ []) 31 0 ≡ 101
unfolding add_move
add_move-intended_example =
    add_move-intended slots reads (λ i. i) 31 31 (plain 1 2 ∷ []) (plain 1 2 ∷ plain 31 31 ∷ []) 31
      0 refl refl (λ l. absurd (omega arith))

-- Two rounds of `exchange`: the second breaks its cycle.
rounds-HoldAsserts_example : HoldAsserts temps (rounds 2 temps (start (place exchange move).nodes))
rounds-HoldAsserts_example =
    rounds-HoldAsserts temps exchange 2 (omega arith) (refl, (refl, (refl, (refl, tt)))) refl refl
