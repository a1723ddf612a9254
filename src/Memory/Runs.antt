-- ===== src/Memory/Runs.antt =====
-- Stores and loads of a concrete state.
use cbc_engine.Prelude.{refl, ◌+◌, ◌≡◌, inl, arith, some, false}
use mathlib.Core.Option
use cbc_engine.Location.{ld_s8}
use cbc_engine.Memory.{State, store_prim, load_prim, st_8}
use cbc_engine.Memory.Access.{s8, load_prim-store_prim, store_prim-outside, loaded, target_of}

-- Register `i` holds 200 + i.
abbrev machine : State
machine = record { ireg = λ i. 200 + i; freg = λ i. 0; memory = λ i. 0 }

load_prim-store_prim_example :
    (t : State) × (u : State) × (store_prim st_8 1000 3 machine ≡ some t)
    × (load_prim (λ a. a) ld_s8 false 1000 4 t ≡ some u)
    × (some (target_of ld_s8 4 u) ≡ loaded ld_s8 203)
load_prim-store_prim_example =
    load_prim-store_prim (λ a. a) st_8 ld_s8 false 1000 3 4 machine s8 refl

store_prim-outside_example :
    Option.map (λ t. t.memory 999) (store_prim st_8 1000 3 machine)
    ≡ Option.map (λ t. 0) (store_prim st_8 1000 3 machine)
store_prim-outside_example = store_prim-outside st_8 1000 3 machine 999 (inl (omega arith))
