-- ===== src/Vector/Runs.antt =====
-- A run on a vector that grows twice.
use cbc_engine.Prelude.{ℕ, ◌≡◌, List, [], ◌∷◌, length, get_elem?}
use cbc_engine.Vector.{empty_vector, at}
use cbc_engine.Vector.Programs.{Op, push, pop, make_size, perform, list_perform, perform-refines}

abbrev calls : List (Op ℕ)
calls = push 7 ∷ push 8 ∷ push 9 ∷ pop ∷ make_size 6 1 ∷ push 5 ∷ []

perform-refines_example :
    ((perform calls empty_vector).size ≡ length (list_perform calls []))
    × (at 6 (perform calls empty_vector) ≡ get_elem? (list_perform calls []) 6)
perform-refines_example = perform-refines calls 6
