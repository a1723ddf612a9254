-- ===== src/Vector.antt =====
-- src/utils/vector.h: Utils::Vector. The memory is the list of its cells, of which those below the
-- size hold an element; a fresh cell holds none. An allocation that fails is left out, and so is an
-- argument of PushBack that lies in the vector itself.
pub mod Refines
pub mod Programs
pub mod Runs
use cbc_engine.Prelude.{ℕ, zero, suc, ◌-◌, ◌*◌, ltb, leb, ◌==◌, if◌then◌else◌, List, [], ◌∷◌, ◌++◌}
use cbc_engine.Prelude.{Option, none, some, length, take, set, replicate, get_elem?}

module _ {ℓ} (A : Type ℓ) where
  pub record Vector : Type ℓ where
    pub cells : List (Option A)
    pub size : ℕ

module _ {ℓ} {A : Type ℓ} where
  abbrev pub capacity : Vector A → ℕ
  capacity v = length v.cells

  pub empty_vector : Vector A
  empty_vector = record { cells = []; size = 0 }

  -- Reserve: the elements move to new memory.
  pub reserve : ℕ → Vector A → Vector A
  reserve new_cap v =
      if leb new_cap (capacity v)
      then v
      else record v { cells = take v.size v.cells ++ replicate (new_cap - v.size) none }

  -- Where the vector is full, PushBack makes room for 4 elements, or for twice as many.
  pub make_room : Vector A → Vector A
  make_room v =
      if v.size == capacity v then reserve (if capacity v == 0 then 4 else capacity v * 2) v else v

  -- A new element in the cell after the last one.
  pub construct : A → Vector A → Vector A
  construct a v = record { cells = set v.cells v.size (some a); size = suc v.size }

  pub push_back : A → Vector A → Vector A
  push_back a v = construct a (make_room v)

  pub pop_back : Vector A → Vector A
  pop_back v =
      if ltb 0 v.size
      then record { cells = set v.cells (v.size - 1) none; size = v.size - 1 }
      else v

  -- The loop of Resize that constructs elements; the size, which the source sets after it, grows with it.
  pub construct_all : ℕ → A → Vector A → Vector A
  construct_all zero a v = v
  construct_all (suc n) a v = construct_all n a (construct a v)

  -- Resize with a value.
  pub resize : ℕ → A → Vector A → Vector A
  resize count a v =
      if ltb count v.size
      then record v { size = count }
      else construct_all (count - v.size) a (reserve count v)

  pub clear : Vector A → Vector A
  clear v = record v { size = 0 }

  -- At: none is the abort.
  pub element : Option (Option A) → Option A
  element none = none
  element (some cell) = cell

  pub at : ℕ → Vector A → Option A
  at index v = if ltb index v.size then element (get_elem? v.cells index) else none
