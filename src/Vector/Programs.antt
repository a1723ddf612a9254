-- ===== src/Vector/Programs.antt =====
-- Every sequence of operations on a vector does what it does on a list: capacities and memory are
-- not seen.
use cbc_engine.Prelude.{
  ℕ, zero, suc, ◌-◌, ◌≤◌, ◌<◌, ltb, ltb→lt, if◌then◌else◌, ◌≡◌, refl, ap, sym, ◌∙◌, inl, inr,
}
use cbc_engine.Prelude.{
  Bool-cases, List, [], ◌∷◌, ◌++◌, map, Option, none, some, length, take, replicate, get_elem?,
  arith,
}
use cbc_engine.Vector.{
  Vector, empty_vector, reserve, push_back, pop_back, resize, clear, element, at,
}
use cbc_engine.Vector.Refines.{
  IsVector, IsVector-size, reserve-IsVector, push_back-IsVector, pop_back-IsVector, resize-IsVector,
  clear-IsVector,
}

module _ {ℓ} (A : Type ℓ) where
  pub data Op : Type ℓ where
    push : A → Op
    pop : Op
    make_space : ℕ → Op
    make_size : ℕ → A → Op
    drop_all : Op

module _ {ℓ} {A : Type ℓ} where
  pub step : Op A → Vector A → Vector A
  step (push a) v = push_back a v
  step pop v = pop_back v
  step (make_space n) v = reserve n v
  step (make_size n a) v = resize n a v
  step drop_all v = clear v

  pub list_step : Op A → List A → List A
  list_step (push a) xs = xs ++ a ∷ []
  list_step pop xs = take (length xs - 1) xs
  list_step (make_space n) xs = xs
  list_step (make_size n a) xs =
      if ltb n (length xs) then take n xs else xs ++ replicate (n - length xs) a
  list_step drop_all xs = []

  pub perform : List (Op A) → Vector A → Vector A
  perform [] v = v
  perform (op ∷ ops) v = perform ops (step op v)

  pub list_perform : List (Op A) → List A → List A
  list_perform [] xs = xs
  list_perform (op ∷ ops) xs = list_perform ops (list_step op xs)

  step-IsVector :
      (op : Op A) {v : Vector A} {xs : List A}
      → IsVector v xs
      → IsVector (step op v) (list_step op xs)
  unfolding step list_step
  step-IsVector (push a) h = push_back-IsVector a h
  step-IsVector pop h = pop_back-IsVector h
  step-IsVector (make_space n) h = reserve-IsVector n h
  step-IsVector (make_size n a) h = resize-IsVector n a h
  step-IsVector drop_all h = clear-IsVector h

  perform-IsVector :
      (ops : List (Op A)) {v : Vector A} {xs : List A}
      → IsVector v xs
      → IsVector (perform ops v) (list_perform ops xs)
  unfolding perform list_perform
  perform-IsVector [] h = h
  perform-IsVector (op ∷ ops) h = perform-IsVector ops (step-IsVector op h)

  get_elem?-take :
      (n i : ℕ) (xs : List (Option A)) → i < n → get_elem? (take n xs) i ≡ get_elem? xs i
  get_elem?-take zero i xs h = absurd (omega arith)
  get_elem?-take (suc n) i [] h = refl
  get_elem?-take (suc n) zero (x ∷ xs) h = refl
  get_elem?-take (suc n) (suc i) (x ∷ xs) h = get_elem?-take n i xs (omega arith)

  element-map : (i : ℕ) (xs : List A) → element (get_elem? (map some xs) i) ≡ get_elem? xs i
  unfolding element
  element-map i [] = refl
  element-map zero (x ∷ xs) = refl
  element-map (suc i) (x ∷ xs) = element-map i xs

  past_end : (i : ℕ) (xs : List A) → length xs ≤ i → get_elem? xs i ≡ none
  past_end i [] h = refl
  past_end zero (x ∷ xs) h = absurd (omega arith)
  past_end (suc i) (x ∷ xs) h = past_end i xs (omega arith)

  at-IsVector : (i : ℕ) {v : Vector A} {xs : List A} → IsVector v xs → at i v ≡ get_elem? xs i
  unfolding at
  at-IsVector i {v} {xs} h = elim (Bool-cases (ltb i v.size)) [
    | inl inside ↦ rw inside (
        ap element (
          sym (get_elem?-take v.size i v.cells (ltb→lt _ _ inside))
          ∙ ap (λ t. get_elem? t i) h.holds)
        ∙ element-map i xs)
    | inr outside ↦ rw outside (sym (past_end i xs (ground (arith, outside, IsVector-size h))))
  ]

  empty-IsVector : IsVector {A = A} empty_vector []
  unfolding empty_vector
  empty-IsVector = record { holds = refl; room = omega arith }

  -- After any sequence of PushBack, PopBack, Reserve, Resize and Clear on a new vector, its size is
  -- that of the list which the same sequence makes, and At answers with the element of the list, or
  -- aborts where the list has none.
  pub perform-refines :
      (ops : List (Op A)) (i : ℕ)
      → ((perform ops empty_vector).size ≡ length (list_perform ops []))
        × (at i (perform ops empty_vector) ≡ get_elem? (list_perform ops []) i)
  perform-refines ops i =
      let held = perform-IsVector ops empty-IsVector in (IsVector-size held, at-IsVector i held)
