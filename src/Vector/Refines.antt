-- ===== src/Vector/Refines.antt =====
-- A vector is a list: each operation does to its elements what the operation on lists does.
use mathlib.Core.List.{append_assoc, append-nil}
use cbc_engine.Prelude.{
  ℕ, zero, suc, ◌+◌, ◌-◌, ◌*◌, ◌≤◌, ◌<◌, ltb, leb, leb→le, ◌==◌, ==_iff, ltb→lt, if◌then◌else◌, ◌≡◌,
  refl, ap, sym, ◌∙◌, inl, inr,
}
use cbc_engine.Prelude.{
  Bool-cases, List, [], ◌∷◌, ◌++◌, map, Option, none, some, length, length-append, length-take,
  length-set, length-map, length-replicate, take, set, replicate, arith,
}
use cbc_engine.Vector.{
  Vector, capacity, reserve, make_room, construct, push_back, pop_back, construct_all, resize,
  clear,
}

-- The new capacity is larger.
doubled : (c : ℕ) → c < (if c == 0 then 4 else c * 2)
doubled c = ground arith

module _ {ℓ} {A : Type ℓ} where
  -- The cells below the size hold the elements of the list.
  pub record IsVector (v : Vector A) (xs : List A) : Type ℓ where
    pub holds : take v.size v.cells ≡ map some xs
    pub room : v.size ≤ length v.cells

  take-take :
      (n : ℕ) (xs ys : List (Option A)) → n ≤ length xs → take n (take n xs ++ ys) ≡ take n xs
  take-take zero xs ys h = refl
  take-take (suc n) [] ys h = absurd (omega arith)
  take-take (suc n) (x ∷ xs) ys h =
      ap (λ (t : List (Option A)). x ∷ t) (take-take n xs ys (omega arith))

  take-set :
      (i : ℕ) (b : Option A) (xs : List (Option A))
      → i < length xs
      → take (suc i) (set xs i b) ≡ take i xs ++ b ∷ []
  take-set i b [] h = absurd (omega arith)
  take-set zero b (x ∷ xs) h = refl
  take-set (suc i) b (x ∷ xs) h =
      ap (λ (t : List (Option A)). x ∷ t) (take-set i b xs (omega arith))

  map-append : (xs ys : List A) → map some xs ++ map some ys ≡ map some (xs ++ ys)
  map-append [] ys = refl
  map-append (x ∷ xs) ys = ap (λ (t : List (Option A)). some x ∷ t) (map-append xs ys)

  -- The size is the length of the list.
  pub IsVector-size : {v : Vector A} {xs : List A} → IsVector v xs → v.size ≡ length xs
  IsVector-size {v} {xs} h = omega (
    arith,
    h.room,
    length-take v.size v.cells,
    length-map xs (λ (a : A). some a),
    ap length h.holds,
  )

  pub reserve-IsVector :
      (n : ℕ) {v : Vector A} {xs : List A} → IsVector v xs → IsVector (reserve n v) xs
  unfolding reserve
  reserve-IsVector n {v} {xs} h = elim (Bool-cases (leb n (capacity v))) [
    | inl e ↦ rw e h
    | inr e ↦ rw e (record {
      holds = take-take v.size v.cells _ h.room ∙ h.holds;
      room = omega (
        arith,
        h.room,
        length-append (take v.size v.cells) (replicate (n - v.size) none),
        length-take v.size v.cells,
      );
    })
  ]

  construct-IsVector :
      (a : A) {v : Vector A} {xs : List A}
      → IsVector v xs
      → v.size < length v.cells
      → IsVector (construct a v) (xs ++ a ∷ [])
  unfolding construct
  construct-IsVector a {v} {xs} h l = record {
    holds =
        take-set v.size (some a) v.cells l
        ∙ ap (λ (t : List (Option A)). t ++ some a ∷ []) h.holds
        ∙ map-append xs (a ∷ []);
    room = omega (arith, l, length-set v.cells v.size (some a));
  }

  reserve-capacity :
      (n : ℕ) (v : Vector A)
      → v.size ≤ length v.cells
      → (n ≤ length (reserve n v).cells) × ((reserve n v).size ≡ v.size)
  unfolding reserve
  reserve-capacity n v h = elim (Bool-cases (leb n (capacity v))) [
    | inl e ↦ rw e (leb→le _ _ e, refl)
    | inr e ↦ rw e (
      omega (
        arith,
        h,
        length-append (take v.size v.cells) (replicate (n - v.size) none),
        length-take v.size v.cells,
        length-replicate {A = Option A} (n - v.size) none,
      ),
      refl,
    )
  ]

  make_room-IsVector :
      {v : Vector A} {xs : List A}
      → IsVector v xs
      → IsVector (make_room v) xs × ((make_room v).size < length (make_room v).cells)
  unfolding make_room
  make_room-IsVector {v} {xs} h = elim (Bool-cases (v.size == capacity v)) [
    | inl full ↦
        let more = if capacity v == 0 then 4 else capacity v * 2 in
        let (enough, same) = reserve-capacity more v h.room in
        let full_size : v.size ≡ capacity v = (==_iff _ _).0 full in
        let ground_more : capacity v < more = doubled (capacity v) in
        rw full (reserve-IsVector more h, omega (arith, enough, same, ground_more, full_size))
    | inr other ↦ rw other (h, ground (arith, other, h.room))
  ]

  -- PushBack adds an element at the end, whatever the capacity.
  pub push_back-IsVector :
      (a : A) {v : Vector A} {xs : List A} → IsVector v xs → IsVector (push_back a v) (xs ++ a ∷ [])
  unfolding push_back
  push_back-IsVector a h = let (made, more) = make_room-IsVector h in construct-IsVector a made more

  take-less :
      (n : ℕ) (i : ℕ) (b : Option A) (xs : List (Option A))
      → n ≤ i
      → take n (set xs i b) ≡ take n xs
  take-less zero i b xs h = refl
  take-less (suc n) i b [] h = refl
  take-less (suc n) zero b (x ∷ xs) h = absurd (omega arith)
  take-less (suc n) (suc i) b (x ∷ xs) h =
      ap (λ (t : List (Option A)). x ∷ t) (take-less n i b xs (omega arith))

  take-of_take : (n m : ℕ) (xs : List (Option A)) → n ≤ m → take n (take m xs) ≡ take n xs
  take-of_take zero m xs h = refl
  take-of_take (suc n) zero xs h = absurd (omega arith)
  take-of_take (suc n) (suc m) [] h = refl
  take-of_take (suc n) (suc m) (x ∷ xs) h =
      ap (λ (t : List (Option A)). x ∷ t) (take-of_take n m xs (omega arith))

  take-map : (n : ℕ) (xs : List A) → take n (map some xs) ≡ map some (take n xs)
  take-map zero xs = refl
  take-map (suc n) [] = refl
  take-map (suc n) (x ∷ xs) = ap (λ (t : List (Option A)). some x ∷ t) (take-map n xs)

  -- The first elements are those of the list.
  shorter :
      (n : ℕ) {v : Vector A} {xs : List A}
      → IsVector v xs
      → n ≤ v.size
      → take n v.cells ≡ map some (take n xs)
  shorter n {v} {xs} h l =
      sym (take-of_take n v.size v.cells l) ∙ ap (take n) h.holds ∙ take-map n xs

  take-nothing : (xs : List A) → length xs ≡ 0 → take (length xs - 1) xs ≡ xs
  take-nothing [] h = refl
  take-nothing (x ∷ xs) h = absurd (omega arith)

  -- PopBack takes the last element off, where there is one.
  pub pop_back-IsVector :
      {v : Vector A} {xs : List A} → IsVector v xs → IsVector (pop_back v) (take (length xs - 1) xs)
  unfolding pop_back
  pop_back-IsVector {v} {xs} h = elim (Bool-cases (ltb 0 v.size)) [
    | inl some_left ↦ rw some_left (record {
      holds =
          take-less (v.size - 1) (v.size - 1) none v.cells (omega arith)
          ∙ shorter (v.size - 1) h (omega arith)
          ∙ ap (λ (n : ℕ). map some (take (n - 1) xs)) (IsVector-size h);
      room = omega (arith, h.room, length-set v.cells (v.size - 1) none);
    })
    | inr nothing ↦
        let none_left : length xs ≡ 0 = ground (arith, nothing, IsVector-size h) in
        rw (nothing, take-nothing xs none_left) h
  ]

  construct_all-IsVector :
      (n : ℕ) (a : A) {v : Vector A} {xs : List A}
      → IsVector v xs
      → v.size + n ≤ length v.cells
      → IsVector (construct_all n a v) (xs ++ replicate n a)
  unfolding construct_all construct
  construct_all-IsVector zero a {v} {xs} h l = rw (append-nil xs) h
  construct_all-IsVector (suc n) a {v} {xs} h l =
      let fewer : suc v.size + n ≤ length (construct a v).cells =
        omega (arith, l, length-set v.cells v.size (some a)) in
      rw (← append_assoc xs (a ∷ []) (replicate n a))
        (construct_all-IsVector n a (construct-IsVector a h (omega (arith, l))) fewer)

  pub resize-IsVector :
      (n : ℕ) (a : A) {v : Vector A} {xs : List A}
      → IsVector v xs
      → IsVector
          (resize n a v)
          (if ltb n (length xs) then take n xs else xs ++ replicate (n - length xs) a)
  unfolding resize
  resize-IsVector n a {v} {xs} h = rw (← IsVector-size h) (elim (Bool-cases (ltb n v.size)) [
    | inl less ↦
        let below : n < v.size = ltb→lt _ _ less in
        let fits : n ≤ length v.cells = omega (arith, below, h.room) in
        rw less (record { holds = shorter n h (omega (arith, below)); room = fits })
    | inr more ↦
        let (enough, same) = reserve-capacity n v h.room in
        rw more (
          construct_all-IsVector (n - v.size) a (reserve-IsVector n h)
            (ground (arith, enough, same, more)))
  ])

  pub clear-IsVector : {v : Vector A} {xs : List A} → IsVector v xs → IsVector (clear v) []
  unfolding clear
  clear-IsVector h = record { holds = refl; room = omega arith }
