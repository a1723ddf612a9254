-- ===== src/Emitter/Buffer/Splice.antt =====
-- What is written through a view takes the place of as many bytes.
use mathlib.Core.List.{append_assoc}
use cbc_engine.Prelude.{ℕ, zero, suc, ◌+◌, ◌≤◌, ◌<◌, ltb, lt→ltb, true, ◌≡◌, refl, ap, sym, ◌∙◌}
use cbc_engine.Prelude.{
  List, [], ◌∷◌, ◌++◌, some, length, length-take, take-append-drop, length-set, set, take, drop,
  arith,
}
use cbc_engine.Emitter.Buffer.{view_add}

take-set : (i b : ℕ) (xs : List ℕ) → i < length xs → take (suc i) (set xs i b) ≡ take i xs ++ b ∷ []
take-set i b [] h = absurd (omega arith)
take-set zero b (x ∷ xs) h = refl
take-set (suc i) b (x ∷ xs) h = ap (λ (t : List ℕ). x ∷ t) (take-set i b xs (omega arith))

drop-set : (i k b : ℕ) (xs : List ℕ) → i < k → drop k (set xs i b) ≡ drop k xs
drop-set i zero b xs h = absurd (omega arith)
drop-set i (suc k) b [] h = refl
drop-set zero (suc k) b (x ∷ xs) h = refl
drop-set (suc i) (suc k) b (x ∷ xs) h = drop-set i k b xs (omega arith)

nothing_replaced : (i : ℕ) (xs : List ℕ) → xs ≡ take i xs ++ drop (i + 0) xs
nothing_replaced i xs = let same : i + 0 ≡ i = omega arith in rw same (sym (take-append-drop i xs))

-- Encode through a view replaces the bytes from the position on by as many others, where the view
-- has room.
pub view_add-splice :
    (position : ℕ) (bytes content : List ℕ)
    → position + length bytes ≤ length content
    → view_add position bytes content
      ≡ some (take position content ++ (bytes ++ drop (position + length bytes) content))
unfolding view_add
view_add-splice position [] content h = ap some (nothing_replaced position content)
view_add-splice position (b ∷ bytes) content h =
    let inside : ltb position (length content) ≡ true = lt→ltb _ _ (omega arith) in
    let next : suc position + length bytes ≡ position + suc (length bytes) = omega arith in
    rw inside (
      view_add-splice (suc position) bytes (set content position b)
        (omega (arith, length-set content position b))
      ∙ rw
          (
            take-set position b content (omega arith),
            drop-set position (suc position + length bytes) b content (omega arith),
            append_assoc (take position content) (b ∷ [])
                (bytes ++ drop (suc position + length bytes) content),
            next,
          )
          refl)

-- Lists that are cut where they were joined.
pub drop-append : (xs ys : List ℕ) → drop (length xs) (xs ++ ys) ≡ ys
drop-append [] ys = refl
drop-append (x ∷ xs) ys = drop-append xs ys

-- The bytes are found at the position.
pub drop-splice :
    (position : ℕ) (content rest : List ℕ)
    → position ≤ length content
    → drop position (take position content ++ rest) ≡ rest
drop-splice position content rest h =
    ap (λ (t : ℕ). drop t (take position content ++ rest))
      (omega (arith, length-take position content, h))
    ∙ drop-append (take position content) rest
