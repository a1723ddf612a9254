-- ===== src/Emitter/SymbolTable/Labels.antt =====
-- A label that is bound stays where it is.
use cbc_engine.Prelude.{ℕ, zero, suc, if◌then◌else◌, List, [], ◌∷◌, ◌++◌, ◌≡◌, refl, ap, sym, ◌∙◌}
use cbc_engine.Prelude.{
  both_ways, Bool, true, false, Option, none, some, set, get_elem?, get_elem?-set_ne,
}
use cbc_engine.Prelude.Int.{ℤ}
use cbc_engine.Emitter.SymbolTable.{
  Symbols, value, new_label, bind, bind_at, bound, label_position, is_invalid, invalid_position,
}

get_elem?-append :
    (xs ys : List ℤ) (i : ℕ) (v : ℤ) → get_elem? xs i ≡ some v → get_elem? (xs ++ ys) i ≡ some v
get_elem?-append [] ys i v h = absurd cc
get_elem?-append (x ∷ xs) ys zero v h = h
get_elem?-append (x ∷ xs) ys (suc i) v h = get_elem?-append xs ys i v h

valid :
    (q p : ℤ) (bad : Bool)
    → is_invalid q ≡ bad
    → (if bad then none else some q) ≡ some p
    → (some q ≡ some p) × (is_invalid p ≡ false)
valid q p true e h = absurd cc
valid q p false e h = let same : q ≡ p = cc in (h, rw (← same) e)

-- A position that is valid.
bound-some : (o : Option ℤ) (p : ℤ) → bound o ≡ some p → (o ≡ some p) × (is_invalid p ≡ false)
unfolding bound
bound-some none p h = absurd cc
bound-some (some q) p h = valid q p (is_invalid q) refl h

taken :
    (q : ℤ) (label : ℕ) (position : ℤ) (s s' : Symbols) (bad : Bool)
    → is_invalid q ≡ bad
    → (if bad
        then some (record s { label_positions = set s.label_positions label position })
        else none)
      ≡ some s'
    → (is_invalid q ≡ true)
      × (s' ≡ record s { label_positions = set s.label_positions label position })
taken q label position s s' true e h = (e, cc)
taken q label position s s' false e h = absurd cc

bound_label :
    (l label : ℕ) (p position : ℤ) (s s' : Symbols)
    → get_elem? s.label_positions l ≡ some p
    → is_invalid p ≡ false
    → (old : Option ℤ) → get_elem? s.label_positions label ≡ old
    → bind_at old label position s ≡ some s'
    → bound (get_elem? s'.label_positions l) ≡ some p
unfolding bind_at bound
bound_label l label p position s s' there good none e b = absurd cc
bound_label l label p position s s' there good (some q) e b =
    let (bad, same) = taken q label position s s' (is_invalid q) refl b in
    rw
      (
        same,
        get_elem?-set_ne s.label_positions position (λ (x : label ≡ l).
            let at : some q ≡ some p = sym e ∙ ap (get_elem? s.label_positions) x ∙ there in
            let valid_too : is_invalid q ≡ false = let v : q ≡ p = cc in rw v good in
            both_ways bad valid_too),
        there,
        good,
      )
      refl

pub label_position-new_label :
    (l : ℕ) (p : ℤ) (s : Symbols)
    → label_position l s ≡ some p
    → label_position l (new_label s).1 ≡ some p
unfolding label_position new_label bound
label_position-new_label l p s h =
    let (there, good) = bound-some (get_elem? s.label_positions l) p h in
    rw (get_elem?-append s.label_positions (invalid_position ∷ []) l p there) (rw good refl)

pub label_position-value :
    (l : ℕ) (p : ℤ) (v : ℕ) (s : Symbols)
    → label_position l s ≡ some p
    → label_position l (value v s).1 ≡ some p
unfolding label_position value
label_position-value l p v s h = h

-- Bind takes an unbound label only, and leaves the others alone.
pub label_position-bind :
    (l label : ℕ) (p position : ℤ) (s s' : Symbols)
    → label_position l s ≡ some p
    → bind label position s ≡ some s'
    → label_position l s' ≡ some p
unfolding label_position bind
label_position-bind l label p position s s' h b =
    let (there, good) = bound-some (get_elem? s.label_positions l) p h in
    bound_label l label p position s s' there good (get_elem? s.label_positions label) refl b
