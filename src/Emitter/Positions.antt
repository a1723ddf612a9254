-- ===== src/Emitter/Positions.antt =====
-- The states that the emitter goes through: its fixups lie in the code, one after the other, and a
-- label keeps its position.
use cbc_engine.Prelude.{ℕ, ◌+◌, ◌≤◌, List, [], ◌∷◌, ◌++◌, ◌≡◌, refl}
use cbc_engine.Prelude.{some, length, length-append, length-replicate, replicate, arith}
use cbc_engine.Prelude.Int.{ℤ, pos}
use cbc_engine.Prelude.Partial.{>>=-eq-some}
use cbc_engine.Emitter.SymbolTable.{bind, label_position, value}
use cbc_engine.Emitter.SymbolTable.Labels.{
  label_position-value, label_position-new_label, label_position-bind,
}
use cbc_engine.Emitter.Fixups.{Fixup, size}
use mathlib.Core.Path.{subst}
use cbc_engine.Prelude.{Bool, true, false, if◌then◌else◌}
use cbc_engine.Word.{Width, w8, w16, w32, w64}
use cbc_engine.Bits.{is_n_bits_signed_64}
use cbc_engine.Emitter.{
  Emitter, emit, add_fixup, add_label, bind_label, literal_immediate, binary_imm,
}

some_inj : {a b : Emitter} → some a ≡ some b → a ≡ b
some_inj h = cc

-- From one position to another, in order and without overlap.
abbrev pub Within : ℕ → List (ℕ × Fixup) → ℕ → Type 0
Within low [] high = low ≤ high
Within low ((position, f) ∷ fixups) high = (low ≤ position) × Within (position + size f) fixups high

abbrev pub IsPlaced : Emitter → Type 0
IsPlaced e = Within 0 e.fixups (length e.segment)

-- The steps of the emitter: Encode, AddFixup, Symbols::Value, NewLabel and Bind.
pub data Step : Emitter → Emitter → Type 0 where
  emits : (e : Emitter) (bytes : List ℕ) → Step e (emit bytes e)
  fixes : (e : Emitter) (f : Fixup) → Step e (add_fixup f e)
  values : (e : Emitter) (v : ℕ) → Step e (record e { symbols = (value v e.symbols).1 })
  labels : (e : Emitter) → Step e (add_label e).1
  binds : (e e' : Emitter) (label : ℕ) → bind_label label e ≡ some e' → Step e e'

pub data Reach (e : Emitter) : Emitter → Type 0 where
  here : Reach e e
  next : {e1 e2 : Emitter} → Reach e e1 → Step e1 e2 → Reach e e2

Within-more :
    (low high more : ℕ) (fs : List (ℕ × Fixup))
    → Within low fs high
    → high ≤ more
    → Within low fs more
Within-more low high more [] h l = omega arith
Within-more low high more ((p, f) ∷ fs) h l = (h.0, Within-more (p + size f) high more fs h.1 l)

Within-last :
    (low high : ℕ) (fs : List (ℕ × Fixup)) (f : Fixup)
    → Within low fs high
    → Within low (fs ++ (high, f) ∷ []) (high + size f)
Within-last low high [] f h = (h, omega arith)
Within-last low high ((p, g) ∷ fs) f h = (h.0, Within-last (p + size g) high fs f h.1)

-- A bind changes the labels alone.
bind-segment :
    (e e' : Emitter) (label : ℕ)
    → bind_label label e ≡ some e'
    → (e'.segment ≡ e.segment) × (e'.fixups ≡ e.fixups)
unfolding bind_label
bind-segment e e' label h =
    let (s, _, done) = >>=-eq-some (bind label (pos (length e.segment)) e.symbols) _ h in
    let same : e' ≡ record e { symbols = s } = cc in rw same (refl, refl)

Step-IsPlaced : {e e' : Emitter} → Step e e' → IsPlaced e → IsPlaced e'
unfolding emit add_fixup add_label
Step-IsPlaced (emits e bytes) h =
    Within-more 0 (length e.segment) (length (e.segment ++ bytes)) e.fixups h
      (omega (arith, length-append e.segment bytes))
Step-IsPlaced (fixes e f) h =
    Within-more 0 (length e.segment + size f) (length (e.segment ++ replicate (size f) 0))
      (e.fixups ++ (length e.segment, f) ∷ []) (Within-last 0 (length e.segment) e.fixups f h)
      (omega (
        arith,
        length-append e.segment (replicate (size f) 0),
        length-replicate {A = ℕ} (size f) 0,
      ))
Step-IsPlaced (values e v) h = h
Step-IsPlaced (labels e) h = h
Step-IsPlaced (binds e e' label b) h =
    let (segment, fixups) = bind-segment e e' label b in rw (segment, fixups) h

Step-label :
    {e e' : Emitter} (l : ℕ) (p : ℤ)
    → Step e e'
    → label_position l e.symbols ≡ some p
    → label_position l e'.symbols ≡ some p
unfolding emit add_fixup add_label bind_label
Step-label l p (emits e bytes) h = h
Step-label l p (fixes e f) h = h
Step-label l p (values e v) h = label_position-value l p v e.symbols h
Step-label l p (labels e) h = label_position-new_label l p e.symbols h
Step-label l p (binds e e' label b) h =
    let (s, bs, done) = >>=-eq-some (bind label (pos (length e.segment)) e.symbols) _ b in
    let same : e' ≡ record e { symbols = s } = cc in
    rw same (label_position-bind l label p (pos (length e.segment)) e.symbols s h bs)

-- An immediate that becomes a literal takes four steps.
literal_immediate-Reach :
    (opc op d l imm : ℕ) (e : Emitter) → Reach e (literal_immediate opc op d l imm e)
unfolding literal_immediate
literal_immediate-Reach opc op d l imm e =
    next (next (next (next here (values e imm)) (emits _ _)) (fixes _ _)) (emits _ _)

either :
    (short : Bool) (bytes : List ℕ) (opc op d l imm : ℕ) (e : Emitter)
    → Reach e (if short then emit bytes e else literal_immediate opc op d l imm e)
either true bytes opc op d l imm e = next here (emits e bytes)
either false bytes opc op d l imm e = literal_immediate-Reach opc op d l imm e

-- What BinaryImm answers is a state that the emitter reaches.
pub binary_imm-Reach :
    (op : ℕ) (w : Width) (d l imm : ℕ) (e e' : Emitter)
    → binary_imm op w d l imm e ≡ some e'
    → Reach e e'
unfolding binary_imm
binary_imm-Reach op w8 d l imm e e' h = absurd cc
binary_imm-Reach op w16 d l imm e e' h = absurd cc
binary_imm-Reach op w32 d l imm e e' h =
    subst (Reach e) (some_inj h) (either (is_n_bits_signed_64 imm 12) _ _ op d l imm e)
binary_imm-Reach op w64 d l imm e e' h =
    subst (Reach e) (some_inj h) (either (is_n_bits_signed_64 imm 12) _ _ op d l imm e)

-- In every state that the emitter reaches by its steps, the fixups lie inside the code, in the order of their
-- positions and without overlap.
pub Reach-IsPlaced : {e e' : Emitter} → IsPlaced e → Reach e e' → IsPlaced e'
Reach-IsPlaced h here = h
Reach-IsPlaced h (next r s) = Step-IsPlaced s (Reach-IsPlaced h r)

-- A label that is bound keeps its position, whatever steps the emitter makes from then on.
pub Reach-label :
    {e e' : Emitter} (l : ℕ) (p : ℤ)
    → label_position l e.symbols ≡ some p
    → Reach e e'
    → label_position l e'.symbols ≡ some p
Reach-label l p h here = h
Reach-label l p h (next r s) = Step-label l p s (Reach-label l p h r)
