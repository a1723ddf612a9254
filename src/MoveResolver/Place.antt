-- ===== src/MoveResolver/Place.antt =====
-- The first and the last loop of `MoveResolver::Resolve`: what they put into the graph, and what
-- they emit at once for parameter slots and at the end for stack slots.
use cbc_engine.Prelude.{ℕ, ◌+◌, ◌<◌, ltb, ◌==◌, if◌then◌else◌, arith}
use cbc_engine.Prelude.{Bool, true, false, not, ◌&&◌, ◌||◌, ◌≡◌, ◌≢◌, refl, Bool-cases}
use cbc_engine.Prelude.{List, [], ◌∷◌, ◌∙◌, none, some, inl, inr}
use cbc_engine.Prelude.{Option-cases}
use mathlib.Core.Path.{subst, fun_ext}
use cbc_engine.Prelude.Int.{ℤ}
use cbc_engine.Location.{LoadAccessKind, Instr, kind_at, reg_count, virt_count}
use cbc_engine.MoveResolver.{Assignment, AssignmentInfo, Nodes}
use cbc_engine.MoveResolver.{move, load}
use cbc_engine.MoveResolver.{place_kinds, place, late_kinds, late}
use cbc_engine.MoveResolver.Machine.{Machine, value, node_value, run, exec, run-append}
use cbc_engine.MoveResolver.Cycles.{Fits}

-- An address is in an integer register or a stack slot, and a move between registers keeps their
-- kind.
abbrev pub supported : Assignment → Bool
supported a =
    if a.from_addr
    then ltb a.src virt_count || not (ltb a.src reg_count)
    else (not (ltb a.dst reg_count) || not (ltb a.src reg_count))
      || (ltb a.dst virt_count && ltb a.src virt_count)
      || (not (ltb a.dst virt_count) && not (ltb a.src virt_count))

abbrev pub AllSupported : List Assignment → Type 0
AllSupported [] = Unit {0}
AllSupported (a ∷ moves) = (supported a ≡ true) × AllSupported moves

abbrev pub targets : List Assignment → ℕ → Bool
targets [] d = false
targets (a ∷ moves) d = a.dst == d || targets moves d

-- Each location is the destination of one assignment at most.
abbrev pub Distinct : List Assignment → Type 0
Distinct [] = Unit {0}
Distinct (a ∷ moves) = (targets moves a.dst ≡ false) × Distinct moves

-- One round of the first loop takes the assignment, or refuses it, by its kinds.
pub place_accepts :
    (a : Assignment) (nodes : Nodes)
    → supported a ≡ true
    → place_kinds (kind_at a.dst) (kind_at a.src) a nodes ≢ none
unfolding place_kinds
place_accepts a nodes h = ground arith

pub place_refuses :
    (a : Assignment) (nodes : Nodes)
    → supported a ≡ false
    → place_kinds (kind_at a.dst) (kind_at a.src) a nodes ≡ none
unfolding place_kinds
place_refuses a nodes h = ground arith

abbrev info : Assignment → AssignmentInfo
info a = if a.from_addr then load a.src a.offset a.ldk else move a.src

place_nodes :
    (a : Assignment) (nodes nodes' : Nodes) (now : List Instr) (d : ℕ)
    → d < reg_count
    → place_kinds (kind_at a.dst) (kind_at a.src) a nodes ≡ some (nodes', now)
    → nodes' d ≡ (if a.dst == d && ltb a.src reg_count then info a else nodes d)
unfolding place_kinds
place_nodes a nodes nodes' now d lt h = ground arith

-- An assignment that both `supported` and the destination fit is a node of the graph.
info-Fits :
    (a : Assignment)
    → supported a ≡ true
    → a.dst < reg_count
    → a.src < reg_count
    → Fits a.dst (info a)
info-Fits a h d s = elim (Bool-cases a.from_addr) [
  | inl e ↦ rw e (ground arith)
  | inr e ↦ rw e (ground arith)
]

pub place_accepted :
    (moves : List Assignment) (nodes : Nodes)
    → AllSupported moves
    → (place moves nodes).accepted ≡ true
unfolding place
place_accepted [] nodes h = refl
place_accepted (a ∷ moves) nodes (here, rest) =
    elim (Option-cases (place_kinds (kind_at a.dst) (kind_at a.src) a nodes)) [
      | inl e ↦ absurd (place_accepts a nodes here e)
      | inr ((nodes', now), e) ↦ rw (e, place) (place_accepted moves nodes' rest)
    ]

Fits-choice :
    (b : Bool) (d : ℕ) (i j : AssignmentInfo)
    → (b ≡ true → Fits d i)
    → Fits d j
    → Fits d (if b then i else j)
Fits-choice true d i j h k = h refl
Fits-choice false d i j h k = k

pub place-Fits :
    (moves : List Assignment) (nodes : Nodes) (d : ℕ)
    → AllSupported moves
    → d < reg_count
    → Fits d (nodes d)
    → Fits d ((place moves nodes).nodes d)
unfolding place
place-Fits [] nodes d h lt fits = fits
place-Fits (a ∷ moves) nodes d (here, rest) lt fits =
    elim (Option-cases (place_kinds (kind_at a.dst) (kind_at a.src) a nodes)) [
      | inl e ↦ absurd (place_accepts a nodes here e)
      | inr ((nodes', now), e) ↦
          rw (e, place)
            (place-Fits moves nodes' d rest lt (rw (place_nodes a nodes nodes' now d lt e) next))
    ]
  where
    next : Fits d (if a.dst == d && ltb a.src reg_count then info a else nodes d)
    next =
        Fits-choice (a.dst == d && ltb a.src reg_count) d (info a) (nodes d)
          (λ p.
            subst (λ x. Fits x (info a)) (ground arith)
              (info-Fits a here (ground arith) (ground arith)))
          fits

-- A location that no assignment names keeps its node.
pub place-untargeted :
    (moves : List Assignment) (nodes : Nodes) (d : ℕ)
    → AllSupported moves
    → d < reg_count
    → targets moves d ≡ false
    → (place moves nodes).nodes d ≡ nodes d
unfolding place
place-untargeted [] nodes d h lt free = refl
place-untargeted (a ∷ moves) nodes d (here, rest) lt free =
    elim (Option-cases (place_kinds (kind_at a.dst) (kind_at a.src) a nodes)) [
      | inl e ↦ absurd (place_accepts a nodes here e)
      | inr ((nodes', now), e) ↦
          rw (e, place)
            (place-untargeted moves nodes' d rest lt (ground arith)
              ∙ (place_nodes a nodes nodes' now d lt e ∙ ground arith))
    ]

module _ {V : Type 0} (slot : ℕ → V) (memory : LoadAccessKind → V → ℤ → V) where
  -- What the assignments read from registers, and from slots, are to leave at a location that
  -- holds `v`.
  abbrev pub early_value : (ℕ → V) → List Assignment → ℕ → V → V
  early_value reg [] d v = v
  early_value reg (a ∷ moves) d v =
      if a.dst == d && ltb a.src reg_count
      then value slot memory reg a
      else early_value reg moves d v

  abbrev pub late_value : (ℕ → V) → List Assignment → ℕ → V → V
  late_value reg [] d v = v
  late_value reg (a ∷ moves) d v =
      if a.dst == d && not (ltb a.src reg_count)
      then value slot memory reg a
      else late_value reg moves d v

  -- What all are to leave there: the parallel assignment.
  abbrev pub intended : (ℕ → V) → List Assignment → ℕ → V → V
  intended reg [] d v = v
  intended reg (a ∷ moves) d v =
      if a.dst == d then value slot memory reg a else intended reg moves d v

  early_value-untargeted :
      (reg : ℕ → V) (moves : List Assignment) (d : ℕ) (v : V)
      → targets moves d ≡ false
      → early_value reg moves d v ≡ v
  early_value-untargeted reg [] d v h = refl
  early_value-untargeted reg (a ∷ moves) d v h =
      ground (arith, early_value-untargeted reg moves d v)

  late_value-untargeted :
      (reg : ℕ → V) (moves : List Assignment) (d : ℕ) (v : V)
      → targets moves d ≡ false
      → late_value reg moves d v ≡ v
  late_value-untargeted reg [] d v h = refl
  late_value-untargeted reg (a ∷ moves) d v h = ground (arith, late_value-untargeted reg moves d v)

  pub intended-untargeted :
      (reg : ℕ → V) (moves : List Assignment) (d : ℕ) (v : V)
      → targets moves d ≡ false
      → intended reg moves d v ≡ v
  intended-untargeted reg [] d v h = refl
  intended-untargeted reg (a ∷ moves) d v h = ground (arith, intended-untargeted reg moves d v)

  -- What a first assignment leaves, the others keep.
  intended-head :
      (reg : ℕ → V) (a : Assignment) (moves : List Assignment) (d : ℕ) (v : V)
      → targets moves a.dst ≡ false
      → intended reg moves d (if a.dst == d then value slot memory reg a else v)
        ≡ intended reg (a ∷ moves) d v
  intended-head reg a moves d v fresh =
      ground (arith, intended-untargeted reg moves d (value slot memory reg a))

  late_value-head :
      (reg : ℕ → V) (a : Assignment) (moves : List Assignment) (d : ℕ) (v : V)
      → targets moves a.dst ≡ false
      → late_value reg moves d
          (if a.dst == d && not (ltb a.src reg_count) then value slot memory reg a else v)
        ≡ late_value reg (a ∷ moves) d v
  late_value-head reg a moves d v fresh =
      ground (arith, late_value-untargeted reg moves d (value slot memory reg a))

  pub late-early_value :
      (reg : ℕ → V) (moves : List Assignment) (d : ℕ) (v : V)
      → Distinct moves
      → late_value reg moves d (early_value reg moves d v) ≡ intended reg moves d v
  late-early_value reg [] d v h = refl
  late-early_value reg (a ∷ moves) d v (fresh, rest) = ground (
    arith,
    late-early_value reg moves d v rest,
    late_value-untargeted reg moves d (value slot memory reg a),
  )

  node_value-info :
      (a : Assignment) (reg : ℕ → V)
      → a.src < reg_count
      → node_value slot memory reg (info a) ≡ value slot memory reg a
  node_value-info a reg lt = elim (Bool-cases a.from_addr) [
    | inl e ↦ rw e (ground arith)
    | inr e ↦ rw e (ground arith)
  ]

  pub place_values :
      (moves : List Assignment) (nodes : Nodes) (reg : ℕ → V) (d : ℕ)
      → AllSupported moves
      → Distinct moves
      → d < reg_count
      → node_value slot memory reg ((place moves nodes).nodes d)
        ≡ early_value reg moves d (node_value slot memory reg (nodes d))
  unfolding place
  place_values [] nodes reg d h u lt = refl
  place_values (a ∷ moves) nodes reg d (here, rest) (fresh, unique) lt =
      elim (Option-cases (place_kinds (kind_at a.dst) (kind_at a.src) a nodes)) [
        | inl e ↦ absurd (place_accepts a nodes here e)
        | inr ((nodes', now), e) ↦
            rw (e, place)
              (place_values moves nodes' reg d rest unique lt
                ∙ rw (place_nodes a nodes nodes' now d lt e) (choice _ refl))
      ]
    where
      choice :
          (b : Bool)
          → (a.dst == d && ltb a.src reg_count) ≡ b
          → early_value reg moves d (node_value slot memory reg (if b then info a else nodes d)) ≡ (
              if b
              then value slot memory reg a
              else early_value reg moves d (node_value slot memory reg (nodes d)))
      choice true p =
          let same : a.dst ≡ d = ground arith in
          early_value-untargeted reg moves d _ (rw same at fresh)
          ∙ node_value-info a reg (ground arith)
      choice false p = refl

  -- Only assignments to parameter slots are carried out at once.
  pub place-run :
      (a : Assignment) (nodes nodes' : Nodes) (now : List Instr) (m : Machine V)
      → place_kinds (kind_at a.dst) (kind_at a.src) a nodes ≡ some (nodes', now)
      → ((d : ℕ) → (run slot memory now m).reg d ≡ m.reg d)
        × ((p : ℕ)
            → (run slot memory now m).param p
              ≡ (if a.dst == reg_count + p then value slot memory m.reg a else m.param p))
  unfolding place_kinds run exec
  place-run a nodes nodes' now m h = (λ d. ground arith, λ p. ground arith)

  pub place-run-values :
      (moves : List Assignment) (nodes : Nodes) (m : Machine V)
      → AllSupported moves
      → Distinct moves
      → ((d : ℕ) → (run slot memory (place moves nodes).emitted m).reg d ≡ m.reg d)
        × ((p : ℕ)
            → (run slot memory (place moves nodes).emitted m).param p
              ≡ intended m.reg moves (reg_count + p) (m.param p))
  unfolding place run
  place-run-values [] nodes m h u = (λ d. refl, λ p. refl)
  place-run-values (a ∷ moves) nodes m (here, rest) (fresh, unique) =
      elim (Option-cases (place_kinds (kind_at a.dst) (kind_at a.src) a nodes)) [
        | inl e ↦ absurd (place_accepts a nodes here e)
        | inr ((nodes', now), e) ↦
            let (regs, params) = place-run a nodes nodes' now m e in
            let (regs', params') =
              place-run-values moves nodes' (run slot memory now m) rest unique in
            rw (e, place, run-append slot memory now (place moves nodes').emitted m)
              (
                λ d. regs' d ∙ regs d,
                λ p.
                    params' p
                    ∙ rw (fun_ext regs) (
                        rw (params p)
                          (intended-head m.reg a moves (reg_count + p) (m.param p) fresh)),
              )
      ]

  -- The last loop writes what comes from a stack slot, and no parameter slot.
  late_kinds-run :
      (a : Assignment) (m : Machine V) (reg : ℕ → V)
      → ((d : ℕ)
          → d < reg_count
          → (run slot memory (late_kinds (kind_at a.dst) (kind_at a.src) a) m).reg d ≡ (
              if a.dst == d && not (ltb a.src reg_count) then value slot memory reg a else m.reg d))
        × ((p : ℕ)
            → (run slot memory (late_kinds (kind_at a.dst) (kind_at a.src) a) m).param p
              ≡ m.param p)
  unfolding late_kinds run exec
  late_kinds-run a m reg = (λ d lt. ground arith, λ p. ground arith)

  pub late-run :
      (moves : List Assignment) (m : Machine V) (reg : ℕ → V)
      → Distinct moves
      → ((d : ℕ)
          → d < reg_count
          → (run slot memory (late moves) m).reg d ≡ late_value reg moves d (m.reg d))
        × ((p : ℕ) → (run slot memory (late moves) m).param p ≡ m.param p)
  unfolding late run
  late-run [] m reg u = (λ d lt. refl, λ p. refl)
  late-run (a ∷ moves) m reg (fresh, unique) =
      let now : List Instr = late_kinds (kind_at a.dst) (kind_at a.src) a in
      let (regs, params) = late_kinds-run a m reg in
      let (regs', params') = late-run moves (run slot memory now m) reg unique in
      rw (run-append slot memory now (late moves) m) (
        λ d lt. regs' d lt ∙ rw (regs d lt) (late_value-head reg a moves d (m.reg d) fresh),
        λ p. params' p ∙ params p,
      )
