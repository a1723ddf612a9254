-- ===== src/CAbi/Returns.antt =====
-- The registers for results are enough.
use cbc_engine.Prelude.{
  ℕ, zero, suc, ◌+◌, ◌-◌, ◌/◌, ◌≤◌, min, ltb, leb, ◌==◌, if◌then◌else◌, List, [], ◌∷◌, ◌≡◌, refl,
  ap, inl, inr,
}
use cbc_engine.Prelude.{Bool, Bool-cases, true, false, ◌&&◌, some, length, length-map, map, arith}
use cbc_engine.Prelude.Partial.{◌>>=◌, >>=-eq-some}
use cbc_engine.Abi.{is_float}
use cbc_engine.CAbi.{
  CAbiField, CAbiPiece, CAbiStructPlan, Traits, linux_x64, linux_aarch64, piece_kind, all_float,
  sysv_pieces, classify_sysv, is_hfa, hfa_piece, integer_pieces, classify_aapcs64, count_kind,
  in_regs, placed_in_regs, plan_of, empty, regs, stack, by_ref, by_convention,
  classify_c_abi_struct, classify_c_abi_struct_ret,
}

-- There are no more of a kind than there are pieces.
count_kind-le : (float : Bool) (ps : List CAbiPiece) → count_kind float ps ≤ length ps
unfolding count_kind
count_kind-le float [] = omega arith
count_kind-le true (p ∷ ps) = ground (arith, count_kind-le true ps)
count_kind-le false (p ∷ ps) = ground (arith, count_kind-le false ps)

length-sysv_pieces :
    (rounds lo size : ℕ) (fields : List CAbiField) {ps : List CAbiPiece}
    → sysv_pieces rounds lo size fields ≡ some ps
    → length ps ≡ rounds
unfolding sysv_pieces
length-sysv_pieces zero lo size fields {ps} h = let e : ps ≡ [] = cc in rw e refl
length-sysv_pieces (suc rounds) lo size fields {ps} h =
    let (float, e0, h1) = >>=-eq-some (all_float lo (min (lo + 8) size) fields) _ h in
    let (more, e, h2) = >>=-eq-some (sysv_pieces rounds (lo + 8) size fields) _ h1 in
    let p : CAbiPiece = record { at = lo; kind = piece_kind (min (lo + 8) size - lo) float } in
    let same : ps ≡ p ∷ more = cc in
    rw same (ap suc (length-sysv_pieces rounds (lo + 8) size fields e))

-- A plan for which the registers are enough is the result.
enough :
    (t : Traits) (plan : CAbiStructPlan) (i f : ℕ)
    → count_kind false plan.pieces ≤ i
    → count_kind true plan.pieces ≤ f
    → (if in_regs plan.pass_by then placed_in_regs t false i f true plan else some plan) ≡ some plan
unfolding placed_in_regs
enough t plan i f a b =
    let x : leb (count_kind false plan.pieces) i ≡ true = ground arith in
    let y : leb (count_kind true plan.pieces) f ≡ true = ground arith in
    elim (Bool-cases (in_regs plan.pass_by)) [ inl r ↦ rw (r, x, y) refl | inr r ↦ rw r refl ]

-- A plan of ClassifySysV has at most two pieces.
sysv_cases :
    (fields : List CAbiField) (size : ℕ) (plan : CAbiStructPlan) (none_at_all big : Bool)
    → (big ≡ false → size ≤ 16)
    → (if none_at_all
        then some (plan_of empty)
        else if big
        then some (plan_of stack)
        else (sysv_pieces ((size + 7) / 8) 0 size fields >>= λ pieces.
            some (record { pass_by = regs; pieces = pieces })))
      ≡ some plan
    → length plan.pieces ≤ 2
sysv_cases fields size plan true big l h = let e : plan ≡ plan_of empty = cc in rw e (omega arith)
sysv_cases fields size plan false true l h = let e : plan ≡ plan_of stack = cc in rw e (omega arith)
sysv_cases fields size plan false false l h =
    let (pieces, e, h1) = >>=-eq-some (sysv_pieces ((size + 7) / 8) 0 size fields) _ h in
    let same : plan ≡ record { pass_by = regs; pieces = pieces } = cc in
    let small : size ≤ 16 = l refl in
    rw same (omega (arith, small, length-sysv_pieces ((size + 7) / 8) 0 size fields e))

sysv_small :
    (fields : List CAbiField) (size : ℕ) (plan : CAbiStructPlan)
    → classify_sysv fields size ≡ some plan
    → length plan.pieces ≤ 2
unfolding classify_sysv
sysv_small fields size plan h =
    sysv_cases fields size plan (size == 0) (ltb 16 size) (λ e. ground arith) h

-- On Linux and x86-64, the classification of a result gives what the convention says: the two general
-- and the two floating-point registers are always enough, and no ASSERT of the registers fails.
pub classify_c_abi_struct_ret-sysv :
    (fields : List CAbiField) (size : ℕ) (plan : CAbiStructPlan)
    → classify_sysv fields size ≡ some plan
    → classify_c_abi_struct_ret linux_x64 fields size ≡ some plan
unfolding classify_c_abi_struct_ret classify_c_abi_struct by_convention
classify_c_abi_struct_ret-sysv fields size plan h =
    let small : length plan.pieces ≤ 2 = sysv_small fields size plan h in
    rw h (
      enough linux_x64 plan 2 2 (omega (arith, count_kind-le false plan.pieces))
        (omega (arith, count_kind-le true plan.pieces)))

-- The pieces of a homogeneous aggregate are floating-point.
is_float-piece_kind : (size : ℕ) → is_float (piece_kind size true) ≡ true
unfolding piece_kind
is_float-piece_kind size = elim (Bool-cases (size == 8)) [ inl e ↦ rw e refl | inr e ↦ rw e refl ]

count_kind-hfa : (fields : List CAbiField) → count_kind false (map hfa_piece fields) ≡ 0
unfolding count_kind hfa_piece
count_kind-hfa [] = refl
count_kind-hfa (f ∷ fs) = rw (is_float-piece_kind f.size) (count_kind-hfa fs)

is_hfa-length : (fields : List CAbiField) → is_hfa fields ≡ true → length fields ≤ 4
unfolding is_hfa
is_hfa-length [] h = omega arith
is_hfa-length (f ∷ fs) h =
    let few : leb (length fs) 3 ≡ true = first (leb (length fs) 3) _ _ h in ground (arith, few)
  where
    first : (a b c : Bool) → a && b && c ≡ true → a ≡ true
    first true b c e = refl
    first false b c e = absurd cc

length-integer_pieces : (rounds lo size : ℕ) → length (integer_pieces rounds lo size) ≡ rounds
unfolding integer_pieces
length-integer_pieces zero lo size = refl
length-integer_pieces (suc rounds) lo size = ap suc (length-integer_pieces rounds (lo + 8) size)

FewPieces : CAbiStructPlan → Type 0
FewPieces plan = (count_kind false plan.pieces ≤ 2) × (count_kind true plan.pieces ≤ 4)

aapcs64_cases :
    (fields : List CAbiField) (size : ℕ) (none_at_all hfa big : Bool)
    → (big ≡ false → size ≤ 16)
    → (hfa ≡ true → length fields ≤ 4)
    → FewPieces (
        if none_at_all
        then plan_of empty
        else if hfa
        then record { pass_by = regs; pieces = map hfa_piece fields }
        else if big
        then plan_of by_ref
        else record { pass_by = regs; pieces = integer_pieces ((size + 7) / 8) 0 size })
unfolding FewPieces count_kind
aapcs64_cases fields size true hfa big l few = (omega arith, omega arith)
aapcs64_cases fields size false true big l few =
    let four : length fields ≤ 4 = few refl in
    (
      omega (arith, count_kind-hfa fields),
      omega (arith, four, count_kind-le true (map hfa_piece fields), length-map fields hfa_piece),
    )
aapcs64_cases fields size false false true l few = (omega arith, omega arith)
aapcs64_cases fields size false false false l few =
    let small : size ≤ 16 = l refl in
    let ps = integer_pieces ((size + 7) / 8) 0 size in
    let two : length ps ≤ 2 = omega (arith, small, length-integer_pieces ((size + 7) / 8) 0 size) in
    (omega (arith, two, count_kind-le false ps), omega (arith, two, count_kind-le true ps))

-- On Linux and AArch64, the classification of a result always gives what the convention says: the two
-- general and the four floating-point registers are enough for every structure.
pub classify_c_abi_struct_ret-aapcs64 :
    (fields : List CAbiField) (size : ℕ)
    → classify_c_abi_struct_ret linux_aarch64 fields size ≡ some (classify_aapcs64 fields size)
unfolding classify_c_abi_struct_ret classify_c_abi_struct by_convention classify_aapcs64 FewPieces
classify_c_abi_struct_ret-aapcs64 fields size =
    let few : FewPieces (classify_aapcs64 fields size) =
      aapcs64_cases fields size (size == 0) (is_hfa fields) (ltb 16 size) (λ e. ground arith)
        (is_hfa-length fields) in
    enough linux_aarch64 (classify_aapcs64 fields size) 2 4 few.0 few.1
