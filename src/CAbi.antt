-- ===== src/CAbi.antt =====
-- src/cbc/c_abi.h, c_abi.cpp and platforms.h: where a structure goes that a C function takes or
-- returns by value. `none` is a failed ASSERT. The fields are those that FlattenCAbiFields collects
-- from the layout of a type, which is left out.
pub mod Returns
pub mod Pieces
pub mod Runs
use cbc_engine.Prelude.{
  ℕ, zero, suc, ◌+◌, ◌-◌, ◌/◌, min, ltb, leb, ◌==◌, if◌then◌else◌, List, [], ◌∷◌,
}
use cbc_engine.Prelude.{Bool, true, false, not, ◌&&◌, ◌||◌, Option, none, some, length, map}
use cbc_engine.Prelude.Partial.{◌>>=◌, ◌>>◌, assert}
use cbc_engine.Abi.{CbcTypeKind, is_float, f64, f32, i64, i32, u16, u8}

pub data CAbi : Type 0 where
  sysv aapcs64 : CAbi

pub record CAbiField : Type 0 where
  pub offset : ℕ
  pub size : ℕ
  pub is_float_field : Bool

pub record CAbiPiece : Type 0 where
  pub at : ℕ
  pub kind : CbcTypeKind

pub data CAbiPassBy : Type 0 where
  empty regs stack by_ref : CAbiPassBy

pub record CAbiStructPlan : Type 0 where
  pub pass_by : CAbiPassBy
  pub pieces : List CAbiPiece

-- PlatformTraits, as far as the classification reads it: the numbers of the registers for results.
pub record Traits : Type 0 where
  pub c_abi : CAbi
  pub only_onstack_varargs : Bool
  pub ret_iregs : List ℕ
  pub ret_fregs : List ℕ

abbrev pub linux_x64 : Traits
linux_x64 = record {
  c_abi = sysv;
  only_onstack_varargs = false;
  ret_iregs = 1 ∷ 2 ∷ [];
  ret_fregs = 0 ∷ 1 ∷ [];
}

abbrev pub linux_aarch64 : Traits
linux_aarch64 = record {
  c_abi = aapcs64;
  only_onstack_varargs = false;
  ret_iregs = 1 ∷ 2 ∷ [];
  ret_fregs = 0 ∷ 1 ∷ 2 ∷ 3 ∷ [];
}

unfoldable pub piece_kind : ℕ → Bool → CbcTypeKind
piece_kind size true = if size == 8 then f64 else f32
piece_kind size false =
    if size == 8 then i64 else if size == 4 then i32 else if size == 2 then u16 else u8

-- The inner loop of ClassifySysV: whether the fields of a piece are floating-point.
unfoldable pub all_float : ℕ → ℕ → List CAbiField → Option Bool
all_float lo hi [] = some true
all_float lo hi (f ∷ fs) =
    let rest = all_float lo hi fs in
    if leb (f.offset + f.size) lo || leb hi f.offset
    then rest
    else if leb lo f.offset && leb (f.offset + f.size) hi
    then (rest >>= λ more. some (f.is_float_field && more))
    else none

-- The outer loop: a round for each 8 bytes that begin below the size.
unfoldable pub sysv_pieces : ℕ → ℕ → ℕ → List CAbiField → Option (List CAbiPiece)
sysv_pieces zero lo size fields = some []
sysv_pieces (suc rounds) lo size fields = do
  let hi = min (lo + 8) size
  float ← all_float lo hi fields
  pieces ← sysv_pieces rounds (lo + 8) size fields
  some (record { at = lo; kind = piece_kind (hi - lo) float } ∷ pieces)

abbrev pub plan_of : CAbiPassBy → CAbiStructPlan
plan_of by = record { pass_by = by; pieces = [] }

unfoldable pub classify_sysv : List CAbiField → ℕ → Option CAbiStructPlan
classify_sysv fields size =
    if size == 0
    then some (plan_of empty)
    else if ltb 16 size
    then some (plan_of stack)
    else (sysv_pieces ((size + 7) / 8) 0 size fields >>= λ pieces.
        some (record { pass_by = regs; pieces = pieces }))

-- ClassifyAAPCS64: 1 to 4 floating-point fields of the same size, or pieces of 8 bytes.
pub homogeneous : ℕ → List CAbiField → Bool
homogeneous size [] = true
homogeneous size (f ∷ fs) = f.is_float_field && (f.size == size) && homogeneous size fs

pub is_hfa : List CAbiField → Bool
is_hfa [] = false
is_hfa (f ∷ fs) =
    leb (length fs) 3
    && (f.size == 2 || (f.size == 4 || f.size == 8))
    && homogeneous f.size (f ∷ fs)

pub hfa_piece : CAbiField → CAbiPiece
hfa_piece f = record { at = f.offset; kind = piece_kind f.size true }

pub integer_pieces : ℕ → ℕ → ℕ → List CAbiPiece
integer_pieces zero lo size = []
integer_pieces (suc rounds) lo size =
    record { at = lo; kind = piece_kind (min 8 (size - lo)) false }
    ∷ integer_pieces rounds (lo + 8) size

pub classify_aapcs64 : List CAbiField → ℕ → CAbiStructPlan
classify_aapcs64 fields size =
    if size == 0
    then plan_of empty
    else if is_hfa fields
    then record { pass_by = regs; pieces = map hfa_piece fields }
    else if ltb 16 size
    then plan_of by_ref
    else record { pass_by = regs; pieces = integer_pieces ((size + 7) / 8) 0 size }

-- The registers that the pieces need.
pub count_kind : Bool → List CAbiPiece → ℕ
count_kind float [] = 0
count_kind float (p ∷ ps) =
    let rest = count_kind float ps in
    if is_float p.kind
    then (if float then suc rest else rest)
    else (if float then rest else suc rest)

pub by_convention : CAbi → List CAbiField → ℕ → Option CAbiStructPlan
by_convention sysv fields size = classify_sysv fields size
by_convention aapcs64 fields size = some (classify_aapcs64 fields size)

-- The tail of ClassifyCAbiStruct for a plan in registers: for a result the registers have to be
-- enough, an argument goes to the stack where they are not.
pub placed_in_regs : Traits → Bool → ℕ → ℕ → Bool → CAbiStructPlan → Option CAbiStructPlan
placed_in_regs t is_var_arg free_iregs free_fregs true plan = do
  assert (leb (count_kind false plan.pieces) free_iregs)
  assert (leb (count_kind true plan.pieces) free_fregs)
  some plan
placed_in_regs t is_var_arg free_iregs free_fregs false plan = some (
    if (is_var_arg && t.only_onstack_varargs)
      || (ltb free_iregs (count_kind false plan.pieces)
          || ltb free_fregs (count_kind true plan.pieces))
    then plan_of stack
    else plan)

pub in_regs : CAbiPassBy → Bool
in_regs regs = true
in_regs _ = false

-- ClassifyCAbiStruct and ClassifyCAbiStructRet.
pub classify_c_abi_struct :
    Traits → List CAbiField → ℕ → Bool → ℕ → ℕ → Bool → Option CAbiStructPlan
classify_c_abi_struct t fields size is_var_arg free_iregs free_fregs ret = do
  plan ← by_convention t.c_abi fields size
  if in_regs plan.pass_by
      then placed_in_regs t is_var_arg free_iregs free_fregs ret plan
      else some plan

pub classify_c_abi_struct_ret : Traits → List CAbiField → ℕ → Option CAbiStructPlan
classify_c_abi_struct_ret t fields size =
    classify_c_abi_struct t fields size false (length t.ret_iregs) (length t.ret_fregs) true
