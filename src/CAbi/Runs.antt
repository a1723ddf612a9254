-- ===== src/CAbi/Runs.antt =====
-- Runs of the classification.
use cbc_engine.Prelude.{◌+◌, ◌/◌, ◌≡◌, refl, [], ◌∷◌, true, false, some, List, arith}
use cbc_engine.CAbi.{
  CAbiField, CAbiStructPlan, classify_sysv, classify_aapcs64, sysv_pieces, all_float, piece_kind,
  regs, linux_x64, linux_aarch64, classify_c_abi_struct_ret, integer_pieces,
}
use cbc_engine.CAbi.Returns.{classify_c_abi_struct_ret-sysv, classify_c_abi_struct_ret-aapcs64}
use cbc_engine.CAbi.Pieces.{loaded, held, integer_pieces-loaded}
use cbc_engine.Abi.{f64, i64}

-- struct { double; int64_t }
abbrev mixed : List CAbiField
mixed =
    record { offset = 0; size = 8; is_float_field = true }
    ∷ record { offset = 8; size = 8; is_float_field = false }
    ∷ []

abbrev mixed_plan : CAbiStructPlan
mixed_plan = record {
  pass_by = regs;
  pieces = record { at = 0; kind = f64 } ∷ record { at = 8; kind = i64 } ∷ [];
}

mixed_sysv : classify_sysv mixed 16 ≡ some mixed_plan
unfolding classify_sysv sysv_pieces all_float piece_kind
mixed_sysv = refl

classify_c_abi_struct_ret-sysv_example :
    classify_c_abi_struct_ret linux_x64 mixed 16 ≡ some mixed_plan
classify_c_abi_struct_ret-sysv_example =
    classify_c_abi_struct_ret-sysv mixed 16 mixed_plan mixed_sysv

classify_c_abi_struct_ret-aapcs64_example :
    classify_c_abi_struct_ret linux_aarch64 mixed 16 ≡ some (classify_aapcs64 mixed 16)
classify_c_abi_struct_ret-aapcs64_example = classify_c_abi_struct_ret-aapcs64 mixed 16

-- struct { uint16_t[3] }: one byte of six.
integer_pieces-loaded_example : loaded (integer_pieces ((6 + 7) / 8) 0 6) ≡ held 6
integer_pieces-loaded_example = integer_pieces-loaded 6 (omega arith) (omega arith)

six : held 6 ≡ 1
unfolding held
six = refl
