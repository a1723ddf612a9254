-- ===== src/Isa/StackParams/RoundTrip.antt =====
-- What Encode writes of the parameters on the stack, Decode reads back.
use mathlib.Core.List.{append_assoc}
use cbc_engine.Prelude.{ltb, true, ℕ, ◌*◌, ◌^◌, ◌<◌, ◌≡◌, List, ◌++◌, some, arith}
use cbc_engine.Prelude.Int.{ℤ, pos, negsuc}
use cbc_engine.Word.{Width, w8, w16, w32, w64, InRange, modulus, sget, to_unsigned}
use cbc_engine.Isa.Fields.{above_4}
use cbc_engine.Isa.Fields.RoundTrip.{read_fit}
use cbc_engine.Isa.StackParams.{
  StackParam, decode_stack_param, encode_stack_param, StackParamF, decode_stack_param_f,
  encode_stack_param_f, LeaStackParam, decode_lea_stack_param, encode_lea_stack_param,
  StackParamS16, decode_stack_param_s16, encode_stack_param_s16, StackParamS32,
  decode_stack_param_s32, encode_stack_param_s32,
}

-- A signed number as the bits of its type.
pub sget-to_unsigned : (w : Width) (z : ℤ) → InRange w z → sget w (to_unsigned w z) ≡ z
unfolding sget
sget-to_unsigned w8 (pos n) h = ground arith
sget-to_unsigned w8 (negsuc n) h = ground arith
sget-to_unsigned w16 (pos n) h = ground arith
sget-to_unsigned w16 (negsuc n) h = ground arith
sget-to_unsigned w32 (pos n) h = ground arith
sget-to_unsigned w32 (negsuc n) h = ground arith
sget-to_unsigned w64 (pos n) h = ground arith
sget-to_unsigned w64 (negsuc n) h = ground arith

pub to_unsigned-lt : (w : Width) (z : ℤ) → to_unsigned w z < modulus w
to_unsigned-lt w8 (pos n) = omega arith
to_unsigned-lt w8 (negsuc n) = omega arith
to_unsigned-lt w16 (pos n) = omega arith
to_unsigned-lt w16 (negsuc n) = omega arith
to_unsigned-lt w32 (pos n) = omega arith
to_unsigned-lt w32 (negsuc n) = omega arith
to_unsigned-lt w64 (pos n) = omega arith
to_unsigned-lt w64 (negsuc n) = omega arith

above_4-shifted : (r : ℕ) → above_4 (r * 2 ^ 4) ≡ r
above_4-shifted r = omega arith

abbrev pub FitStackParam : StackParam → Type 0
FitStackParam c = (c.opc < 2 ^ 8) × (c.src < 15) × (c.dst < 2 ^ 16)

pub decode_stack_param-encode_stack_param :
    (c : StackParam) (rest : List ℕ)
    → FitStackParam c
    → decode_stack_param (encode_stack_param c ++ rest) ≡ some (c, rest)
unfolding decode_stack_param encode_stack_param
decode_stack_param-encode_stack_param c rest h =
    let byte : c.src * 2 ^ 4 < 256 = omega arith in
    let named : ltb c.src 15 ≡ true = ground arith in
    simp (
      named,
      append_assoc,
      read_fit 1 c.opc _ h.0,
      read_fit 1 (c.src * 2 ^ 4) _ byte,
      above_4-shifted c.src,
      read_fit 2 c.dst _ h.2,
    )

abbrev pub FitStackParamF : StackParamF → Type 0
FitStackParamF c = (c.opc < 2 ^ 8) × (c.src < 16) × (c.dst < 2 ^ 16)

pub decode_stack_param_f-encode_stack_param_f :
    (c : StackParamF) (rest : List ℕ)
    → FitStackParamF c
    → decode_stack_param_f (encode_stack_param_f c ++ rest) ≡ some (c, rest)
unfolding decode_stack_param_f encode_stack_param_f
decode_stack_param_f-encode_stack_param_f c rest h =
    let byte : c.src * 2 ^ 4 < 256 = omega arith in
    simp (
      append_assoc,
      read_fit 1 c.opc _ h.0,
      read_fit 1 (c.src * 2 ^ 4) _ byte,
      above_4-shifted c.src,
      read_fit 2 c.dst _ h.2,
    )

abbrev pub FitLeaStackParam : LeaStackParam → Type 0
FitLeaStackParam c = (c.opc < 2 ^ 8) × (c.dst < 15) × (c.offset < 2 ^ 16)

pub decode_lea_stack_param-encode_lea_stack_param :
    (c : LeaStackParam) (rest : List ℕ)
    → FitLeaStackParam c
    → decode_lea_stack_param (encode_lea_stack_param c ++ rest) ≡ some (c, rest)
unfolding decode_lea_stack_param encode_lea_stack_param
decode_lea_stack_param-encode_lea_stack_param c rest h =
    let byte : c.dst * 2 ^ 4 < 256 = omega arith in
    let named : ltb c.dst 15 ≡ true = ground arith in
    simp (
      named,
      append_assoc,
      read_fit 1 c.opc _ h.0,
      read_fit 1 (c.dst * 2 ^ 4) _ byte,
      above_4-shifted c.dst,
      read_fit 2 c.offset _ h.2,
    )

abbrev pub FitStackParamS16 : StackParamS16 → Type 0
FitStackParamS16 c = (c.opc < 2 ^ 8) × InRange w16 c.src × (c.dst < 2 ^ 16)

pub decode_stack_param_s16-encode_stack_param_s16 :
    (c : StackParamS16) (rest : List ℕ)
    → FitStackParamS16 c
    → decode_stack_param_s16 (encode_stack_param_s16 c ++ rest) ≡ some (c, rest)
unfolding decode_stack_param_s16 encode_stack_param_s16
decode_stack_param_s16-encode_stack_param_s16 c rest h = simp (
  append_assoc,
  read_fit 1 c.opc _ h.0,
  read_fit 2 (to_unsigned w16 c.src) _ (to_unsigned-lt w16 c.src),
  sget-to_unsigned w16 c.src h.1,
  read_fit 2 c.dst _ h.2,
)

abbrev pub FitStackParamS32 : StackParamS32 → Type 0
FitStackParamS32 c = (c.opc < 2 ^ 8) × InRange w32 c.src × (c.dst < 2 ^ 16)

pub decode_stack_param_s32-encode_stack_param_s32 :
    (c : StackParamS32) (rest : List ℕ)
    → FitStackParamS32 c
    → decode_stack_param_s32 (encode_stack_param_s32 c ++ rest) ≡ some (c, rest)
unfolding decode_stack_param_s32 encode_stack_param_s32
decode_stack_param_s32-encode_stack_param_s32 c rest h = simp (
  append_assoc,
  read_fit 1 c.opc _ h.0,
  read_fit 4 (to_unsigned w32 c.src) _ (to_unsigned-lt w32 c.src),
  sget-to_unsigned w32 c.src h.1,
  read_fit 2 c.dst _ h.2,
)
