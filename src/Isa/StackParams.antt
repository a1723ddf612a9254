-- ===== src/Isa/StackParams.antt =====
-- src/cbc/isa_rt.h and emitter/encoding_rt.cpp: stores of the parameters that a call passes on the
-- stack. An IReg and an FReg is its number.
pub mod RoundTrip
use cbc_engine.Prelude.{ltb, ℕ, ◌*◌, ◌/◌, ◌%◌, ◌^◌, List, ◌++◌}
use cbc_engine.Prelude.Int.{ℤ}
use cbc_engine.Word.{w16, w32, sget, to_unsigned}
use cbc_engine.Isa.{Reader, ◌>>=◌, pure, run, read, bytes_of, ◌>>◌, assert, ireg_count}
use cbc_engine.Isa.Fields.{above_4}

pub record StackParam : Type 0 where
  pub opc : ℕ
  pub src : ℕ
  pub dst : ℕ

pub decode_stack_param : Reader StackParam
decode_stack_param bytes = run bytes do
  opc ← read 1
  b ← read 1
  dst ← read 2
  assert (ltb (above_4 b) ireg_count)
  pure (record { opc = opc; src = above_4 b; dst = dst })

unfoldable pub encode_stack_param : StackParam → List ℕ
encode_stack_param command =
    bytes_of 1 command.opc ++ (bytes_of 1 (command.src * 2 ^ 4) ++ bytes_of 2 command.dst)

pub record StackParamF : Type 0 where
  pub opc : ℕ
  pub src : ℕ
  pub dst : ℕ

pub decode_stack_param_f : Reader StackParamF
decode_stack_param_f bytes = run bytes do
  opc ← read 1
  b ← read 1
  dst ← read 2
  pure (record { opc = opc; src = above_4 b; dst = dst })

unfoldable pub encode_stack_param_f : StackParamF → List ℕ
encode_stack_param_f command =
    bytes_of 1 command.opc ++ (bytes_of 1 (command.src * 2 ^ 4) ++ bytes_of 2 command.dst)

pub record LeaStackParam : Type 0 where
  pub opc : ℕ
  pub dst : ℕ
  pub offset : ℕ

pub decode_lea_stack_param : Reader LeaStackParam
decode_lea_stack_param bytes = run bytes do
  opc ← read 1
  b ← read 1
  offset ← read 2
  assert (ltb (above_4 b) ireg_count)
  pure (record { opc = opc; dst = above_4 b; offset = offset })

unfoldable pub encode_lea_stack_param : LeaStackParam → List ℕ
encode_lea_stack_param command =
    bytes_of 1 command.opc ++ (bytes_of 1 (command.dst * 2 ^ 4) ++ bytes_of 2 command.offset)

pub record StackParamS16 : Type 0 where
  pub opc : ℕ
  pub src : ℤ
  pub dst : ℕ

pub decode_stack_param_s16 : Reader StackParamS16
decode_stack_param_s16 bytes = run bytes do
  opc ← read 1
  src ← read 2
  dst ← read 2
  pure (record { opc = opc; src = sget w16 src; dst = dst })

unfoldable pub encode_stack_param_s16 : StackParamS16 → List ℕ
encode_stack_param_s16 command =
    bytes_of 1 command.opc ++ (bytes_of 2 (to_unsigned w16 command.src) ++ bytes_of 2 command.dst)

pub record StackParamS32 : Type 0 where
  pub opc : ℕ
  pub src : ℤ
  pub dst : ℕ

pub decode_stack_param_s32 : Reader StackParamS32
decode_stack_param_s32 bytes = run bytes do
  opc ← read 1
  src ← read 4
  dst ← read 2
  pure (record { opc = opc; src = sget w32 src; dst = dst })

unfoldable pub encode_stack_param_s32 : StackParamS32 → List ℕ
encode_stack_param_s32 command =
    bytes_of 1 command.opc ++ (bytes_of 4 (to_unsigned w32 command.src) ++ bytes_of 2 command.dst)
