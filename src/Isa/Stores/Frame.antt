-- ===== src/Isa/Stores/Frame.antt =====
-- What Encode writes of a StoreFrameImm, Decode reads back, at the size of each opcode.
use mathlib.Core.List.{append_assoc}
use native.Mathlib.Nat.{mod-eq_of_lt, mod-lt}
use cbc_engine.Prelude.{
  leb, ℕ, ◌-◌, ◌%◌, ◌^◌, ◌≤◌, ◌<◌, ◌≡◌, ◌⊎◌, inl, inr, true, refl, ◌∙◌, List, ◌++◌, some, arith,
}
use cbc_engine.Prelude.Int.{ℤ}
use cbc_engine.Word.{w32, InRange, to_unsigned}
use cbc_engine.Bits.{sign_extend_64, is_n_bits_signed_64}
use cbc_engine.Bits.Extension.{sign_extend_64-value}
use cbc_engine.Isa.Opcode
use cbc_engine.Isa.Fields.RoundTrip.{read_fit}
use cbc_engine.Isa.StackParams.RoundTrip.{sget-to_unsigned, to_unsigned-lt}
use cbc_engine.Isa.Stores.{
  StoreFrameImm, decode_store_frame_imm, encode_store_frame_imm, decode_store_frame_imm_1,
  decode_store_frame_imm_2, decode_store_frame_imm_4, decode_store_frame_imm_8, imm_bytes,
}
use cbc_engine.Isa.Stores.RoundTrip.{peek_opcode-bytes_of}

-- The 64 bits are those of a signed number of a smaller size.
abbrev pub IsExtended : ℕ → ℕ → Type 0
IsExtended bits imm = (imm < 2 ^ (bits - 1)) ⊎ ((2 ^ 64 - 2 ^ (bits - 1) ≤ imm) × (imm < 2 ^ 64))

extended_8 : (imm : ℕ) → IsExtended 8 imm → sign_extend_64 (imm % 2 ^ 8) 8 ≡ imm
extended_8 imm h = sign_extend_64-value (imm % 2 ^ 8) 7 (omega arith) ∙ ground arith

extended_16 : (imm : ℕ) → IsExtended 16 imm → sign_extend_64 (imm % 2 ^ 16) 16 ≡ imm
extended_16 imm h = sign_extend_64-value (imm % 2 ^ 16) 15 (omega arith) ∙ ground arith

extended_32 : (imm : ℕ) → IsExtended 32 imm → sign_extend_64 (imm % 2 ^ 32) 32 ≡ imm
extended_32 imm h = sign_extend_64-value (imm % 2 ^ 32) 31 (omega arith) ∙ ground arith

signed_8 : (imm : ℕ) → IsExtended 8 imm → is_n_bits_signed_64 imm 8 ≡ true
unfolding is_n_bits_signed_64
signed_8 imm h = ground arith

signed_16 : (imm : ℕ) → IsExtended 16 imm → is_n_bits_signed_64 imm 16 ≡ true
unfolding is_n_bits_signed_64
signed_16 imm h = ground arith

signed_32 : (imm : ℕ) → IsExtended 32 imm → is_n_bits_signed_64 imm 32 ≡ true
unfolding is_n_bits_signed_64
signed_32 imm h = ground arith

signed_64 : (imm : ℕ) → is_n_bits_signed_64 imm 64 ≡ true
unfolding is_n_bits_signed_64
signed_64 imm = refl

-- The immediate fits the size of the opcode.
abbrev FitImm : ℕ → ℕ → Type 0
FitImm opc imm =
    (opc ≡ Opcode.store_frame_imm_1) × IsExtended 8 imm
    ⊎ ((opc ≡ Opcode.store_frame_imm_2) × IsExtended 16 imm
        ⊎ ((opc ≡ Opcode.store_frame_imm_4) × IsExtended 32 imm
            ⊎ (opc ≡ Opcode.store_frame_imm_8) × (imm < 2 ^ 64)))

abbrev pub FitStoreFrameImm : StoreFrameImm → Type 0
FitStoreFrameImm c = FitImm c.opc c.imm × (c.stk < 8) × InRange w32 c.offs

-- The four opcodes, on the fields.
module _ (stk imm : ℕ) (offs : ℤ) (rest : List ℕ) (b : stk < 8) (o : InRange w32 offs) where
  store_frame_imm : ℕ → StoreFrameImm
  store_frame_imm opc = record { opc = opc; stk = stk; imm = imm; offs = offs }

  byte : stk < 2 ^ 8
  byte = omega arith

  named : leb stk 7 ≡ true
  named = ground arith

  read_back_1 :
      IsExtended 8 imm
      → decode_store_frame_imm
          (encode_store_frame_imm (store_frame_imm Opcode.store_frame_imm_1) ++ rest)
        ≡ some (store_frame_imm Opcode.store_frame_imm_1, rest)
  unfolding decode_store_frame_imm encode_store_frame_imm decode_store_frame_imm_1 imm_bytes
      store_frame_imm
  read_back_1 h = simp (
    append_assoc,
    peek_opcode-bytes_of Opcode.store_frame_imm_1 _ (omega arith),
    read_fit 1 Opcode.store_frame_imm_1 _ (omega arith),
    mod-eq_of_lt byte,
    named,
    read_fit 1 stk _ byte,
    read_fit 1 (imm % 2 ^ 8) _ (mod-lt imm (omega arith)),
    extended_8 imm h,
    signed_8 imm h,
    read_fit 4 (to_unsigned w32 offs) _ (to_unsigned-lt w32 offs),
    sget-to_unsigned w32 offs o,
  )

  read_back_2 :
      IsExtended 16 imm
      → decode_store_frame_imm
          (encode_store_frame_imm (store_frame_imm Opcode.store_frame_imm_2) ++ rest)
        ≡ some (store_frame_imm Opcode.store_frame_imm_2, rest)
  unfolding decode_store_frame_imm encode_store_frame_imm decode_store_frame_imm_2 imm_bytes
      store_frame_imm
  read_back_2 h = simp (
    append_assoc,
    peek_opcode-bytes_of Opcode.store_frame_imm_2 _ (omega arith),
    read_fit 1 Opcode.store_frame_imm_2 _ (omega arith),
    mod-eq_of_lt byte,
    named,
    read_fit 1 stk _ byte,
    read_fit 2 (imm % 2 ^ 16) _ (mod-lt imm (omega arith)),
    extended_16 imm h,
    signed_16 imm h,
    read_fit 4 (to_unsigned w32 offs) _ (to_unsigned-lt w32 offs),
    sget-to_unsigned w32 offs o,
  )

  read_back_4 :
      IsExtended 32 imm
      → decode_store_frame_imm
          (encode_store_frame_imm (store_frame_imm Opcode.store_frame_imm_4) ++ rest)
        ≡ some (store_frame_imm Opcode.store_frame_imm_4, rest)
  unfolding decode_store_frame_imm encode_store_frame_imm decode_store_frame_imm_4 imm_bytes
      store_frame_imm
  read_back_4 h = simp (
    append_assoc,
    peek_opcode-bytes_of Opcode.store_frame_imm_4 _ (omega arith),
    read_fit 1 Opcode.store_frame_imm_4 _ (omega arith),
    mod-eq_of_lt byte,
    named,
    read_fit 1 stk _ byte,
    read_fit 4 (imm % 2 ^ 32) _ (mod-lt imm (omega arith)),
    extended_32 imm h,
    signed_32 imm h,
    read_fit 4 (to_unsigned w32 offs) _ (to_unsigned-lt w32 offs),
    sget-to_unsigned w32 offs o,
  )

  read_back_8 :
      imm < 2 ^ 64
      → decode_store_frame_imm
          (encode_store_frame_imm (store_frame_imm Opcode.store_frame_imm_8) ++ rest)
        ≡ some (store_frame_imm Opcode.store_frame_imm_8, rest)
  unfolding decode_store_frame_imm encode_store_frame_imm decode_store_frame_imm_8 imm_bytes
      store_frame_imm
  read_back_8 h = simp (
    append_assoc,
    peek_opcode-bytes_of Opcode.store_frame_imm_8 _ (omega arith),
    read_fit 1 Opcode.store_frame_imm_8 _ (omega arith),
    mod-eq_of_lt byte,
    named,
    read_fit 1 stk _ byte,
    read_fit 8 (imm) _ h,
    signed_64 imm,
    read_fit 4 (to_unsigned w32 offs) _ (to_unsigned-lt w32 offs),
    sget-to_unsigned w32 offs o,
  )

  read_back :
      (opc : ℕ)
      → FitImm opc imm
      → decode_store_frame_imm (encode_store_frame_imm (store_frame_imm opc) ++ rest)
        ≡ some (store_frame_imm opc, rest)
  read_back opc (inl e) = rw e.0 (read_back_1 e.1)
  read_back opc (inr (inl e)) = rw e.0 (read_back_2 e.1)
  read_back opc (inr (inr (inl e))) = rw e.0 (read_back_4 e.1)
  read_back opc (inr (inr (inr e))) = rw e.0 (read_back_8 e.1)

-- A store of an immediate to the frame is read back at each of its four sizes, where the immediate
-- is a sign-extended number of that size, and the ASSERTs of the decoder hold.
pub decode_store_frame_imm-encode_store_frame_imm :
    (c : StoreFrameImm) (rest : List ℕ)
    → FitStoreFrameImm c
    → decode_store_frame_imm (encode_store_frame_imm c ++ rest) ≡ some (c, rest)
unfolding store_frame_imm
decode_store_frame_imm-encode_store_frame_imm c rest h =
    read_back c.stk c.imm c.offs rest h.1 h.2 c.opc h.0
