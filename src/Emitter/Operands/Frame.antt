-- ===== src/Emitter/Operands/Frame.antt =====
-- A store of an immediate to the frame: what the interpreter stores has the bytes that were asked for.
use cbc_engine.Prelude.{
  ℕ, ◌%◌, ◌^◌, ◌<◌, ◌==◌, if◌then◌else◌, List, ◌++◌, ◌≡◌, refl, ap, sym, ◌∙◌, inl, inr,
}
use cbc_engine.Prelude.{Bool, Bool-cases, true, false, ◌||◌, some, arith}
use cbc_engine.Prelude.Int.{ℤ}
use cbc_engine.Word.{w32, InRange, sget}
use cbc_engine.Memory.{StoreAccessKind, st_8, st_16, st_32, st_64, st_ref, special, st_f32, st_f64}
use cbc_engine.Bits.{sign_extend_64, is_n_bits_signed_64, is_sign}
use cbc_engine.Bits.Extension.{sign_extend_64-value}
use cbc_engine.Isa.Opcode
use cbc_engine.Isa.Stores.{StoreFrameImm, decode_store_frame_imm, encode_store_frame_imm, imm_bytes}
use cbc_engine.Isa.Stores.Frame.{IsExtended, decode_store_frame_imm-encode_store_frame_imm}
use cbc_engine.Emitter.Operands.{frame_opcode, integral, kind_number, store_frame_imm_command}

-- The bits of a store.
pub size_bits : StoreAccessKind → ℕ
size_bits st_8 = 8
size_bits st_16 = 16
size_bits st_32 = 32
size_bits st_f32 = 32
size_bits _ = 64

-- What an opcode keeps of an immediate.
pub kept : ℕ → ℕ → ℕ
kept opc imm =
    if opc == Opcode.store_frame_imm_1
    then sign_extend_64 (imm % 2 ^ 8) 8
    else if opc == Opcode.store_frame_imm_2
    then sign_extend_64 (imm % 2 ^ 16) 16
    else if opc == Opcode.store_frame_imm_4
    then sign_extend_64 (imm % 2 ^ 32) 32
    else imm

-- The extension of a cut immediate has its low bits, is extended, and is the immediate where that has
-- the size.
abbrev IsExtensionOf : ℕ → ℕ → ℕ → Type 0
IsExtensionOf bits imm v =
    IsExtended bits v
    × (v % 2 ^ bits ≡ imm % 2 ^ bits)
    × (is_n_bits_signed_64 imm bits ≡ true → v ≡ imm)

cut_8 : (imm : ℕ) → imm < 2 ^ 64 → IsExtensionOf 8 imm (sign_extend_64 (imm % 2 ^ 8) 8)
unfolding is_n_bits_signed_64 is_sign sget
cut_8 imm l =
    rw (sign_extend_64-value (imm % 2 ^ 8) 7 (omega arith))
      (ground arith, ground arith, λ h. ground arith)

cut_16 : (imm : ℕ) → imm < 2 ^ 64 → IsExtensionOf 16 imm (sign_extend_64 (imm % 2 ^ 16) 16)
unfolding is_n_bits_signed_64 is_sign sget
cut_16 imm l =
    rw (sign_extend_64-value (imm % 2 ^ 16) 15 (omega arith))
      (ground arith, ground arith, λ h. ground arith)

cut_32 : (imm : ℕ) → imm < 2 ^ 64 → IsExtensionOf 32 imm (sign_extend_64 (imm % 2 ^ 32) 32)
unfolding is_n_bits_signed_64 is_sign sget
cut_32 imm l =
    rw (sign_extend_64-value (imm % 2 ^ 32) 31 (omega arith))
      (ground arith, ground arith, λ h. ground arith)

-- The four opcodes: the instruction is decoded to one with the immediate that is kept.
module _ (stk imm : ℕ) (offs : ℤ) (rest : List ℕ) (l : imm < 2 ^ 64) (b : stk < 8)
    (o : InRange w32 offs) where
  abbrev pub instruction : ℕ → ℕ → StoreFrameImm
  instruction opc v = record { opc = opc; stk = stk; imm = v; offs = offs }

  abbrev IsReadBack : ℕ → Type 0
  IsReadBack opc =
      decode_store_frame_imm (encode_store_frame_imm (instruction opc imm) ++ rest)
      ≡ some (instruction opc (kept opc imm), rest)

  reads_1 : IsReadBack Opcode.store_frame_imm_1
  unfolding kept encode_store_frame_imm imm_bytes
  reads_1 =
      let v = sign_extend_64 (imm % 2 ^ 8) 8 in
      let c : IsExtensionOf 8 imm v = cut_8 imm l in
      let same : encode_store_frame_imm (instruction Opcode.store_frame_imm_1 imm)
          ≡ encode_store_frame_imm (instruction Opcode.store_frame_imm_1 v) =
        rw c.1 refl in
      ap (λ (t : List ℕ). decode_store_frame_imm (t ++ rest)) same
      ∙ decode_store_frame_imm-encode_store_frame_imm (instruction Opcode.store_frame_imm_1 v) rest
          (inl (refl, c.0), b, o)

  reads_2 : IsReadBack Opcode.store_frame_imm_2
  unfolding kept encode_store_frame_imm imm_bytes
  reads_2 =
      let v = sign_extend_64 (imm % 2 ^ 16) 16 in
      let c : IsExtensionOf 16 imm v = cut_16 imm l in
      let same : encode_store_frame_imm (instruction Opcode.store_frame_imm_2 imm)
          ≡ encode_store_frame_imm (instruction Opcode.store_frame_imm_2 v) =
        rw c.1 refl in
      ap (λ (t : List ℕ). decode_store_frame_imm (t ++ rest)) same
      ∙ decode_store_frame_imm-encode_store_frame_imm (instruction Opcode.store_frame_imm_2 v) rest
          (inr (inl (refl, c.0)), b, o)

  reads_4 : IsReadBack Opcode.store_frame_imm_4
  unfolding kept encode_store_frame_imm imm_bytes
  reads_4 =
      let v = sign_extend_64 (imm % 2 ^ 32) 32 in
      let c : IsExtensionOf 32 imm v = cut_32 imm l in
      let same : encode_store_frame_imm (instruction Opcode.store_frame_imm_4 imm)
          ≡ encode_store_frame_imm (instruction Opcode.store_frame_imm_4 v) =
        rw c.1 refl in
      ap (λ (t : List ℕ). decode_store_frame_imm (t ++ rest)) same
      ∙ decode_store_frame_imm-encode_store_frame_imm (instruction Opcode.store_frame_imm_4 v) rest
          (inr (inr (inl (refl, c.0))), b, o)

  reads_8 : IsReadBack Opcode.store_frame_imm_8
  unfolding kept
  reads_8 =
      decode_store_frame_imm-encode_store_frame_imm (instruction Opcode.store_frame_imm_8 imm) rest
        (inr (inr (inr (refl, l))), b, o)

  -- The choice of the opcode, by the size of the immediate and by the kind.
  abbrev choice : Bool → Bool → Bool → ℕ
  choice is_8 is_16 is_32 =
      if is_n_bits_signed_64 imm 8 || is_8
      then Opcode.store_frame_imm_1
      else if is_n_bits_signed_64 imm 16 || is_16
      then Opcode.store_frame_imm_2
      else if is_n_bits_signed_64 imm 32 || is_32
      then Opcode.store_frame_imm_4
      else Opcode.store_frame_imm_8

  abbrev HasBytes : ℕ → ℕ → Type 0
  HasBytes bits opc = IsReadBack opc × (kept opc imm % 2 ^ bits ≡ imm % 2 ^ bits)

  either :
      (k bits v : ℕ) (test kind : Bool)
      → (kind ≡ true → bits ≡ k)
      → IsExtensionOf k imm v
      → (test ≡ is_n_bits_signed_64 imm k)
      → (test || kind ≡ true)
      → v % 2 ^ bits ≡ imm % 2 ^ bits
  either k bits v true kind e c t h = ap (λ (x : ℕ). x % 2 ^ bits) (c.2 (sym t))
  either k bits v false true e c t h = rw (e refl) c.1
  either k bits v false false e c t h = absurd cc

  keeps :
      (bits : ℕ) (is_8 is_16 is_32 : Bool)
      → (is_8 ≡ true → bits ≡ 8)
      → (is_16 ≡ true → bits ≡ 16)
      → (is_32 ≡ true → bits ≡ 32)
      → HasBytes bits (choice is_8 is_16 is_32)
  unfolding kept
  keeps bits is_8 is_16 is_32 e8 e16 e32 = elim (Bool-cases (is_n_bits_signed_64 imm 8 || is_8)) [
    | inl t ↦
        rw t (reads_1, either 8 bits _ (is_n_bits_signed_64 imm 8) is_8 e8 (cut_8 imm l) refl t)
    | inr t ↦ rw t (elim (Bool-cases (is_n_bits_signed_64 imm 16 || is_16)) [
      | inl u ↦
          rw u
            (reads_2, either 16 bits _ (is_n_bits_signed_64 imm 16) is_16 e16 (cut_16 imm l) refl u)
      | inr u ↦ rw u (elim (Bool-cases (is_n_bits_signed_64 imm 32 || is_32)) [
        | inl w ↦
            rw w (
              reads_4,
              either 32 bits _ (is_n_bits_signed_64 imm 32) is_32 e32 (cut_32 imm l) refl w,
            )
        | inr w ↦ rw w (reads_8, refl)
      ])
    ])
  ]

-- What StoreFrameImm writes for a kind of store is decoded to the opcode and the kind that it chose
-- and the offset, with an immediate that has the same bytes of the size of the store as the operand.
pub store_frame_imm-reads :
    (stk : StoreAccessKind) (imm : ℕ) (offs : ℤ) (rest : List ℕ)
    → imm < 2 ^ 64
    → InRange w32 offs
    → (v : ℕ) × (decode_store_frame_imm
          (encode_store_frame_imm (store_frame_imm_command stk imm offs) ++ rest)
        ≡ some (
          record {
            opc = frame_opcode (integral stk) imm;
            stk = kind_number (integral stk);
            imm = v;
            offs = offs;
          },
          rest,
        ))
      × (v % 2 ^ size_bits stk ≡ imm % 2 ^ size_bits stk)
unfolding store_frame_imm_command frame_opcode integral kind_number size_bits
store_frame_imm-reads st_8 imm offs rest l o =
    let k =
      keeps 0 imm offs rest l (omega arith) o 8 true false false (λ e. refl) (λ e. absurd cc)
        (λ e. absurd cc) in
    (_, k.0, k.1)
store_frame_imm-reads st_16 imm offs rest l o =
    let k =
      keeps 1 imm offs rest l (omega arith) o 16 false true false (λ e. absurd cc) (λ e. refl)
        (λ e. absurd cc) in
    (_, k.0, k.1)
store_frame_imm-reads st_32 imm offs rest l o =
    let k =
      keeps 2 imm offs rest l (omega arith) o 32 false false true (λ e. absurd cc) (λ e. absurd cc)
        (λ e. refl) in
    (_, k.0, k.1)
store_frame_imm-reads st_64 imm offs rest l o =
    let k =
      keeps 3 imm offs rest l (omega arith) o 64 false false false (λ e. absurd cc) (λ e. absurd cc)
        (λ e. absurd cc) in
    (_, k.0, k.1)
store_frame_imm-reads st_ref imm offs rest l o =
    let k =
      keeps 3 imm offs rest l (omega arith) o 64 false false false (λ e. absurd cc) (λ e. absurd cc)
        (λ e. absurd cc) in
    (_, k.0, k.1)
store_frame_imm-reads special imm offs rest l o =
    let k =
      keeps 5 imm offs rest l (omega arith) o 64 false false false (λ e. absurd cc) (λ e. absurd cc)
        (λ e. absurd cc) in
    (_, k.0, k.1)
store_frame_imm-reads st_f32 imm offs rest l o =
    let k =
      keeps 2 imm offs rest l (omega arith) o 32 false false true (λ e. absurd cc) (λ e. absurd cc)
        (λ e. refl) in
    (_, k.0, k.1)
store_frame_imm-reads st_f64 imm offs rest l o =
    let k =
      keeps 3 imm offs rest l (omega arith) o 64 false false false (λ e. absurd cc) (λ e. absurd cc)
        (λ e. absurd cc) in
    (_, k.0, k.1)
