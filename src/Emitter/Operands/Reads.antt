-- ===== src/Emitter/Operands/Reads.antt =====
-- What the interpreter reads of the operands that the emitter wrote.
use cbc_engine.Prelude.{ℕ, ◌%◌, ◌^◌, ◌<◌, List, ◌++◌, ◌≡◌, ◌⊎◌}
use cbc_engine.Prelude.{true, bit_and, some, arith}
use cbc_engine.Prelude.Bits.{bit_and-mask}
use cbc_engine.Word.{sget}
use cbc_engine.Bits.{sign_extend_64, is_n_bits_signed_64, is_sign}
use cbc_engine.Bits.Extension.{sign_extend_64-value}
use cbc_engine.Isa.Opcode
use cbc_engine.Isa.Immediates.{decode_b4xi12rr, B4xi12rr}
use cbc_engine.Isa.Immediates.RoundTrip.{decode_b4xi12rr-encode_b4xi12rr}
use cbc_engine.Isa.Stores.{decode_store_generic_op, encode_store_generic_op}
use cbc_engine.Isa.Stores.RoundTrip.{decode_store_generic_op-encode_store_generic_op}
use cbc_engine.Emitter.{short_immediate}
use cbc_engine.Emitter.Operands.{store_generic_opcode, store_generic_command}

-- An immediate of 12 bits is read back by DecodeImmediate.
pub short_value :
    (imm : ℕ)
    → imm < 2 ^ 64
    → is_n_bits_signed_64 imm 12 ≡ true
    → sign_extend_64 (bit_and imm 4095) 12 ≡ imm
unfolding is_n_bits_signed_64 is_sign sget
short_value imm l h =
    rw (bit_and-mask 12 imm, sign_extend_64-value (imm % 2 ^ 12) 11 (omega arith)) (ground arith)

-- The instruction that BinaryImm, SCCImm and their kin write for an immediate of 12 bits is decoded
-- to one whose immediate the interpreter sign-extends to the operand.
pub short_immediate-reads :
    (opc op d l imm : ℕ) (rest : List ℕ)
    → opc < 2 ^ 8
    → op < 16
    → d < 16
    → l < 16
    → imm < 2 ^ 64
    → is_n_bits_signed_64 imm 12 ≡ true
    → (c : B4xi12rr) × (decode_b4xi12rr (short_immediate opc op d l imm ++ rest) ≡ some (c, rest))
      × (sign_extend_64 c.xi12.imm12 12 ≡ imm)
unfolding short_immediate
short_immediate-reads opc op d l imm rest a b x y v h =
    let c : B4xi12rr = record {
      opc = opc;
      xi12 = record { imm4 = op; imm12 = bit_and imm 4095 };
      rr = record { x = d; y = l };
    } in
    (
      c,
      decode_b4xi12rr-encode_b4xi12rr c rest (a, (b, omega (arith, bit_and-mask 12 imm)), (x, y)),
      short_value imm v h,
    )

-- StoreGeneric chooses an opcode whose offset fits: the instruction is read back, at every offset.
pub store_generic-reads :
    (src base_ref base ti offset : ℕ) (rest : List ℕ)
    → src < 15
    → base_ref < 15
    → base < 15
    → ti < 15
    → offset < 2 ^ 32
    → decode_store_generic_op
        (encode_store_generic_op (store_generic_command src base_ref base ti offset) ++ rest)
      ≡ some (store_generic_command src base_ref base ti offset, rest)
unfolding store_generic_command store_generic_opcode
store_generic-reads src base_ref base ti offset rest a b c d l =
    decode_store_generic_op-encode_store_generic_op
      (store_generic_command src base_ref base ti offset) rest (fits, a, b, c, d)
  where
    fits :
        ((store_generic_opcode offset ≡ Opcode.store_generic) × (offset ≡ 0))
        ⊎ (((store_generic_opcode offset ≡ Opcode.store_generic_1) × (offset < 2 ^ 8))
            ⊎ ((store_generic_opcode offset ≡ Opcode.store_generic_4) × (offset < 2 ^ 32)))
    fits = ground arith
