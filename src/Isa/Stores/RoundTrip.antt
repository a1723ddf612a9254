-- ===== src/Isa/Stores/RoundTrip.antt =====
-- What Encode writes of the formats of Stores, Decode reads back, at the size of each opcode.
use mathlib.Core.List.{append_assoc}
use native.Mathlib.Nat.{mod-eq_of_lt}
use cbc_engine.Prelude.{
  ltb, true, ℕ, ◌+◌, ◌*◌, ◌^◌, ◌<◌, ◌≡◌, ◌⊎◌, inl, inr, ap, List, ◌++◌, some, arith,
}
use cbc_engine.Isa.{bytes_of, peek_opcode}
use cbc_engine.Isa.Opcode
use cbc_engine.Isa.Fields.RoundTrip.{read_fit, pack, low_4-pack, above_4-pack, decode_rr-encode_rr}
use cbc_engine.Isa.Stores.{
  InitOption, decode_init_option, encode_init_option, StoreGenericOp, decode_store_generic_op,
  encode_store_generic_op, decode_store_generic_0, decode_store_generic_1, decode_store_generic_4,
  store_generic_of, offset_bytes, are_iregs,
}

abbrev pub FitInitOption : InitOption → Type 0
FitInitOption c = (c.opc < 2 ^ 8) × (c.src < 15) × (c.underlying_ti < 15)

pub decode_init_option-encode_init_option :
    (c : InitOption) (rest : List ℕ)
    → FitInitOption c
    → decode_init_option (encode_init_option c ++ rest) ≡ some (c, rest)
unfolding decode_init_option encode_init_option
decode_init_option-encode_init_option c rest h =
    let byte : c.src + c.underlying_ti * 16 < 256 = omega arith in
    let nibble : c.src < 16 = omega arith in
    let src_named : ltb c.src 15 ≡ true = ground arith in
    let ti_named : ltb c.underlying_ti 15 ≡ true = ground arith in
    simp (
      append_assoc,
      src_named,
      ti_named,
      read_fit 1 c.opc _ h.0,
      pack c.src c.underlying_ti nibble,
      read_fit 1 (c.src + c.underlying_ti * 16) _ byte,
      low_4-pack c.src c.underlying_ti nibble,
      above_4-pack c.src c.underlying_ti nibble,
    )

pub peek_opcode-bytes_of :
    (opc : ℕ) (rest : List ℕ)
    → opc < 2 ^ 8
    → peek_opcode (bytes_of 1 opc ++ rest) ≡ some (opc, bytes_of 1 opc ++ rest)
unfolding peek_opcode bytes_of
peek_opcode-bytes_of opc rest h = ap (λ (t : ℕ). some (t, bytes_of 1 opc ++ rest)) (mod-eq_of_lt h)

-- The offset fits the size of the opcode.
abbrev FitOffset : ℕ → ℕ → Type 0
FitOffset opc offset =
    (opc ≡ Opcode.store_generic) × (offset ≡ 0)
    ⊎ ((opc ≡ Opcode.store_generic_1) × (offset < 2 ^ 8)
        ⊎ (opc ≡ Opcode.store_generic_4) × (offset < 2 ^ 32))

abbrev pub FitStoreGenericOp : StoreGenericOp → Type 0
FitStoreGenericOp c =
    FitOffset c.opc c.offset × (c.src < 15) × (c.base < 15) × (c.derived < 15) × (c.ti < 15)

-- The three opcodes, on the fields.
module _ (src base derived ti offset : ℕ) (rest : List ℕ) (a : src < 15) (b : base < 15)
    (d : derived < 15) (t : ti < 15) where
  store_generic_op : ℕ → StoreGenericOp
  store_generic_op opc = record {
    opc = opc;
    src = src;
    base = base;
    derived = derived;
    ti = ti;
    offset = offset;
  }

  named : are_iregs (record { x = src; y = base }) (record { x = derived; y = ti }) ≡ true
  named = ground arith

  read_back_0 :
      offset ≡ 0
      → decode_store_generic_op
          (encode_store_generic_op (store_generic_op Opcode.store_generic) ++ rest)
        ≡ some (store_generic_op Opcode.store_generic, rest)
  unfolding decode_store_generic_op encode_store_generic_op decode_store_generic_0 store_generic_of
      offset_bytes store_generic_op
  read_back_0 h = simp (
    append_assoc,
    named,
    peek_opcode-bytes_of Opcode.store_generic _ (omega arith),
    read_fit 1 Opcode.store_generic _ (omega arith),
    decode_rr-encode_rr (record { x = src; y = base }) _ (omega arith, omega arith),
    decode_rr-encode_rr (record { x = derived; y = ti }) _ (omega arith, omega arith),
    h,
  )

  read_back_1 :
      offset < 2 ^ 8
      → decode_store_generic_op
          (encode_store_generic_op (store_generic_op Opcode.store_generic_1) ++ rest)
        ≡ some (store_generic_op Opcode.store_generic_1, rest)
  unfolding decode_store_generic_op encode_store_generic_op decode_store_generic_1 store_generic_of
      offset_bytes store_generic_op
  read_back_1 h = simp (
    append_assoc,
    named,
    peek_opcode-bytes_of Opcode.store_generic_1 _ (omega arith),
    read_fit 1 Opcode.store_generic_1 _ (omega arith),
    decode_rr-encode_rr (record { x = src; y = base }) _ (omega arith, omega arith),
    decode_rr-encode_rr (record { x = derived; y = ti }) _ (omega arith, omega arith),
    mod-eq_of_lt h,
    read_fit 1 offset rest h,
  )

  read_back_4 :
      offset < 2 ^ 32
      → decode_store_generic_op
          (encode_store_generic_op (store_generic_op Opcode.store_generic_4) ++ rest)
        ≡ some (store_generic_op Opcode.store_generic_4, rest)
  unfolding decode_store_generic_op encode_store_generic_op decode_store_generic_4 store_generic_of
      offset_bytes store_generic_op
  read_back_4 h = simp (
    append_assoc,
    named,
    peek_opcode-bytes_of Opcode.store_generic_4 _ (omega arith),
    read_fit 1 Opcode.store_generic_4 _ (omega arith),
    decode_rr-encode_rr (record { x = src; y = base }) _ (omega arith, omega arith),
    decode_rr-encode_rr (record { x = derived; y = ti }) _ (omega arith, omega arith),
    read_fit 4 offset rest h,
  )

  read_back :
      (opc : ℕ)
      → FitOffset opc offset
      → decode_store_generic_op (encode_store_generic_op (store_generic_op opc) ++ rest)
        ≡ some (store_generic_op opc, rest)
  read_back opc (inl e) = rw e.0 (read_back_0 e.1)
  read_back opc (inr (inl e)) = rw e.0 (read_back_1 e.1)
  read_back opc (inr (inr e)) = rw e.0 (read_back_4 e.1)

pub decode_store_generic_op-encode_store_generic_op :
    (c : StoreGenericOp) (rest : List ℕ)
    → FitStoreGenericOp c
    → decode_store_generic_op (encode_store_generic_op c ++ rest) ≡ some (c, rest)
unfolding store_generic_op
decode_store_generic_op-encode_store_generic_op c rest h =
    read_back c.src c.base c.derived c.ti c.offset rest h.1 h.2 h.3 h.4 c.opc h.0
