-- ===== src/Isa/Operations/RoundTrip.antt =====
-- What Encode writes of the formats of Operations, Decode reads back, and leaves the bytes that follow.
use mathlib.Core.List.{append_assoc}
use cbc_engine.Prelude.{arith, leb, true, ℕ, ◌^◌, ◌<◌, ◌≡◌, List, ◌++◌, some}
use cbc_engine.Isa.Fields.RoundTrip.{
  read_fit, FitRr, FitXr, decode_rr-encode_rr, decode_xr-encode_xr,
}
use cbc_engine.Isa.Operations.{
  BinaryChecked, decode_binary_checked, encode_binary_checked, BinarySaturating,
  decode_binary_saturating, encode_binary_saturating, Bfx, decode_bfx, encode_bfx, Iof, decode_iof,
  encode_iof, StructFieldOp, decode_struct_field_op, encode_struct_field_op, Index, decode_index,
  encode_index, IndexGeneric, decode_index_generic, encode_index_generic, ConstIndexGeneric,
  decode_const_index_generic, encode_const_index_generic,
}

abbrev pub FitBinaryChecked : BinaryChecked → Type 0
FitBinaryChecked c = (c.opc < 2 ^ 8) × (c.op < 12) × FitRr c.rr × (c.imm < 2 ^ 64)

pub decode_binary_checked-encode_binary_checked :
    (c : BinaryChecked) (rest : List ℕ)
    → FitBinaryChecked c
    → decode_binary_checked (encode_binary_checked c ++ rest) ≡ some (c, rest)
unfolding decode_binary_checked encode_binary_checked
decode_binary_checked-encode_binary_checked c rest h =
    let named : leb c.op 11 ≡ true = ground arith in
    simp (
      append_assoc,
      read_fit 1 c.opc _ h.0,
      read_fit 1 c.op _ (omega arith),
      named,
      decode_rr-encode_rr c.rr _ h.2,
      read_fit 8 c.imm _ h.3,
    )

abbrev pub FitBinarySaturating : BinarySaturating → Type 0
FitBinarySaturating c = (c.opc < 2 ^ 8) × (c.op < 15) × FitRr c.rr × (c.imm < 2 ^ 64)

pub decode_binary_saturating-encode_binary_saturating :
    (c : BinarySaturating) (rest : List ℕ)
    → FitBinarySaturating c
    → decode_binary_saturating (encode_binary_saturating c ++ rest) ≡ some (c, rest)
unfolding decode_binary_saturating encode_binary_saturating
decode_binary_saturating-encode_binary_saturating c rest h =
    let named : leb c.op 14 ≡ true = ground arith in
    simp (
      append_assoc,
      read_fit 1 c.opc _ h.0,
      read_fit 1 c.op _ (omega arith),
      named,
      decode_rr-encode_rr c.rr _ h.2,
      read_fit 8 c.imm _ h.3,
    )

abbrev pub FitBfx : Bfx → Type 0
FitBfx c = (c.opc < 2 ^ 8) × FitRr c.rr × (c.offs < 2 ^ 8) × (c.size < 2 ^ 8)

pub decode_bfx-encode_bfx :
    (c : Bfx) (rest : List ℕ) → FitBfx c → decode_bfx (encode_bfx c ++ rest) ≡ some (c, rest)
unfolding decode_bfx encode_bfx
decode_bfx-encode_bfx c rest h = simp (
  append_assoc,
  read_fit 1 c.opc _ h.0,
  decode_rr-encode_rr c.rr _ h.1,
  read_fit 1 c.offs _ h.2,
  read_fit 1 c.size _ h.3,
)

abbrev pub FitIof : Iof → Type 0
FitIof c = (c.opc < 2 ^ 8) × FitRr c.rr × (c.imm64 < 2 ^ 64)

pub decode_iof-encode_iof :
    (c : Iof) (rest : List ℕ) → FitIof c → decode_iof (encode_iof c ++ rest) ≡ some (c, rest)
unfolding decode_iof encode_iof
decode_iof-encode_iof c rest h =
    simp (
      append_assoc,
      read_fit 1 c.opc _ h.0,
      decode_rr-encode_rr c.rr _ h.1,
      read_fit 8 c.imm64 _ h.2,
    )

abbrev pub FitStructFieldOp : StructFieldOp → Type 0
FitStructFieldOp c = (c.opc < 2 ^ 8) × FitRr c.rr × (c.offset < 2 ^ 8) × (c.ti < 2 ^ 64)

pub decode_struct_field_op-encode_struct_field_op :
    (c : StructFieldOp) (rest : List ℕ)
    → FitStructFieldOp c
    → decode_struct_field_op (encode_struct_field_op c ++ rest) ≡ some (c, rest)
unfolding decode_struct_field_op encode_struct_field_op
decode_struct_field_op-encode_struct_field_op c rest h = simp (
  append_assoc,
  read_fit 1 c.opc _ h.0,
  decode_rr-encode_rr c.rr _ h.1,
  read_fit 1 c.offset _ h.2,
  read_fit 8 c.ti _ h.3,
)

abbrev pub FitIndex : Index → Type 0
FitIndex c = (c.opc < 2 ^ 8) × FitRr c.rr × FitXr c.idx × (c.ti < 2 ^ 64)

pub decode_index-encode_index :
    (c : Index) (rest : List ℕ)
    → FitIndex c
    → decode_index (encode_index c ++ rest) ≡ some (c, rest)
unfolding decode_index encode_index
decode_index-encode_index c rest h = simp (
  append_assoc,
  read_fit 1 c.opc _ h.0,
  decode_rr-encode_rr c.rr _ h.1,
  decode_xr-encode_xr c.idx _ h.2,
  read_fit 8 c.ti _ h.3,
)

abbrev pub FitIndexGeneric : IndexGeneric → Type 0
FitIndexGeneric c = (c.opc < 2 ^ 8) × FitRr c.rr × FitRr c.idx

pub decode_index_generic-encode_index_generic :
    (c : IndexGeneric) (rest : List ℕ)
    → FitIndexGeneric c
    → decode_index_generic (encode_index_generic c ++ rest) ≡ some (c, rest)
unfolding decode_index_generic encode_index_generic
decode_index_generic-encode_index_generic c rest h = simp (
  append_assoc,
  read_fit 1 c.opc _ h.0,
  decode_rr-encode_rr c.rr _ h.1,
  decode_rr-encode_rr c.idx _ h.2,
)

abbrev pub FitConstIndexGeneric : ConstIndexGeneric → Type 0
FitConstIndexGeneric c = (c.opc < 2 ^ 8) × FitRr c.rr × FitRr c.ti × (c.idx < 2 ^ 64)

pub decode_const_index_generic-encode_const_index_generic :
    (c : ConstIndexGeneric) (rest : List ℕ)
    → FitConstIndexGeneric c
    → decode_const_index_generic (encode_const_index_generic c ++ rest) ≡ some (c, rest)
unfolding decode_const_index_generic encode_const_index_generic
decode_const_index_generic-encode_const_index_generic c rest h = simp (
  append_assoc,
  read_fit 1 c.opc _ h.0,
  decode_rr-encode_rr c.rr _ h.1,
  decode_rr-encode_rr c.ti _ h.2,
  read_fit 8 c.idx _ h.3,
)
