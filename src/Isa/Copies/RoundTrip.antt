-- ===== src/Isa/Copies/RoundTrip.antt =====
-- What Encode writes of the formats of Copies, Decode reads back, and leaves the bytes that follow.
use mathlib.Core.List.{append_assoc}
use cbc_engine.Prelude.{ℕ, ◌^◌, ◌<◌, ◌≡◌, List, ◌++◌, some}
use cbc_engine.Isa.Fields.RoundTrip.{read_fit, FitRr, decode_rr-encode_rr}
use cbc_engine.Isa.Copies.{
  CopyDerived, decode_copy_derived, encode_copy_derived, CopyDerivedGeneric,
  decode_copy_derived_generic, encode_copy_derived_generic, CopyLocal, decode_copy_local,
  encode_copy_local, CopyLocalGeneric, decode_copy_local_generic, encode_copy_local_generic,
}

abbrev pub FitCopyDerived : CopyDerived → Type 0
FitCopyDerived c = (c.opc < 2 ^ 8) × FitRr c.dst × FitRr c.src × (c.ti < 2 ^ 64)

pub decode_copy_derived-encode_copy_derived :
    (c : CopyDerived) (rest : List ℕ)
    → FitCopyDerived c
    → decode_copy_derived (encode_copy_derived c ++ rest) ≡ some (c, rest)
unfolding decode_copy_derived encode_copy_derived
decode_copy_derived-encode_copy_derived c rest h = simp (
  append_assoc,
  read_fit 1 c.opc _ h.0,
  decode_rr-encode_rr c.dst _ h.1,
  decode_rr-encode_rr c.src _ h.2,
  read_fit 8 c.ti _ h.3,
)

abbrev pub FitCopyDerivedGeneric : CopyDerivedGeneric → Type 0
FitCopyDerivedGeneric c = (c.opc < 2 ^ 8) × FitRr c.dst × FitRr c.src × FitRr c.ti

pub decode_copy_derived_generic-encode_copy_derived_generic :
    (c : CopyDerivedGeneric) (rest : List ℕ)
    → FitCopyDerivedGeneric c
    → decode_copy_derived_generic (encode_copy_derived_generic c ++ rest) ≡ some (c, rest)
unfolding decode_copy_derived_generic encode_copy_derived_generic
decode_copy_derived_generic-encode_copy_derived_generic c rest h = simp (
  append_assoc,
  read_fit 1 c.opc _ h.0,
  decode_rr-encode_rr c.dst _ h.1,
  decode_rr-encode_rr c.src _ h.2,
  decode_rr-encode_rr c.ti _ h.3,
)

abbrev pub FitCopyLocal : CopyLocal → Type 0
FitCopyLocal c = (c.opc < 2 ^ 8) × FitRr c.records × (c.ti < 2 ^ 64)

pub decode_copy_local-encode_copy_local :
    (c : CopyLocal) (rest : List ℕ)
    → FitCopyLocal c
    → decode_copy_local (encode_copy_local c ++ rest) ≡ some (c, rest)
unfolding decode_copy_local encode_copy_local
decode_copy_local-encode_copy_local c rest h = simp (
  append_assoc,
  read_fit 1 c.opc _ h.0,
  decode_rr-encode_rr c.records _ h.1,
  read_fit 8 c.ti _ h.2,
)

abbrev pub FitCopyLocalGeneric : CopyLocalGeneric → Type 0
FitCopyLocalGeneric c = (c.opc < 2 ^ 8) × FitRr c.first × FitRr c.second

pub decode_copy_local_generic-encode_copy_local_generic :
    (c : CopyLocalGeneric) (rest : List ℕ)
    → FitCopyLocalGeneric c
    → decode_copy_local_generic (encode_copy_local_generic c ++ rest) ≡ some (c, rest)
unfolding decode_copy_local_generic encode_copy_local_generic
decode_copy_local_generic-encode_copy_local_generic c rest h = simp (
  append_assoc,
  read_fit 1 c.opc _ h.0,
  decode_rr-encode_rr c.first _ h.1,
  decode_rr-encode_rr c.second _ h.2,
)
