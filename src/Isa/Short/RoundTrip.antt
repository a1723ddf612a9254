-- ===== src/Isa/Short/RoundTrip.antt =====
-- What Encode writes of the formats of Short, Decode reads back, and leaves the bytes that follow.
use mathlib.Core.List.{append_assoc}
use cbc_engine.Prelude.{ℕ, ◌^◌, ◌<◌, ◌≡◌, List, ◌++◌, some}
use cbc_engine.Isa.Fields.RoundTrip.{
  read_fit, FitRr, FitXr, FitXx, decode_rr-encode_rr, decode_xr-encode_xr, decode_xx-encode_xx,
}
use cbc_engine.Isa.Short.{
  B1, decode_b1, encode_b1, B2rr, decode_b2rr, encode_b2rr, B2xr, decode_b2xr, encode_b2xr, B3xri8,
  decode_b3xri8, encode_b3xri8, B3xrrr, decode_b3xrrr, encode_b3xrrr, B3xxrr, decode_b3xxrr,
  encode_b3xxrr, B3rrrr, decode_b3rrrr, encode_b3rrrr,
}

abbrev pub FitB1 : B1 → Type 0
FitB1 c = (c.opc < 2 ^ 8)

pub decode_b1-encode_b1 :
    (c : B1) (rest : List ℕ) → FitB1 c → decode_b1 (encode_b1 c ++ rest) ≡ some (c, rest)
unfolding decode_b1 encode_b1
decode_b1-encode_b1 c rest h = simp (append_assoc, read_fit 1 c.opc _ h)

abbrev pub FitB2rr : B2rr → Type 0
FitB2rr c = (c.opc < 2 ^ 8) × FitRr c.rr

pub decode_b2rr-encode_b2rr :
    (c : B2rr) (rest : List ℕ) → FitB2rr c → decode_b2rr (encode_b2rr c ++ rest) ≡ some (c, rest)
unfolding decode_b2rr encode_b2rr
decode_b2rr-encode_b2rr c rest h =
    simp (append_assoc, read_fit 1 c.opc _ h.0, decode_rr-encode_rr c.rr _ h.1)

abbrev pub FitB2xr : B2xr → Type 0
FitB2xr c = (c.opc < 2 ^ 8) × FitXr c.xr

pub decode_b2xr-encode_b2xr :
    (c : B2xr) (rest : List ℕ) → FitB2xr c → decode_b2xr (encode_b2xr c ++ rest) ≡ some (c, rest)
unfolding decode_b2xr encode_b2xr
decode_b2xr-encode_b2xr c rest h =
    simp (append_assoc, read_fit 1 c.opc _ h.0, decode_xr-encode_xr c.xr _ h.1)

abbrev pub FitB3xri8 : B3xri8 → Type 0
FitB3xri8 c = (c.opc < 2 ^ 8) × FitXr c.xr × (c.imm8 < 2 ^ 8)

pub decode_b3xri8-encode_b3xri8 :
    (c : B3xri8) (rest : List ℕ)
    → FitB3xri8 c
    → decode_b3xri8 (encode_b3xri8 c ++ rest) ≡ some (c, rest)
unfolding decode_b3xri8 encode_b3xri8
decode_b3xri8-encode_b3xri8 c rest h =
    simp (
      append_assoc,
      read_fit 1 c.opc _ h.0,
      decode_xr-encode_xr c.xr _ h.1,
      read_fit 1 c.imm8 _ h.2,
    )

abbrev pub FitB3xrrr : B3xrrr → Type 0
FitB3xrrr c = (c.opc < 2 ^ 8) × FitXr c.xr × FitRr c.rr

pub decode_b3xrrr-encode_b3xrrr :
    (c : B3xrrr) (rest : List ℕ)
    → FitB3xrrr c
    → decode_b3xrrr (encode_b3xrrr c ++ rest) ≡ some (c, rest)
unfolding decode_b3xrrr encode_b3xrrr
decode_b3xrrr-encode_b3xrrr c rest h = simp (
  append_assoc,
  read_fit 1 c.opc _ h.0,
  decode_xr-encode_xr c.xr _ h.1,
  decode_rr-encode_rr c.rr _ h.2,
)

abbrev pub FitB3xxrr : B3xxrr → Type 0
FitB3xxrr c = (c.opc < 2 ^ 8) × FitXx c.xx × FitRr c.rr

pub decode_b3xxrr-encode_b3xxrr :
    (c : B3xxrr) (rest : List ℕ)
    → FitB3xxrr c
    → decode_b3xxrr (encode_b3xxrr c ++ rest) ≡ some (c, rest)
unfolding decode_b3xxrr encode_b3xxrr
decode_b3xxrr-encode_b3xxrr c rest h = simp (
  append_assoc,
  read_fit 1 c.opc _ h.0,
  decode_xx-encode_xx c.xx _ h.1,
  decode_rr-encode_rr c.rr _ h.2,
)

abbrev pub FitB3rrrr : B3rrrr → Type 0
FitB3rrrr c = (c.opc < 2 ^ 8) × FitRr c.rr1 × FitRr c.rr2

pub decode_b3rrrr-encode_b3rrrr :
    (c : B3rrrr) (rest : List ℕ)
    → FitB3rrrr c
    → decode_b3rrrr (encode_b3rrrr c ++ rest) ≡ some (c, rest)
unfolding decode_b3rrrr encode_b3rrrr
decode_b3rrrr-encode_b3rrrr c rest h = simp (
  append_assoc,
  read_fit 1 c.opc _ h.0,
  decode_rr-encode_rr c.rr1 _ h.1,
  decode_rr-encode_rr c.rr2 _ h.2,
)
