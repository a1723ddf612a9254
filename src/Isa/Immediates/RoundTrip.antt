-- ===== src/Isa/Immediates/RoundTrip.antt =====
-- What Encode writes of the formats of Immediates, Decode reads back, and leaves the bytes that follow.
use mathlib.Core.List.{append_assoc}
use cbc_engine.Prelude.{ℕ, ◌^◌, ◌<◌, ◌≡◌, List, ◌++◌, some}
use cbc_engine.Isa.Fields.RoundTrip.{
  read_fit, FitRr, FitXr, FitXImm12, FitRImm12, decode_rr-encode_rr, decode_xr-encode_xr,
  decode_x_imm12-encode_x_imm12, decode_r_imm12-encode_r_imm12,
}
use cbc_engine.Isa.Immediates.{
  B3xi12, decode_b3xi12, encode_b3xi12, B4xi12rr, decode_b4xi12rr, encode_b4xi12rr, B5xi12ri12,
  decode_b5xi12ri12, encode_b5xi12ri12, B5i32, decode_b5i32, encode_b5i32, B6xri32, decode_b6xri32,
  encode_b6xri32, B7xrrri32, decode_b7xrrri32, encode_b7xrrri32, B9i64, decode_b9i64, encode_b9i64,
  B10xri64, decode_b10xri64, encode_b10xri64, B13i64i32, decode_b13i64i32, encode_b13i64i32,
}

abbrev pub FitB3xi12 : B3xi12 → Type 0
FitB3xi12 c = (c.opc < 2 ^ 8) × FitXImm12 c.xi12

pub decode_b3xi12-encode_b3xi12 :
    (c : B3xi12) (rest : List ℕ)
    → FitB3xi12 c
    → decode_b3xi12 (encode_b3xi12 c ++ rest) ≡ some (c, rest)
unfolding decode_b3xi12 encode_b3xi12
decode_b3xi12-encode_b3xi12 c rest h =
    simp (append_assoc, read_fit 1 c.opc _ h.0, decode_x_imm12-encode_x_imm12 c.xi12 _ h.1)

abbrev pub FitB4xi12rr : B4xi12rr → Type 0
FitB4xi12rr c = (c.opc < 2 ^ 8) × FitXImm12 c.xi12 × FitRr c.rr

pub decode_b4xi12rr-encode_b4xi12rr :
    (c : B4xi12rr) (rest : List ℕ)
    → FitB4xi12rr c
    → decode_b4xi12rr (encode_b4xi12rr c ++ rest) ≡ some (c, rest)
unfolding decode_b4xi12rr encode_b4xi12rr
decode_b4xi12rr-encode_b4xi12rr c rest h = simp (
  append_assoc,
  read_fit 1 c.opc _ h.0,
  decode_x_imm12-encode_x_imm12 c.xi12 _ h.1,
  decode_rr-encode_rr c.rr _ h.2,
)

abbrev pub FitB5xi12ri12 : B5xi12ri12 → Type 0
FitB5xi12ri12 c = (c.opc < 2 ^ 8) × FitXImm12 c.xi12 × FitRImm12 c.ri12

pub decode_b5xi12ri12-encode_b5xi12ri12 :
    (c : B5xi12ri12) (rest : List ℕ)
    → FitB5xi12ri12 c
    → decode_b5xi12ri12 (encode_b5xi12ri12 c ++ rest) ≡ some (c, rest)
unfolding decode_b5xi12ri12 encode_b5xi12ri12
decode_b5xi12ri12-encode_b5xi12ri12 c rest h = simp (
  append_assoc,
  read_fit 1 c.opc _ h.0,
  decode_x_imm12-encode_x_imm12 c.xi12 _ h.1,
  decode_r_imm12-encode_r_imm12 c.ri12 _ h.2,
)

abbrev pub FitB5i32 : B5i32 → Type 0
FitB5i32 c = (c.opc < 2 ^ 8) × (c.imm32 < 2 ^ 32)

pub decode_b5i32-encode_b5i32 :
    (c : B5i32) (rest : List ℕ)
    → FitB5i32 c
    → decode_b5i32 (encode_b5i32 c ++ rest) ≡ some (c, rest)
unfolding decode_b5i32 encode_b5i32
decode_b5i32-encode_b5i32 c rest h =
    simp (append_assoc, read_fit 1 c.opc _ h.0, read_fit 4 c.imm32 _ h.1)

abbrev pub FitB6xri32 : B6xri32 → Type 0
FitB6xri32 c = (c.opc < 2 ^ 8) × FitXr c.xr × (c.imm32 < 2 ^ 32)

pub decode_b6xri32-encode_b6xri32 :
    (c : B6xri32) (rest : List ℕ)
    → FitB6xri32 c
    → decode_b6xri32 (encode_b6xri32 c ++ rest) ≡ some (c, rest)
unfolding decode_b6xri32 encode_b6xri32
decode_b6xri32-encode_b6xri32 c rest h =
    simp (
      append_assoc,
      read_fit 1 c.opc _ h.0,
      decode_xr-encode_xr c.xr _ h.1,
      read_fit 4 c.imm32 _ h.2,
    )

abbrev pub FitB7xrrri32 : B7xrrri32 → Type 0
FitB7xrrri32 c = (c.opc < 2 ^ 8) × FitXr c.xr × FitRr c.rr × (c.imm32 < 2 ^ 32)

pub decode_b7xrrri32-encode_b7xrrri32 :
    (c : B7xrrri32) (rest : List ℕ)
    → FitB7xrrri32 c
    → decode_b7xrrri32 (encode_b7xrrri32 c ++ rest) ≡ some (c, rest)
unfolding decode_b7xrrri32 encode_b7xrrri32
decode_b7xrrri32-encode_b7xrrri32 c rest h = simp (
  append_assoc,
  read_fit 1 c.opc _ h.0,
  decode_xr-encode_xr c.xr _ h.1,
  decode_rr-encode_rr c.rr _ h.2,
  read_fit 4 c.imm32 _ h.3,
)

abbrev pub FitB9i64 : B9i64 → Type 0
FitB9i64 c = (c.opc < 2 ^ 8) × (c.imm64 < 2 ^ 64)

pub decode_b9i64-encode_b9i64 :
    (c : B9i64) (rest : List ℕ)
    → FitB9i64 c
    → decode_b9i64 (encode_b9i64 c ++ rest) ≡ some (c, rest)
unfolding decode_b9i64 encode_b9i64
decode_b9i64-encode_b9i64 c rest h =
    simp (append_assoc, read_fit 1 c.opc _ h.0, read_fit 8 c.imm64 _ h.1)

abbrev pub FitB10xri64 : B10xri64 → Type 0
FitB10xri64 c = (c.opc < 2 ^ 8) × FitXr c.xr × (c.imm64 < 2 ^ 64)

pub decode_b10xri64-encode_b10xri64 :
    (c : B10xri64) (rest : List ℕ)
    → FitB10xri64 c
    → decode_b10xri64 (encode_b10xri64 c ++ rest) ≡ some (c, rest)
unfolding decode_b10xri64 encode_b10xri64
decode_b10xri64-encode_b10xri64 c rest h =
    simp (
      append_assoc,
      read_fit 1 c.opc _ h.0,
      decode_xr-encode_xr c.xr _ h.1,
      read_fit 8 c.imm64 _ h.2,
    )

abbrev pub FitB13i64i32 : B13i64i32 → Type 0
FitB13i64i32 c = (c.opc < 2 ^ 8) × (c.imm64 < 2 ^ 64) × (c.imm32 < 2 ^ 32)

pub decode_b13i64i32-encode_b13i64i32 :
    (c : B13i64i32) (rest : List ℕ)
    → FitB13i64i32 c
    → decode_b13i64i32 (encode_b13i64i32 c ++ rest) ≡ some (c, rest)
unfolding decode_b13i64i32 encode_b13i64i32
decode_b13i64i32-encode_b13i64i32 c rest h =
    simp (append_assoc, read_fit 1 c.opc _ h.0, read_fit 8 c.imm64 _ h.1, read_fit 4 c.imm32 _ h.2)
