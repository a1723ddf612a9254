-- ===== src/Isa/Fields/RoundTrip.antt =====
-- The packed fields are read back as they were written.
use native.Mathlib.Nat.{pow-suc, pow-zero, one-le-pow, mod-eq_of_lt}
use cbc_engine.Prelude.{ℕ, zero, suc, ◌+◌, ◌*◌, ◌/◌, ◌%◌, ◌^◌, ◌<◌, List, ◌++◌, some}
use cbc_engine.Prelude.{bit_or, ◌≡◌, ap, ◌∙◌, sym, arith}
use cbc_engine.Prelude.Bits.{bit_or-shifted, bit_and-mask}
use cbc_engine.Memory.Bytes.{split_mod}
use cbc_engine.Isa.{read, bytes_of}
use cbc_engine.Isa.Fields.{
  Rr, Xr, Xx, XImm12, RImm12, decode_rr, decode_xr, decode_xx, decode_x_imm12, decode_r_imm12,
  encode_rr, encode_xr, encode_xx, encode_x_imm12, encode_r_imm12, low_4, above_4,
}

pub read-bytes_of :
    (n v : ℕ) (rest : List ℕ) → read n (bytes_of n v ++ rest) ≡ some (v % 256 ^ n, rest)
unfolding read bytes_of
read-bytes_of zero v rest = ap (λ (t : ℕ). some (t, rest)) (omega (arith, pow-zero 256))
read-bytes_of (suc n) v rest = rw (read-bytes_of n (v / 256) rest) (
    ap (λ (t : ℕ). some (t, rest))
      (split_mod v (256 ^ n) (one-le-pow n 256 (omega arith))
        ∙ ap (λ (t : ℕ). v % t) (sym (pow-suc 256 n))))

pub read_fit :
    (n v : ℕ) (rest : List ℕ) → v < 256 ^ n → read n (bytes_of n v ++ rest) ≡ some (v, rest)
read_fit n v rest h = read-bytes_of n v rest ∙ ap (λ (t : ℕ). some (t, rest)) (mod-eq_of_lt h)

-- A field of 4 bits under another one.
pub pack : (a b : ℕ) → a < 16 → bit_or a (b * 2 ^ 4) ≡ a + b * 16
pack a b h = bit_or-shifted 4 a b h

pub low_4-pack : (a b : ℕ) → a < 16 → low_4 (a + b * 16) ≡ a
low_4-pack a b h = omega (arith, h, bit_and-mask 4 (a + b * 16))

pub above_4-pack : (a b : ℕ) → a < 16 → above_4 (a + b * 16) ≡ b
above_4-pack a b h = omega (arith, h)

abbrev pub FitRr : Rr → Type 0
FitRr f = (f.x < 16) × (f.y < 16)

pub decode_rr-encode_rr :
    (f : Rr) (rest : List ℕ) → FitRr f → decode_rr (encode_rr f ++ rest) ≡ some (f, rest)
unfolding decode_rr encode_rr
decode_rr-encode_rr f rest h = simp (
  pack f.x f.y h.0,
  read_fit 1 (f.x + f.y * 16) rest (omega arith),
  low_4-pack f.x f.y h.0,
  above_4-pack f.x f.y h.0,
)

abbrev pub FitXr : Xr → Type 0
FitXr f = (f.imm < 16) × (f.r < 16)

pub decode_xr-encode_xr :
    (f : Xr) (rest : List ℕ) → FitXr f → decode_xr (encode_xr f ++ rest) ≡ some (f, rest)
unfolding decode_xr encode_xr
decode_xr-encode_xr f rest h = simp (
  pack f.imm f.r h.0,
  read_fit 1 (f.imm + f.r * 16) rest (omega arith),
  low_4-pack f.imm f.r h.0,
  above_4-pack f.imm f.r h.0,
)

abbrev pub FitXx : Xx → Type 0
FitXx f = (f.imm1 < 16) × (f.imm2 < 16)

pub decode_xx-encode_xx :
    (f : Xx) (rest : List ℕ) → FitXx f → decode_xx (encode_xx f ++ rest) ≡ some (f, rest)
unfolding decode_xx encode_xx
decode_xx-encode_xx f rest h = simp (
  pack f.imm1 f.imm2 h.0,
  read_fit 1 (f.imm1 + f.imm2 * 16) rest (omega arith),
  low_4-pack f.imm1 f.imm2 h.0,
  above_4-pack f.imm1 f.imm2 h.0,
)

abbrev pub FitXImm12 : XImm12 → Type 0
FitXImm12 f = (f.imm4 < 16) × (f.imm12 < 4096)

pub decode_x_imm12-encode_x_imm12 :
    (f : XImm12) (rest : List ℕ)
    → FitXImm12 f
    → decode_x_imm12 (encode_x_imm12 f ++ rest) ≡ some (f, rest)
unfolding decode_x_imm12 encode_x_imm12
decode_x_imm12-encode_x_imm12 f rest h = simp (
  pack f.imm4 f.imm12 h.0,
  mod-eq_of_lt below,
  read_fit 2 (f.imm4 + f.imm12 * 16) rest below,
  low_4-pack f.imm4 f.imm12 h.0,
  above_4-pack f.imm4 f.imm12 h.0,
)
  where
    below : f.imm4 + f.imm12 * 16 < 2 ^ 16
    below = omega (arith, h)

abbrev pub FitRImm12 : RImm12 → Type 0
FitRImm12 f = (f.r < 16) × (f.imm12 < 4096)

pub decode_r_imm12-encode_r_imm12 :
    (f : RImm12) (rest : List ℕ)
    → FitRImm12 f
    → decode_r_imm12 (encode_r_imm12 f ++ rest) ≡ some (f, rest)
unfolding decode_r_imm12 encode_r_imm12
decode_r_imm12-encode_r_imm12 f rest h = simp (
  pack f.r f.imm12 h.0,
  mod-eq_of_lt below,
  read_fit 2 (f.r + f.imm12 * 16) rest below,
  low_4-pack f.r f.imm12 h.0,
  above_4-pack f.r f.imm12 h.0,
)
  where
    below : f.r + f.imm12 * 16 < 2 ^ 16
    below = omega (arith, h)
