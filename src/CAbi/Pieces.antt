-- ===== src/CAbi/Pieces.antt =====
-- How many bytes of a structure the pieces in general registers carry.
use cbc_engine.Prelude.{ℕ, ◌+◌, ◌-◌, ◌/◌, ◌≤◌, ◌<◌, min, ◌==◌, if◌then◌else◌, List, [], ◌∷◌, ◌≡◌}
use cbc_engine.Prelude.{false, Bool-cases, inl, inr, leb, leb→le, ◌||◌, arith}
use cbc_engine.Abi.{CbcTypeKind, i64, u64, ref, f64, i32, u32, f32, i16, u16}
use cbc_engine.CAbi.{CAbiPiece, piece_kind, integer_pieces}

-- The bytes that a load of a kind reads.
pub kind_bytes : CbcTypeKind → ℕ
kind_bytes i64 = 8
kind_bytes u64 = 8
kind_bytes ref = 8
kind_bytes f64 = 8
kind_bytes i32 = 4
kind_bytes u32 = 4
kind_bytes f32 = 4
kind_bytes i16 = 2
kind_bytes u16 = 2
kind_bytes _ = 1

pub loaded : List CAbiPiece → ℕ
loaded [] = 0
loaded (p ∷ ps) = kind_bytes p.kind + loaded ps

-- All bytes of a piece of 1, 2, 4 or 8 bytes, and one byte of any other.
unfoldable pub held : ℕ → ℕ
held size = if size == 1 || (size == 2 || (size == 4 || size == 8)) then size else 1

kind_bytes-piece_kind : (size : ℕ) → kind_bytes (piece_kind size false) ≡ held size
unfolding kind_bytes piece_kind held
kind_bytes-piece_kind size = ground arith

first_piece :
    (size : ℕ) → 0 < size → size ≤ 8 → loaded (integer_pieces ((size + 7) / 8) 0 size) ≡ held size
unfolding loaded integer_pieces
first_piece size a b =
    let rounds : (size + 7) / 8 ≡ 1 = omega arith in
    let width : min 8 (size - 0) ≡ size = omega arith in
    rw (rounds, width, kind_bytes-piece_kind size) (omega arith)

second_piece :
    (size : ℕ)
    → 8 < size
    → size ≤ 16
    → loaded (integer_pieces ((size + 7) / 8) 0 size) ≡ 8 + held (size - 8)
unfolding loaded integer_pieces held
second_piece size a b =
    let rounds : (size + 7) / 8 ≡ 2 = omega arith in
    let full : min 8 (size - 0) ≡ 8 = omega arith in
    let width : min 8 (size - 8) ≡ size - 8 = omega arith in
    rw (rounds, full, kind_bytes-piece_kind 8, width, kind_bytes-piece_kind (size - 8))
      (omega arith)

-- Of a structure of 1 to 16 bytes in general registers, 8 bytes are carried by the first of two
-- pieces, and the last piece carries all its bytes where it has 1, 2, 4 or 8, and one byte where it
-- has 3, 5, 6 or 7.
pub integer_pieces-loaded :
    (size : ℕ)
    → 0 < size
    → size ≤ 16
    → loaded (integer_pieces ((size + 7) / 8) 0 size)
      ≡ (if leb size 8 then held size else 8 + held (size - 8))
integer_pieces-loaded size a b = elim (Bool-cases (leb size 8)) [
  | inl e ↦ rw e (first_piece size a (leb→le _ _ e))
  | inr e ↦ rw e (second_piece size (ground (arith, e)) b)
]
