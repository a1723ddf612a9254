-- ===== src/Casts/Wraps.antt =====
-- An unchecked cast is the conversion of the value, which wraps.
use cbc_engine.Prelude.{ℕ, ◌^◌, ◌<◌, if◌then◌else◌}
use cbc_engine.Prelude.{Bool, true, false, ◌≡◌, refl, ap, arith, none, some}
use cbc_engine.Prelude.Int.{ℤ, pos, negsuc}
use mathlib.Core.Option
use cbc_engine.Word.{w8, w16, w32, w64, uget, sget, InRange}
use cbc_engine.Word.Laws.{sget-InRange, uget-lt}
use cbc_engine.Casts.{IntType, signed, unsigned, convert, make_int_prim, cast_int, cast_prim}
use cbc_engine.Casts.{cast_from_32, cast_from_i64, cast_from_u64}
use cbc_engine.Casts.Exact.{value_of}

-- The pairs of integer types that the code supports.
abbrev pub is_supported : IntType → IntType → Bool
is_supported (signed w8) (signed w32) = true
is_supported (unsigned w8) (signed w32) = true
is_supported (signed w16) (signed w32) = true
is_supported (unsigned w16) (signed w32) = true
is_supported (signed w64) (signed w32) = true
is_supported (signed w8) (unsigned w32) = true
is_supported (unsigned w8) (unsigned w32) = true
is_supported (signed w16) (unsigned w32) = true
is_supported (unsigned w16) (unsigned w32) = true
is_supported (signed w64) (unsigned w32) = true
is_supported (signed w32) (signed w64) = true
is_supported (signed w32) (unsigned w64) = true
is_supported (unsigned w32) (unsigned w64) = true
is_supported _ _ = false

-- A converted value survives the 64-bit pattern.
kept : (to : IntType) (z : ℤ) → value_of to (make_int_prim (convert to z)) ≡ convert to z
unfolding sget uget
kept (signed w8) z = ground arith
kept (signed w16) z = ground arith
kept (signed w32) z = ground arith
kept (signed w64) z = ground arith
kept (unsigned w8) z = ground arith
kept (unsigned w16) z = ground arith
kept (unsigned w32) z = ground arith
kept (unsigned w64) z = ground arith

-- A 32-bit value is widened by its own sign.
widened_signed :
    (z : ℤ)
    → InRange w32 z
    → value_of (signed w64) (make_int_prim (convert (signed w32) z)) ≡ convert (signed w64) z
unfolding sget uget
widened_signed (pos n) h = ground arith
widened_signed (negsuc n) h = ground arith

widened_unsigned :
    (n : ℕ)
    → n < 2 ^ 32
    → value_of (signed w64) (make_int_prim (convert (unsigned w32) (pos n)))
      ≡ convert (signed w64) (pos n)
unfolding sget uget
widened_unsigned n h = ground arith

-- CastPrim between integer types is supported on thirteen pairs; there, the result stands for the
-- value modulo 2 to the width of the target type.
pub cast_prim-wraps :
    (to from : IntType) (p : ℕ)
    → Option.map (value_of to) (cast_prim to from p)
      ≡ (if is_supported to from then some (convert to (value_of from p)) else none)
unfolding cast_prim cast_from_32 cast_from_i64 cast_from_u64 cast_int
cast_prim-wraps (signed w8) (signed w32) p = ap some (kept (signed w8) (sget w32 p))
cast_prim-wraps (signed w16) (signed w32) p = ap some (kept (signed w16) (sget w32 p))
cast_prim-wraps (signed w32) (signed w32) p = refl
cast_prim-wraps (signed w64) (signed w32) p =
    ap some (widened_signed (sget w32 p) (sget-InRange w32 p))
cast_prim-wraps (unsigned w8) (signed w32) p = ap some (kept (unsigned w8) (sget w32 p))
cast_prim-wraps (unsigned w16) (signed w32) p = ap some (kept (unsigned w16) (sget w32 p))
cast_prim-wraps (unsigned w32) (signed w32) p = refl
cast_prim-wraps (unsigned w64) (signed w32) p = refl
cast_prim-wraps (signed w8) (signed w64) p = refl
cast_prim-wraps (signed w16) (signed w64) p = refl
cast_prim-wraps (signed w32) (signed w64) p = ap some (kept (signed w32) (sget w64 p))
cast_prim-wraps (signed w64) (signed w64) p = refl
cast_prim-wraps (unsigned w8) (signed w64) p = refl
cast_prim-wraps (unsigned w16) (signed w64) p = refl
cast_prim-wraps (unsigned w32) (signed w64) p = refl
cast_prim-wraps (unsigned w64) (signed w64) p = refl
cast_prim-wraps (signed w8) (unsigned w32) p = ap some (kept (signed w8) (pos (uget w32 p)))
cast_prim-wraps (signed w16) (unsigned w32) p = ap some (kept (signed w16) (pos (uget w32 p)))
cast_prim-wraps (signed w32) (unsigned w32) p = refl
cast_prim-wraps (signed w64) (unsigned w32) p =
    ap some (widened_unsigned (uget w32 p) (uget-lt w32 p))
cast_prim-wraps (unsigned w8) (unsigned w32) p = ap some (kept (unsigned w8) (pos (uget w32 p)))
cast_prim-wraps (unsigned w16) (unsigned w32) p = ap some (kept (unsigned w16) (pos (uget w32 p)))
cast_prim-wraps (unsigned w32) (unsigned w32) p = refl
cast_prim-wraps (unsigned w64) (unsigned w32) p = refl
cast_prim-wraps (signed w8) (unsigned w64) p = refl
cast_prim-wraps (signed w16) (unsigned w64) p = refl
cast_prim-wraps (signed w32) (unsigned w64) p = ap some (kept (signed w32) (pos (uget w64 p)))
cast_prim-wraps (signed w64) (unsigned w64) p = refl
cast_prim-wraps (unsigned w8) (unsigned w64) p = refl
cast_prim-wraps (unsigned w16) (unsigned w64) p = refl
cast_prim-wraps (unsigned w32) (unsigned w64) p = ap some (kept (unsigned w32) (pos (uget w64 p)))
cast_prim-wraps (unsigned w64) (unsigned w64) p = refl
cast_prim-wraps (signed w8) (signed w8) p = refl
cast_prim-wraps (signed w16) (signed w8) p = refl
cast_prim-wraps (signed w32) (signed w8) p = refl
cast_prim-wraps (signed w64) (signed w8) p = refl
cast_prim-wraps (unsigned w8) (signed w8) p = refl
cast_prim-wraps (unsigned w16) (signed w8) p = refl
cast_prim-wraps (unsigned w32) (signed w8) p = refl
cast_prim-wraps (unsigned w64) (signed w8) p = refl
cast_prim-wraps (signed w8) (signed w16) p = refl
cast_prim-wraps (signed w16) (signed w16) p = refl
cast_prim-wraps (signed w32) (signed w16) p = refl
cast_prim-wraps (signed w64) (signed w16) p = refl
cast_prim-wraps (unsigned w8) (signed w16) p = refl
cast_prim-wraps (unsigned w16) (signed w16) p = refl
cast_prim-wraps (unsigned w32) (signed w16) p = refl
cast_prim-wraps (unsigned w64) (signed w16) p = refl
cast_prim-wraps (signed w8) (unsigned w8) p = refl
cast_prim-wraps (signed w16) (unsigned w8) p = refl
cast_prim-wraps (signed w32) (unsigned w8) p = refl
cast_prim-wraps (signed w64) (unsigned w8) p = refl
cast_prim-wraps (unsigned w8) (unsigned w8) p = refl
cast_prim-wraps (unsigned w16) (unsigned w8) p = refl
cast_prim-wraps (unsigned w32) (unsigned w8) p = refl
cast_prim-wraps (unsigned w64) (unsigned w8) p = refl
cast_prim-wraps (signed w8) (unsigned w16) p = refl
cast_prim-wraps (signed w16) (unsigned w16) p = refl
cast_prim-wraps (signed w32) (unsigned w16) p = refl
cast_prim-wraps (signed w64) (unsigned w16) p = refl
cast_prim-wraps (unsigned w8) (unsigned w16) p = refl
cast_prim-wraps (unsigned w16) (unsigned w16) p = refl
cast_prim-wraps (unsigned w32) (unsigned w16) p = refl
cast_prim-wraps (unsigned w64) (unsigned w16) p = refl
