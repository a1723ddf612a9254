-- ===== src/Casts/Runs.antt =====
-- Casts of concrete values.
use cbc_engine.Prelude.{◌-◌, ◌^◌, ◌≡◌, Option, none, some, Bool, true, false}
use cbc_engine.Prelude.Int.{ℤ, pos, negsuc}
use mathlib.Core.Option
use cbc_engine.Word.{w8, w32, sget}
use cbc_engine.Checked.{cast_u8_max, cast_i8_min}
use cbc_engine.Casts.{signed, unsigned, cast_prim, checked_cast_from_integral, checked_cast_from_fp}
use cbc_engine.Casts.Exact.{observe, value_of, cast-exact, fp_cast-exact}
use cbc_engine.Casts.Wraps.{cast_prim-wraps}

-- 300 does not fit an unsigned byte.
cast-exact_example :
    observe (unsigned w8) (checked_cast_from_integral (unsigned w8) (signed w32) 300)
    ≡ (cast_u8_max, pos 0)
unfolding sget
cast-exact_example = cast-exact (unsigned w8) (signed w32) 300

-- -1 of 32 bits as an unsigned byte.
cast_prim-wraps_example :
    Option.map (value_of (unsigned w8)) (cast_prim (unsigned w8) (signed w32) (2 ^ 32 - 1))
    ≡ some (pos 255)
unfolding sget
cast_prim-wraps_example = cast_prim-wraps (unsigned w8) (signed w32) (2 ^ 32 - 1)

-- A number that stands for a `double`: `none` is not finite.
abbrev has_value : Option ℤ → Bool
has_value none = false
has_value (some z) = true

abbrev value_or_zero : Option ℤ → ℤ
value_or_zero none = pos 0
value_or_zero (some z) = z

fp_cast-exact_example :
    observe
      (signed w8)
      (checked_cast_from_fp (Option ℤ) has_value value_or_zero (signed w8) (some (negsuc 128)))
    ≡ (cast_i8_min, pos 0)
fp_cast-exact_example =
    fp_cast-exact (Option ℤ) has_value value_or_zero (signed w8) (some (negsuc 128))
