-- ===== src/Arith/Runs.antt =====
-- Common operations at concrete operands.
use cbc_engine.Prelude.{◌-◌, ◌%◌, ◌^◌, ℕ, ◌≡◌, refl, arith, some, true}
use cbc_engine.Prelude.Int.{negsuc}
use mathlib.Core.Option
use cbc_engine.Word.{w32, w64, sget, uget, quotient, remainder}
use cbc_engine.Arith.{arith_op, pow_wrapping, compare_op, word, sdiv, srem, udiv, urem, lt}
use cbc_engine.Arith.Power.{pow_wrapping-pow}
use cbc_engine.Arith.Division.{arith_op-divides, signed_value, unsigned_value}

-- -7 by 2, and a zero divisor for the unsigned operations would be `some none`.
arith_op-divides_example :
    (Option.map (signed_value w32) (arith_op w32 sdiv (2 ^ 32 - 7) 2) ≡ some (some (negsuc 2)))
    × (Option.map (signed_value w32) (arith_op w32 srem (2 ^ 32 - 7) 2) ≡ some (some (negsuc 0)))
    × (Option.map (unsigned_value w32) (arith_op w32 udiv (2 ^ 32 - 7) 2) ≡ some (some 2147483644))
    × (Option.map (unsigned_value w32) (arith_op w32 urem (2 ^ 32 - 7) 2) ≡ some (some 1))
unfolding sget uget quotient remainder
arith_op-divides_example = arith_op-divides w32 (2 ^ 32 - 7) 2

pow_wrapping-pow_example : (r : ℕ) × (pow_wrapping 3 50 ≡ some r) × (r % word ≡ 3 ^ 50 % word)
pow_wrapping-pow_example = pow_wrapping-pow 3 50 (omega arith)

-- -1 is below 1.
negative_below : compare_op lt w64 (2 ^ 64 - 1) 1 ≡ true
unfolding compare_op sget
negative_below = refl
