-- ===== src/Checked/Runs.antt =====
-- Checked operations at concrete operands.
use cbc_engine.Prelude.{◌≡◌, refl, false}
use cbc_engine.Prelude.Int.{negsuc, ◌*ℤ◌, ◌-ℤ◌, ◌+ℤ◌}
use cbc_engine.Word.{w8, w16, sget, make_s}
use cbc_engine.Checked.{checked_arith, cmul, csub, casr, mul_overflow, ash_negative_shift}
use cbc_engine.Checked.Exact.{checked_arith-exact, observe, raised, signed}

-- 100 * 3 on 8 bits.
checked_arith-exact_example : observe w8 false (checked_arith w8 cmul 100 3) ≡ raised mul_overflow
unfolding sget ◌*ℤ◌
checked_arith-exact_example = checked_arith-exact w8 cmul 100 3

-- 3 - 5 on 16 bits.
difference : observe w16 false (checked_arith w16 csub 3 5) ≡ signed (negsuc 1)
unfolding checked_arith sget make_s ◌-ℤ◌ ◌+ℤ◌
difference = refl

-- A shift by -1.
negative_shift : observe w8 false (checked_arith w8 casr 3 255) ≡ raised ash_negative_shift
unfolding checked_arith sget
negative_shift = refl
