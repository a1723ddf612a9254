-- ===== src/Saturating/Runs.antt =====
-- Saturating operations at concrete operands.
use cbc_engine.Prelude.{◌-◌, ◌^◌, ◌≡◌, refl, arith, some}
use cbc_engine.Prelude.Int.{pos, negsuc, ◌*ℤ◌, ◌-ℤ◌}
use mathlib.Core.Option
use cbc_engine.Word.{w8, w64, sget, uget, make_s}
use cbc_engine.Saturating.{sat_arith, sat_arith_u, sat_pow, smul, sdiv, suadd, sulsl, sulsr}
use cbc_engine.Saturating.Power.{sat_pow-eq-clamp, power}
use cbc_engine.Saturating.Exact.{sat_arith-exact}
use cbc_engine.Saturating.Unsigned.{sat_arith_u-exact, sat_arith_u-clamped, huge_shift}

-- 100 * 3 on 8 bits.
sat_arith-exact_example : Option.map (sget w8) (sat_arith w8 smul 100 3) ≡ some (pos 127)
unfolding sget ◌*ℤ◌
sat_arith-exact_example = sat_arith-exact w8 smul 100 3

-- -128 / -1 on 8 bits.
least_quotient : Option.map (sget w8) (sat_arith w8 sdiv 128 255) ≡ some (pos 127)
unfolding sat_arith sget make_s ◌-ℤ◌
least_quotient = refl

-- 200 + 100 on 8 bits.
sat_arith_u-exact_example : Option.map (uget w8) (sat_arith_u w8 suadd 200 100) ≡ some 255
unfolding uget
sat_arith_u-exact_example = sat_arith_u-exact w8 suadd 200 100 refl

-- (-3) ^ 5 is -243.
sat_pow-eq-clamp_example : sat_pow w8 (negsuc 2) 5 ≡ negsuc 127
unfolding power ◌*ℤ◌
sat_pow-eq-clamp_example = sat_pow-eq-clamp w8 (negsuc 2) 5

huge_shift_example :
    (sat_arith_u w64 sulsl 5 (2 ^ 64 - 1) ≡ some 5)
    × (sat_arith_u w64 sulsr 5 (2 ^ 64 - 1) ≡ some 5)
huge_shift_example = huge_shift 5 (2 ^ 64 - 1) (omega arith) (omega arith) (omega arith)

-- 128 shifted right by 8 on 8 bits is 1, and shifted left 255.
sat_arith_u-clamped_example :
    (sat_arith_u w8 sulsl 128 8 ≡ sat_arith_u w8 sulsl 128 7)
    × (sat_arith_u w8 sulsr 128 8 ≡ sat_arith_u w8 sulsr 128 7)
unfolding uget
sat_arith_u-clamped_example = sat_arith_u-clamped w8 128 8 (omega arith) (omega arith)
