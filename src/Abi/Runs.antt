-- ===== src/Abi/Runs.antt =====
-- The arguments of a call on a small platform.
use cbc_engine.Prelude.{ℕ, zero, suc, ◌+◌, ◌<◌, ◌≡◌, refl, arith, List, [], ◌∷◌, some, true, false}
use cbc_engine.Location.{Location}
use cbc_engine.Abi.{
  PlatformDescription, CbcTypeKind, initial, register_at, consume_all, i64, f64, ref,
}
use cbc_engine.Abi.Slots.{IsPlatform, slots_of, consecutive, consume_all-slots}

-- One general and one floating-point register.
abbrev platform : PlatformDescription
platform = record {
  ireg_head_area = 3 ∷ [];
  freg_head_area = 0 ∷ [];
  sret_shifts = true;
  sret_ir_idx = 0;
  only_on_stack_varargs = false;
}

only : (r bound : ℕ) → r < bound → (i q : ℕ) → register_at (r ∷ []) i ≡ some q → q < bound
only r bound h zero q e = ground (arith, h, e)
only r bound h (suc i) q e = absurd cc

platform-IsPlatform : IsPlatform platform
platform-IsPlatform = record { iregs = only 3 14 (omega arith); fregs = only 0 16 (omega arith) }

abbrev kinds : List CbcTypeKind
kinds = i64 ∷ ref ∷ f64 ∷ f64 ∷ []

given :
    (consume_all platform kinds initial).0
    ≡ Location.at 3 ∷ Location.at 30 ∷ Location.at 14 ∷ Location.at 31 ∷ []
unfolding consume_all
given = refl

consume_all-slots_example :
    (n : ℕ) × (slots_of (consume_all platform kinds initial).0 ≡ consecutive 0 n)
    × ((consume_all platform kinds initial).1.slot_idx ≡ 0 + n)
consume_all-slots_example = consume_all-slots platform kinds initial platform-IsPlatform
