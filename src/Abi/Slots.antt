-- ===== src/Abi/Slots.antt =====
-- The stack slots that the arguments of a call get.
use cbc_engine.Prelude.{
  ℕ, zero, suc, ◌+◌, ◌-◌, ◌<◌, ltb, if◌then◌else◌, true, false, ◌≡◌, refl, ap, ◌∙◌, arith,
}
use cbc_engine.Prelude.{List, [], ◌∷◌, none, some, Option-cases, Bool-cases, inl, inr}
use cbc_engine.Location.{Location, virt_count, reg_count}
use cbc_engine.Abi.{
  PlatformDescription, AbiAssigner, CbcTypeKind, is_float, register_at, consume, consume_all,
  give_freg, give_ireg,
}

-- The slots among the locations, and consecutive slots.
abbrev pub slots_of : List Location → List ℕ
slots_of [] = []
slots_of (Location.nil ∷ ls) = slots_of ls
slots_of (Location.at i ∷ ls) =
    let rest = slots_of ls in if ltb i reg_count then rest else (i - reg_count) ∷ rest

abbrev pub consecutive : ℕ → ℕ → List ℕ
consecutive s zero = []
consecutive s (suc n) = s ∷ consecutive (suc s) n

-- The registers of the head areas exist.
pub record IsPlatform (d : PlatformDescription) : Type 0 where
  pub iregs : (i r : ℕ) → register_at d.ireg_head_area i ≡ some r → r < 14
  pub fregs : (i r : ℕ) → register_at d.freg_head_area i ≡ some r → r < 16

register_first :
    (i : ℕ) (ls : List Location) → i < reg_count → slots_of (Location.at i ∷ ls) ≡ slots_of ls
register_first i ls h = let small : ltb i reg_count ≡ true = ground arith in rw small

slot_first :
    (s : ℕ) (ls : List Location) → slots_of (Location.at (s + reg_count) ∷ ls) ≡ s ∷ slots_of ls
slot_first s ls =
    let large : ltb (s + reg_count) reg_count ≡ false = ground arith in
    let back : s + reg_count - reg_count ≡ s = omega arith in rw (large, back)

abbrev IsGiven : AbiAssigner → List Location × AbiAssigner → Type 0
IsGiven a (ls, b) =
    (n : ℕ) × (slots_of ls ≡ consecutive a.slot_idx n) × (b.slot_idx ≡ a.slot_idx + n)

after_register :
    (a b : AbiAssigner) (i : ℕ) (x : List Location × AbiAssigner)
    → i < reg_count
    → b.slot_idx ≡ a.slot_idx
    → IsGiven b x
    → IsGiven a (Location.at i ∷ x.0, x.1)
after_register a b i x h e (n, slots, next) = (
  n,
  register_first i x.0 h ∙ slots ∙ ap (λ (t : ℕ). consecutive t n) e,
  next ∙ ap (λ (t : ℕ). t + n) e,
)

after_slot :
    (a b : AbiAssigner) (x : List Location × AbiAssigner)
    → b.slot_idx ≡ suc a.slot_idx
    → IsGiven b x
    → IsGiven a (Location.at (a.slot_idx + reg_count) ∷ x.0, x.1)
after_slot a b x e (n, slots, next) = (
  suc n,
  slot_first a.slot_idx x.0
      ∙ ap (λ (t : List ℕ). a.slot_idx ∷ t) (slots ∙ ap (λ (t : ℕ). consecutive t n) e),
  omega (arith, next, e),
)

-- The arguments that get no register get consecutive stack slots, in their order, from the first
-- free one on, which moves past them.
pub consume_all-slots :
    (d : PlatformDescription) (ks : List CbcTypeKind) (a : AbiAssigner)
    → IsPlatform d
    → (n : ℕ) × (slots_of (consume_all d ks a).0 ≡ consecutive a.slot_idx n)
      × ((consume_all d ks a).1.slot_idx ≡ a.slot_idx + n)
unfolding consume_all consume
consume_all-slots d [] a p = (0, refl, omega arith)
consume_all-slots d (k ∷ ks) a p = elim (Bool-cases (is_float k)) [
  | inl e ↦ elim (Option-cases (register_at d.freg_head_area a.farg_idx)) [
    | inl spent ↦
        rw (e, spent)
          (after_slot a (give_freg none a).1 (consume_all d ks (give_freg none a).1) refl
            (consume_all-slots d ks (give_freg none a).1 p))
    | inr (r, found) ↦
        rw (e, found)
          (after_register a (give_freg (some r) a).1 (r + virt_count)
            (consume_all d ks (give_freg (some r) a).1) (omega (arith, p.fregs a.farg_idx r found))
            refl (consume_all-slots d ks (give_freg (some r) a).1 p))
  ]
  | inr e ↦ elim (Option-cases (register_at d.ireg_head_area a.iarg_idx)) [
    | inl spent ↦
        rw (e, spent)
          (after_slot a (give_ireg none a).1 (consume_all d ks (give_ireg none a).1) refl
            (consume_all-slots d ks (give_ireg none a).1 p))
    | inr (r, found) ↦
        rw (e, found)
          (after_register a (give_ireg (some r) a).1 r (consume_all d ks (give_ireg (some r) a).1)
            (omega (arith, p.iregs a.iarg_idx r found)) refl
            (consume_all-slots d ks (give_ireg (some r) a).1 p))
  ]
]
