-- ===== src/Memory/Bytes.antt =====
-- Bytes that are written are read back, and other bytes stay.
use cbc_engine.Prelude.{ℕ, zero, suc, ◌+◌, ◌*◌, ◌/◌, ◌%◌, ◌^◌, ◌≤◌, ◌<◌, ◌==◌}
use cbc_engine.Prelude.{true, false, ◌≡◌, refl, sym, ap, ◌∙◌, ◌⊎◌, arith}
use native.Mathlib.Nat.{
  pow-suc, pow-zero, one-le-pow, div-add-mod, add-mul-mod_self_right, mod-eq_of_lt,
}
use cbc_engine.Memory.{Memory, write_bytes, read_bytes}

-- Bytes outside the range are kept.
pub write_bytes-outside :
    (n address value : ℕ) (m : Memory) (i : ℕ)
    → (i < address) ⊎ (address + n ≤ i)
    → write_bytes n address value m i ≡ m i
unfolding write_bytes
write_bytes-outside zero address value m i h = refl
write_bytes-outside (suc n) address value m i h =
    let other : i == address ≡ false = ground arith in
    rw other (write_bytes-outside n (suc address) (value / 256) m i (ground arith))

-- Reading sees the bytes of the range only.
pub read_bytes-agree :
    (n address : ℕ) (m k : Memory)
    → ((i : ℕ) → address ≤ i → i < address + n → m i ≡ k i)
    → read_bytes n address m ≡ read_bytes n address k
unfolding read_bytes
read_bytes-agree zero address m k h = refl
read_bytes-agree (suc n) address m k h = rw (
  h address (omega arith) (omega arith),
  read_bytes-agree n (suc address) m k (λ i p q. h i (omega arith) (omega arith)),
)

-- The lowest byte and the higher ones.
pub split_mod : (v p : ℕ) → 0 < p → v % 256 + 256 * (v / 256 % p) ≡ v % (p * 256)
split_mod v p h = sym (
    ap (λ (t : ℕ). t % (p * 256)) whole
    ∙ add-mul-mod_self_right (v % 256 + 256 * (v / 256 % p)) (v / 256 / p) (p * 256)
    ∙ mod-eq_of_lt (small (v % 256) (v / 256 % p) p (omega arith) (omega (arith, h))))
  where
    whole : v ≡ v % 256 + 256 * (v / 256 % p) + v / 256 / p * (p * 256)
    whole = grind (arith, ap (λ (t : ℕ). 256 * t) (div-add-mod (v / 256) p), div-add-mod v 256)

    small : (a b p : ℕ) → a < 256 → b < p → a + 256 * b < p * 256
    small a b p k l = omega arith

-- What is written is read back, modulo the size.
pub read_bytes-write_bytes :
    (n address value : ℕ) (m : Memory)
    → read_bytes n address (write_bytes n address value m) ≡ value % 256 ^ n
unfolding write_bytes read_bytes
read_bytes-write_bytes zero address value m = omega (arith, pow-zero 256)
read_bytes-write_bytes (suc n) address value m =
    let here : address == address ≡ true = ground arith in
    rw here (
      ap (λ (t : ℕ). value % 256 + 256 * t)
        (read_bytes-agree n (suc address) _ (write_bytes n (suc address) (value / 256) m)
            (λ i p q. let other : i == address ≡ false = ground arith in rw other)
          ∙ read_bytes-write_bytes n (suc address) (value / 256) m)
      ∙ split_mod value (256 ^ n) (one-le-pow n 256 (omega arith))
      ∙ ap (λ (t : ℕ). value % t) (sym (pow-suc 256 n)))
