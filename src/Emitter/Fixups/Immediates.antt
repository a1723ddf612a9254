-- ===== src/Emitter/Fixups/Immediates.antt =====
-- The immediates of the branches: what the interpreter reads of them is what was asked for.
use mathlib.Core.List.{append-nil}
use cbc_engine.Prelude.{ℕ, ◌-◌, ◌/◌, ◌%◌, ◌^◌, ◌<◌, ◌≡◌, refl, ap, sym, ◌∙◌, inl, inr}
use cbc_engine.Prelude.{
  if◌then◌else◌, [], Bool, Bool-cases, true, false, bit_and, Option, some, length, arith,
}
use cbc_engine.Prelude.Int.{ℤ, pos, negsuc}
use cbc_engine.Prelude.Bits.{bit_and-mask}
use cbc_engine.Word.{w32, w64, InRange, sget, to_unsigned}
use cbc_engine.Bits.{sign_extend_64, is_sign}
use cbc_engine.Bits.Extension.{sign_extend_64-value}
use cbc_engine.Isa.StackParams.RoundTrip.{sget-to_unsigned, to_unsigned-lt}
use cbc_engine.Emitter.SymbolTable.{Table, value}
use cbc_engine.Emitter.SymbolTable.Literals.{
  HasRoom, pushed, literal_at, use_symbol-value, literal_at-pushed,
}
use cbc_engine.Emitter.Fixups.{Building, is_short, use_value, immediate_of_distance}

-- src/interpreter/internal/operations.h, DecodeImmediate: of a value, and of a literal.
pub decode_immediate : Bool → Table → ℕ → Option ℕ
decode_immediate true table v = some (sign_extend_64 v 12)
decode_immediate false table v = literal_at table v

-- A distance of 12 bits.
low_bits : (d : ℤ) → bit_and (to_unsigned w32 d) 4095 ≡ to_unsigned w32 d % 4096
low_bits d = bit_and-mask 12 (to_unsigned w32 d)

pub short_distance :
    (d : ℤ)
    → InRange w32 d
    → is_short d ≡ true
    → sget w64 (sign_extend_64 (to_unsigned w32 d % 4096) 12) ≡ d
unfolding is_short is_sign sget
short_distance (pos n) h s =
    let small : n < 2048 = ground arith in
    let same : n % 2 ^ 32 % 4096 ≡ n = omega arith in
    rw (same, sign_extend_64-value n 11 (omega arith)) (ground arith)
short_distance (negsuc n) h s =
    let small : n < 2048 = ground arith in
    let same : (2 ^ 32 - 1 - n % 2 ^ 32) % 4096 ≡ 4095 - n = omega arith in
    rw (same, sign_extend_64-value (4095 - n) 11 (omega arith)) (ground arith)

wide : (d : ℤ) → InRange w32 d → InRange w64 d
wide (pos n) h = (omega arith, omega arith)
wide (negsuc n) h = (omega arith, omega arith)

-- A use of a value keeps the code, and adds a literal that is read as the value.
pub use_value-reads :
    (v : ℕ) (b : Building)
    → v < 2 ^ 64
    → HasRoom b.table
    → (index : ℕ) × (b' : Building) × (use_value v b ≡ some (index, b'))
      × (index < 4096)
      × (b'.segment ≡ b.segment)
      × (literal_at b'.table index ≡ some v)
      × (b'.table ≡ pushed b.table v)
unfolding use_value
use_value-reads v b l h = (
  length b.table / 8,
  record { segment = b.segment; symbols = (value v b.symbols).1; table = pushed b.table v },
  rw (use_symbol-value v b.symbols b.table h) refl,
  omega arith,
  refl,
  ap (λ (t : Table). literal_at t (length b.table / 8)) (sym (append-nil (pushed b.table v)))
      ∙ literal_at-pushed b.table [] v h.0 l,
  refl,
)

-- The immediate of a distance is read as the distance, whichever kind it is.
pub immediate_of_distance-reads :
    (d : ℤ) (b : Building)
    → InRange w32 d
    → HasRoom b.table
    → (immediate : ℕ) × (b' : Building) × (immediate_of_distance d b ≡ some (immediate, b'))
      × (immediate < 4096)
      × (b'.segment ≡ b.segment)
      × (v : ℕ) × (decode_immediate (is_short d) b'.table immediate ≡ some v)
      × (sget w64 v ≡ d)
      × (b'.table ≡ (if is_short d then b.table else pushed b.table (to_unsigned w64 d)))
unfolding immediate_of_distance decode_immediate
immediate_of_distance-reads d b r h = elim (Bool-cases (is_short d)) [
  | inl short ↦ (
    to_unsigned w32 d % 4096,
    b,
    rw (short, low_bits d) refl,
    omega arith,
    refl,
    sign_extend_64 (to_unsigned w32 d % 4096) 12,
    rw short refl,
    short_distance d r short,
    rw short refl,
  )
  | inr long ↦
      let (index, b', uses, low, same, reads, more) =
        use_value-reads (to_unsigned w64 d) b (to_unsigned-lt w64 d) h in
      (
        index,
        b',
        rw long uses,
        low,
        same,
        to_unsigned w64 d,
        rw long reads,
        sget-to_unsigned w64 d (wide d r),
        rw long more,
      )
]
