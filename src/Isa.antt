-- ===== src/Isa.antt =====
-- src/cbc/decoder.h, isa.h, isa_rt.h and emitter/encoding_rt.cpp: instructions as bytes.
-- A reader is the list of the bytes from its cursor to its end, and `none` is an ASSERTION of its
-- bound check. Encode adds bytes to a buffer: here it answers with them. The enumerations, registers
-- and pointers of the fields are their numbers.
pub mod Fields
pub mod Opcode
pub mod Short
pub mod Immediates
pub mod Operations
pub mod Copies
pub mod TypeSlots
pub mod Calls
pub mod Stores
pub mod StackParams
pub mod Format
pub mod Command
pub mod Runs
use cbc_engine.Prelude.{
  Bool, true, false, ℕ, zero, suc, ◌+◌, ◌*◌, ◌/◌, ◌%◌, ◌^◌, List, [], ◌∷◌, Option, none, some,
}

-- FatByteReader: what a reading operation answers, and the reader after it.
abbrev pub Reader {ℓ} : Type ℓ → Type ℓ
Reader A = List ℕ → Option (A × List ℕ)

module _ {ℓ κ} {A : Type ℓ} {B : Type κ} where
  abbrev pub and_then : Option (A × List ℕ) → (A → Reader B) → Option (B × List ℕ)
  and_then none f = none
  and_then (some (a, rest)) f = f a rest

  infixl 1 ◌>>=◌ ◌>>◌
  abbrev pub ◌>>=◌ : Reader A → (A → Reader B) → Reader B
  p >>= f = λ bytes. and_then (p bytes) f

  abbrev pub ◌>>◌ : Reader A → Reader B → Reader B
  p >> q = p >>= λ _. q

abbrev pub pure {ℓ} : {A : Type ℓ} → A → Reader A
pure a bytes = some (a, bytes)

abbrev pub run {ℓ} : {A : Type ℓ} → List ℕ → Reader A → Option (A × List ℕ)
run bytes p = p bytes

-- FatByteReader::Read of a number of bytes, the least significant one first.
pub read : ℕ → Reader ℕ
read zero bytes = some (0, bytes)
read (suc n) [] = none
read (suc n) (b ∷ bytes) = and_then (read n bytes) λ v rest. some (b + 256 * v, rest)

-- FatByteReader::PeekOpcode
unfoldable pub peek_opcode : Reader ℕ
peek_opcode [] = none
peek_opcode (b ∷ bytes) = some (b, b ∷ bytes)

-- An ASSERT, and a FATAL.
abbrev pub assert : Bool → Reader (Unit {0})
assert true bytes = some (tt, bytes)
assert false bytes = none

-- IReg::COUNT.
abbrev pub ireg_count : ℕ
ireg_count = 15

abbrev pub fatal {ℓ} : {A : Type ℓ} → Reader A
fatal bytes = none

-- AddW8 to AddW64: the bytes that they push.
unfoldable pub bytes_of : ℕ → ℕ → List ℕ
bytes_of zero value = []
bytes_of (suc n) value = value % 256 ∷ bytes_of n (value / 256)
