-- ===== src/Emitter/SymbolTable.antt =====
-- src/cbc/emitter/symbols.h and .cpp: labels and values, and the table of the literals of a code.
-- A position is an `int32_t`, an integer here; `none` is a failed ASSERT or a FATAL, and a vector
-- that is indexed out of its range.
pub mod Literals
pub mod Labels
use cbc_engine.Prelude.{ℕ, ◌+◌, ◌*◌, ◌/◌, ◌%◌, ◌^◌, ltb, ◌==◌, if◌then◌else◌, List, [], ◌∷◌, ◌++◌}
use cbc_engine.Prelude.{Bool, true, false, ◌&&◌, Option, none, some, length, set, get_elem?}
use cbc_engine.Prelude.Int.{ℤ, pos, negsuc}
use cbc_engine.Word.{w64, to_unsigned}
use cbc_engine.Isa.{bytes_of}

pub data SymbolKind : Type 0 where
  label plain_value : SymbolKind

pub record Symbol : Type 0 where
  pub kind : SymbolKind
  pub id : ℕ

pub record Symbols : Type 0 where
  pub label_positions : List ℤ
  pub plain_values : List ℕ

abbrev pub invalid_position : ℤ
invalid_position = negsuc 0

abbrev pub is_invalid : ℤ → Bool
is_invalid (pos n) = false
is_invalid (negsuc n) = n == 0

-- Symbols::Value on `uint64_t` and on `int32_t`.
pub value : ℕ → Symbols → Symbol × Symbols
value v s = (
  record { kind = plain_value; id = length s.plain_values },
  record s { plain_values = s.plain_values ++ v ∷ [] },
)

pub value_i32 : ℤ → Symbols → Symbol × Symbols
value_i32 v s = value (to_unsigned w64 v) s

-- Symbols::NewLabel: a Label is its id.
pub new_label : Symbols → ℕ × Symbols
new_label s = (
  length s.label_positions,
  record s { label_positions = s.label_positions ++ invalid_position ∷ [] },
)

bind_at : Option ℤ → ℕ → ℤ → Symbols → Option Symbols
bind_at none id position s = none
bind_at (some old) id position s =
    if is_invalid old
    then some (record s { label_positions = set s.label_positions id position })
    else none

-- Symbols::Bind and LabelPosition.
pub bind : ℕ → ℤ → Symbols → Option Symbols
bind id position s = bind_at (get_elem? s.label_positions id) id position s

unfoldable pub bound : Option ℤ → Option ℤ
bound none = none
bound (some position) = if is_invalid position then none else some position

unfoldable pub label_position : ℕ → Symbols → Option ℤ
label_position id s = bound (get_elem? s.label_positions id)

-- LiteralTableBuilder: the bytes of the table.
abbrev pub max_size : ℕ
max_size = 4096

abbrev pub Table : Type 0
Table = List ℕ

push_literal : Option ℕ → Table → Option (ℕ × Table)
push_literal none table = none
push_literal (some v) table = some (length table / 8 % 2 ^ 16, table ++ bytes_of 8 v)

-- LiteralTableBuilder::UseSymbol
pub use_symbol : Symbol → Symbols → Table → Option (ℕ × Table)
use_symbol symbol s table = elim symbol.kind [
  | label ↦ none
  | plain_value ↦
      if (length table % 8 == 0) && ltb (length table) (max_size * 8)
      then push_literal (get_elem? s.plain_values symbol.id) table
      else none
]

-- LiteralTableBuilder::BuildTable
pub build_table : Table → Option Table
build_table table =
    if (length table % 8 == 0) && ltb (length table) (max_size * 8) then some table else none
