-- ===== src/Emitter/SymbolTable/Literals.antt =====
-- src/cbc/emitter/symbols.cpp and src/interpreter/literals.cpp: the literals that the table is built
-- of are those that the interpreter reads.
use mathlib.Core.List.{append_assoc}
use cbc_engine.Prelude.{
  ℕ, zero, suc, ◌+◌, ◌*◌, ◌/◌, ◌%◌, ◌^◌, ◌<◌, ltb, lt→ltb, ◌==◌, ==_iff, if◌then◌else◌, ◌≡◌, refl,
  ap,
}
use cbc_engine.Prelude.{
  List, [], ◌∷◌, ◌++◌, true, Option, some, none, length, length-append, get_elem?, drop, arith,
}
use cbc_engine.Prelude.Partial.{◌>>=◌, ◌>>◌, assert}
use cbc_engine.Isa.{read, bytes_of}
use cbc_engine.Isa.Fields.RoundTrip.{read_fit}
use cbc_engine.Emitter.SymbolTable.{
  Symbols, Table, max_size, value, use_symbol, push_literal, build_table,
}
use cbc_engine.Emitter.Buffer.Splice.{drop-append}

-- LiteralTable::at, on the bytes of the table, and the 64 bits of the literal.
pub literal_at : Table → ℕ → Option ℕ
literal_at table i = do
  assert (ltb i (length table))
  (v, rest) ← read 8 (drop (8 * i) table)
  some v

abbrev pub HasRoom : Table → Type 0
HasRoom table = (length table % 8 ≡ 0) × (length table < max_size * 8)

get_elem?-last : (xs : List ℕ) (v : ℕ) → get_elem? (xs ++ v ∷ []) (length xs) ≡ some v
get_elem?-last [] v = refl
get_elem?-last (x ∷ xs) v = get_elem?-last xs v

abbrev pub pushed : Table → ℕ → Table
pushed table v = table ++ bytes_of 8 v

-- UseSymbol of a symbol that Value made just now.
pub use_symbol-value :
    (v : ℕ) (s : Symbols) (table : Table)
    → HasRoom table
    → use_symbol (value v s).0 (value v s).1 table ≡ some (length table / 8, pushed table v)
unfolding use_symbol value push_literal
use_symbol-value v s table h =
    let aligned : (length table % 8 == 0) ≡ true = (==_iff _ 0).1 h.0 in
    let room : ltb (length table) (max_size * 8) ≡ true = lt→ltb _ _ h.1 in
    let index : length table / 8 % 2 ^ 16 ≡ length table / 8 = omega arith in
    rw (aligned, room, get_elem?-last s.plain_values v, index) refl

pub length-bytes_of : (n v : ℕ) → length (bytes_of n v) ≡ n
unfolding bytes_of
length-bytes_of zero v = refl
length-bytes_of (suc n) v = ap suc (length-bytes_of n (v / 256))

-- A literal that was added last is read at its index, and stays there when more are added.
pub literal_at-pushed :
    (table more : Table) (v : ℕ)
    → length table % 8 ≡ 0
    → v < 2 ^ 64
    → literal_at (pushed table v ++ more) (length table / 8) ≡ some v
unfolding literal_at
literal_at-pushed table more v h l =
    let start : 8 * (length table / 8) ≡ length table = omega arith in
    let inside : ltb (length table / 8) (length (pushed table v ++ more)) ≡ true = lt→ltb _ _ (
      omega (
        arith,
        length-append (pushed table v) more,
        length-append table (bytes_of 8 v),
        length-bytes_of 8 v,
      )) in
    rw
      (
        inside,
        start,
        append_assoc table (bytes_of 8 v) more,
        drop-append table (bytes_of 8 v ++ more),
        read_fit 8 v more l,
      )
      refl

-- A table with room takes a literal at an index of at most 12 bits. BuildTable takes the table that
-- results but where it has all 4096 literals: then its ASSERT fails.
pub use_symbol-build_table :
    (v : ℕ) (s : Symbols) (table : Table)
    → HasRoom table
    → (use_symbol (value v s).0 (value v s).1 table ≡ some (length table / 8, pushed table v))
      × (length table / 8 < max_size)
      × (build_table (pushed table v)
          ≡ (if length table == 4095 * 8 then none else some (pushed table v)))
unfolding build_table
use_symbol-build_table v s table h = (
  use_symbol-value v s table h,
  omega arith,
  let size : length (pushed table v) ≡ length table + 8 =
        rw (length-append table (bytes_of 8 v), length-bytes_of 8 v) refl in
      rw size (ground arith),
)
