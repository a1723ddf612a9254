-- ===== src/Lib.antt =====
-- A model of the bytecode engine (the C++ below src/) and the theorems about it. Paths are from
-- the repository's root.
--
-- Parts:
-- - Location, MoveResolver: src/cbc/move_resolver.h and .cpp. A call's register and slot moves are
--   collected and put in an order. `resolve` is `MoveResolver::Resolve`; its loops over
--   `REG_COUNT` locations are `for_below`, `first_below` and `any_below`, its `while (changed)` is
--   `iterate` on fuel. Fuel `enough` is 61, since a round settles one of the 30 nodes or turns one
--   into a reader of a temporary register. The calls on the `MoveEmitter` are a list of `Instr`;
--   MoveResolver.Machine says what they mean.
-- - Prelude: Boolean tests, lists, integers and bit laws over the native numbers.
-- - Vector: src/utils/vector.h (`push_back`, `resize`, ...). The memory is a list of cells; the
--   specification is the list of the elements.
-- - Word: WidthTraits of src/interpreter/internal/operations.h, a 64-bit primitive read and written
--   at a width (`uget`, `sget`, `make_u`, `make_s`); signed values are integers.
-- - Saturating: SatArith and SatArithU of the same file (`sat_arith`, `sat_arith_u`); the 128-bit
--   intermediate values are exact.
-- - Checked: its Arith on Checked operations (`checked_arith`), less CPOW and CNEG.
-- - Arith: its Arith on Common operations (`arith_op`), PowWrapping (`pow_wrapping`, on fuel 64, as
--   an exponent has 64 bits and is halved in a round) and Compare on numbers (`compare_op`).
-- - Casts: src/interpreter/casts.h, between integers (`cast_prim`, `checked_cast_from_integral`) and
--   the checked ones from floating point (`checked_cast_from_fp`), which take a `double` as a
--   parameter. Unchecked floating-point casts are not modelled.
-- - Leb: src/utils/lebencodings.cpp. A buffer is the list of its bytes up to `end`; `read_loop` is the
--   loop of both readers.
-- - Memory: MemoryLocation of src/interpreter/internal/operations.h (`store_prim`, `load_prim`,
--   `store_imm`, references) on a memory of bytes, and the offsets of array elements.
-- - Bits: src/utils/math.h (`align_up`, `bits`, `rotate_right_64`, ...).
-- - Isa: the formats of the instructions, src/cbc/isa_rt.h and isa.h (the structures and Decode),
--   src/cbc/emitter/encoding_rt.cpp (Encode), and src/cbc/formater_rt.cpp (`log`, the loop of Log, on
--   fuel: a code of n bytes has at most n instructions; `running` is a loop that is not at its end). `read` is the ByteReader, `bytes_of` the
--   pushes of the segment. Isa.Fields has the packed fields, Isa.Format the table CBC_RT_OPCODES,
--   Isa.Command joins all formats; the other modules have the formats by families.
-- - Emitter: src/cbc/emitter. `Emitter` is its state; Emitter.Buffer and Emitter.SymbolTable are
--   segment.cpp and symbols.cpp, Emitter.Fixups the classes of fixups of emitter.cpp and their
--   `resolve`, Emitter.Operands the instructions that choose a form by an operand,
--   Emitter.Copies the copies and the addresses of elements, Emitter.Objects the instructions on
--   objects, closures and stack parameters, Emitter.Calls their calls as data. What the
--   interpreter reads of a branch and of a literal (src/interpreter/interpreter.h, literals.cpp) is
--   in Emitter.Fixups.Lands and Emitter.SymbolTable.Literals. Lists of bytes stand for Vector.
-- - InterpretationLoop: src/interpreter/interpretation_loop.cpp. `handle` is what the handlers of the
--   copies and of the instructions on objects ask for; what that does to the machine is left.
-- - CAbi: src/cbc/c_abi.cpp with the tables of src/cbc/platforms.h that it reads. The loop over a
--   structure is a recursion on the number of its pieces of 8 bytes.
-- - Abi: src/cbc/abi.h and .cpp. `consume` and its kin are the methods of AbiAssigner; the state is
--   explicit and the description of the platform is an argument.
--
-- Not modelled: the other instructions of the emitter, which only fill fields, the text of
-- instructions and their parser, the rewriter of bytecode, the interpreter's loop but for `handle`, the engine's image
-- reading, terms, layouts and method tables, resolution, and the support of the Cangjie runtime and
-- assembly.
pub mod Prelude
pub mod Abi
pub mod Arith
pub mod Bits
pub mod CAbi
pub mod Casts
pub mod Checked
pub mod Emitter
pub mod InterpretationLoop
pub mod Isa
pub mod Leb
pub mod Location
pub mod Memory
pub mod MoveResolver
pub mod Saturating
pub mod Vector
pub mod Word
