-- ===== src/Emitter/Runs.antt =====
-- Runs of the emitter.
use cbc_engine.Prelude.{
  ℕ, ◌%◌, ◌^◌, ◌≡◌, refl, [], ◌∷◌, ◌++◌, true, some, inl, replicate, drop, ◌<◌, arith,
}
use cbc_engine.Prelude.Int.{pos, negsuc, ◌-ℤ◌}
use cbc_engine.Word.{w32, w64, to_unsigned}
use cbc_engine.Memory.{st_8}
use cbc_engine.Bits.{sign_extend_64, is_n_bits_signed_64, is_sign}
use cbc_engine.Word.{sget}
use cbc_engine.Isa.Immediates.{B4xi12rr, decode_b4xi12rr}
use cbc_engine.Isa.Stores.{
  decode_store_generic_op, encode_store_generic_op, decode_store_frame_imm, encode_store_frame_imm,
}
use cbc_engine.Emitter.{Emitter, emit, add_fixup, short_immediate}
use cbc_engine.Emitter.SymbolTable.{max_size, label_position, value, use_symbol, build_table, bound}
use cbc_engine.Emitter.SymbolTable.Literals.{pushed, use_symbol-build_table}
use cbc_engine.Emitter.Fixups.{jmp, bcc, Building, resolve}
use cbc_engine.Emitter.Fixups.Lands.{branch_delta, resolve-jmp, resolve-bcc}
use cbc_engine.Emitter.Positions.{
  IsPlaced, Reach, here, next, emits, fixes, Reach-IsPlaced, Reach-label,
}
use cbc_engine.Emitter.Operands.{
  store_generic_command, store_frame_imm_command, frame_opcode, integral, kind_number,
}
use cbc_engine.Emitter.Operands.Reads.{short_immediate-reads, store_generic-reads}
use cbc_engine.Emitter.Operands.Frame.{size_bits, store_frame_imm-reads}
use cbc_engine.Isa.Command.Code.{IsInstruction}
use cbc_engine.InterpretationLoop.{Action, pointer, handle}
use cbc_engine.Emitter.Calls.{copy_to_local_call, command_of}
use cbc_engine.Emitter.Written.{handle-command_of}

-- Twelve bytes, and a label at their start and one far away.
abbrev waiting : Building
waiting = record {
  segment = replicate 12 0;
  symbols = record { label_positions = pos 0 ∷ pos 100000 ∷ []; plain_values = [] };
  table = [];
}

back : label_position 0 waiting.symbols ≡ some (pos 0)
unfolding label_position bound
back = refl

far : label_position 1 waiting.symbols ≡ some (pos 100000)
unfolding label_position bound
far = refl

resolve-jmp_example :
    (b' : Building) × (resolve (jmp 0) 6 waiting ≡ some b')
    × (branch_delta (drop 6 b'.segment) b'.table ≡ some (pos 0 -ℤ pos 11))
resolve-jmp_example = resolve-jmp 0 6 0 waiting back (omega arith) (omega arith) (omega arith)

resolve-bcc_example :
    (b' : Building) × (resolve (bcc 1 4 w32 (record { x = 1; y = 2 })) 2 waiting ≡ some b')
    × (branch_delta (drop 2 b'.segment) b'.table ≡ some (pos 100000 -ℤ pos 6))
    × (b'.table ≡ pushed [] (to_unsigned w64 (pos 100000 -ℤ pos 6)))
resolve-bcc_example =
    resolve-bcc 1 4 2 100000 w32 (record { x = 1; y = 2 }) waiting far (omega arith) (omega arith)
      (omega arith) (inl refl) (omega arith) (omega arith, omega arith) (refl, omega arith)

use_symbol-build_table_example :
    (use_symbol (value 7 waiting.symbols).0 (value 7 waiting.symbols).1 [] ≡ some (0, pushed [] 7))
    × (0 < max_size)
    × (build_table (pushed [] 7) ≡ some (pushed [] 7))
use_symbol-build_table_example = use_symbol-build_table 7 waiting.symbols [] (refl, omega arith)

-- A new label, a jump to it, an instruction of one byte and the bind.
abbrev start : Emitter
start = record {
  symbols = record { label_positions = pos 0 ∷ negsuc 0 ∷ []; plain_values = [] };
  segment = [];
  fixups = [];
}

abbrev after : Emitter
after = emit (7 ∷ []) (add_fixup (jmp 1) start)

run : Reach start after
run = next (next here (fixes start (jmp 1))) (emits (add_fixup (jmp 1) start) (7 ∷ []))

Reach-IsPlaced_example : IsPlaced after
Reach-IsPlaced_example = Reach-IsPlaced {e = start} (omega arith) run

at_start : label_position 0 start.symbols ≡ some (pos 0)
unfolding label_position bound
at_start = refl

Reach-label_example : label_position 0 after.symbols ≡ some (pos 0)
Reach-label_example = Reach-label 0 (pos 0) at_start run

is_short : is_n_bits_signed_64 5 12 ≡ true
unfolding is_n_bits_signed_64 is_sign sget
is_short = refl

short_immediate-reads_example :
    (c : B4xi12rr) × (decode_b4xi12rr (short_immediate 26 0 1 2 5 ++ []) ≡ some (c, []))
    × (sign_extend_64 c.xi12.imm12 12 ≡ 5)
short_immediate-reads_example =
    short_immediate-reads 26 0 1 2 5 [] (omega arith) (omega arith) (omega arith) (omega arith)
      (omega arith) is_short

store_generic-reads_example :
    decode_store_generic_op (encode_store_generic_op (store_generic_command 1 2 3 4 255) ++ [])
    ≡ some (store_generic_command 1 2 3 4 255, [])
store_generic-reads_example =
    store_generic-reads 1 2 3 4 255 [] (omega arith) (omega arith) (omega arith) (omega arith)
      (omega arith)

-- A byte that is no signed byte.
store_frame_imm-reads_example :
    (v : ℕ) × (decode_store_frame_imm
        (encode_store_frame_imm (store_frame_imm_command st_8 200 (pos 8)) ++ [])
      ≡ some (
        record {
          opc = frame_opcode (integral st_8) 200;
          stk = kind_number (integral st_8);
          imm = v;
          offs = pos 8;
        },
        [],
      ))
    × (v % 2 ^ size_bits st_8 ≡ 200 % 2 ^ size_bits st_8)
store_frame_imm-reads_example =
    store_frame_imm-reads st_8 200 (pos 8) [] (omega arith) (omega arith, omega arith)

handle-command_of_example :
    IsInstruction (command_of (copy_to_local_call 1 2 3 4096))
    × (handle (command_of (copy_to_local_call 1 2 3 4096))
        ≡ some (Action.copy_to_local 1 2 3 (pointer 4096)))
handle-command_of_example = handle-command_of (copy_to_local_call 1 2 3 4096) (omega arith)
