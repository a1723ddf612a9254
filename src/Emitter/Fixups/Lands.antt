-- ===== src/Emitter/Fixups/Lands.antt =====
-- src/interpreter/interpreter.h and interpretation_loop.cpp: where a branch that is taken goes. A
-- branch that the emitter resolved goes to its label.
use native.Mathlib.Nat.{mod-eq_of_lt}
use cbc_engine.Prelude.{
  ltb, leb, ◌&&◌, ℕ, ◌+◌, ◌^◌, ◌≤◌, ◌<◌, ◌==◌, if◌then◌else◌, ◌≡◌, refl, ap, ◌∙◌, ◌⊎◌, inl, inr,
}
use cbc_engine.Prelude.{
  List, ◌++◌, Bool, true, false, ◌||◌, Option, some, none, length, drop, take, arith,
}
use cbc_engine.Prelude.Int.{ℤ, pos, ◌-ℤ◌}
use cbc_engine.Prelude.Partial.{◌>>=◌}
use cbc_engine.Word.{Width, w8, w16, w32, w64, InRange, sget, to_unsigned}
use cbc_engine.Isa.{peek_opcode, bytes_of}
use cbc_engine.Isa.Opcode
use cbc_engine.Isa.Fields.{Rr, encode_rr, encode_x_imm12}
use cbc_engine.Isa.Fields.RoundTrip.{FitRr, FitXImm12}
use cbc_engine.Isa.Immediates.{
  B5i32, B4xi12rr, decode_b5i32, decode_b4xi12rr, encode_b5i32, encode_b4xi12rr,
}
use cbc_engine.Isa.Immediates.RoundTrip.{decode_b5i32-encode_b5i32, decode_b4xi12rr-encode_b4xi12rr}
use cbc_engine.Isa.StackParams.RoundTrip.{sget-to_unsigned, to_unsigned-lt}
use cbc_engine.Bits.{is_sign}
use cbc_engine.Emitter.Buffer.Splice.{view_add-splice, drop-splice}
use cbc_engine.Emitter.SymbolTable.{Table, label_position}
use cbc_engine.Emitter.SymbolTable.Literals.{HasRoom, pushed}
use cbc_engine.Emitter.Fixups.{jmp, bcc, Building, distance, is_short, bcc_opcode, write, resolve}
use cbc_engine.Emitter.Fixups.Immediates.{decode_immediate, immediate_of_distance-reads}

-- Jmp, and the offset of Bcc, after the Decode of the instruction.
jmp_delta : List ℕ → Option ℤ
jmp_delta bytes = do (c, rest) ← decode_b5i32 bytes; some (sget w32 c.imm32)

bcc_delta : Bool → List ℕ → Table → Option ℤ
bcc_delta is_imm bytes table = do
  (c, rest) ← decode_b4xi12rr bytes
  v ← decode_immediate is_imm table c.xi12.imm12
  some (sget w64 v)

-- The handlers of JMP32 and of the four BCC instructions: the `delta` of JUMP where the branch is taken.
delta_of : ℕ → List ℕ → Table → Option ℤ
delta_of opc bytes table =
    if opc == Opcode.jmp32
    then jmp_delta bytes
    else if (opc == Opcode.bcc32i) || (opc == Opcode.bcc64i)
    then bcc_delta true bytes table
    else if (opc == Opcode.bcc32l) || (opc == Opcode.bcc64l)
    then bcc_delta false bytes table
    else none

pub branch_delta : List ℕ → Table → Option ℤ
branch_delta bytes table = do (opc, same) ← peek_opcode bytes; delta_of opc bytes table

-- What a fixup wrote stands at its position.
written :
    (position : ℕ) (bytes : List ℕ) (b : Building)
    → position + length bytes ≤ length b.segment
    → (b' : Building) × (write position bytes b ≡ some b')
      × (drop position b'.segment ≡ bytes ++ drop (position + length bytes) b.segment)
      × (b'.table ≡ b.table)
unfolding write
written position bytes b h =
    let content = take position b.segment ++ (bytes ++ drop (position + length bytes) b.segment) in
    (
      record b { segment = content },
      rw (view_add-splice position bytes b.segment h) refl,
      drop-splice position b.segment (bytes ++ drop (position + length bytes) b.segment)
          (omega arith),
      refl,
    )

-- A label and a position below 2 ^ 31 have a distance in range.
distance-InRange :
    (at position : ℕ) → at < 2 ^ 31 → position < 2 ^ 31 → InRange w32 (pos at -ℤ pos position)
unfolding ◌-ℤ◌
distance-InRange at position h l = ground arith

-- What the interpreter reads of the two encodings.
jump_starts :
    (imm : ℕ) (rest : List ℕ) (table : Table)
    → branch_delta (encode_b5i32 (record { opc = Opcode.jmp32; imm32 = imm }) ++ rest) table
      ≡ jmp_delta (encode_b5i32 (record { opc = Opcode.jmp32; imm32 = imm }) ++ rest)
unfolding branch_delta delta_of encode_b5i32 bytes_of peek_opcode
jump_starts imm rest table = refl

jump_reads :
    (imm : ℕ) (rest : List ℕ) (table : Table)
    → imm < 2 ^ 32
    → branch_delta (encode_b5i32 (record { opc = Opcode.jmp32; imm32 = imm }) ++ rest) table
      ≡ some (sget w32 imm)
unfolding jmp_delta
jump_reads imm rest table h =
    jump_starts imm rest table
    ∙ rw
        (decode_b5i32-encode_b5i32 (record { opc = Opcode.jmp32; imm32 = imm }) rest
          (omega arith, h))
        refl

bcc_starts :
    (c : B4xi12rr) (rest : List ℕ) (table : Table)
    → c.opc < 2 ^ 8
    → branch_delta (encode_b4xi12rr c ++ rest) table
      ≡ delta_of c.opc (encode_b4xi12rr c ++ rest) table
unfolding branch_delta encode_b4xi12rr bytes_of peek_opcode
bcc_starts c rest table h =
    ap (λ (o : ℕ). delta_of o (encode_b4xi12rr c ++ rest) table) (mod-eq_of_lt h)

bcc_handler :
    (is_imm : Bool) (width : Width) (opc : ℕ) (bytes : List ℕ) (table : Table)
    → bcc_opcode is_imm width ≡ some opc
    → (opc < 2 ^ 8) × (delta_of opc bytes table ≡ bcc_delta is_imm bytes table)
unfolding bcc_opcode delta_of
bcc_handler true w32 opc bytes table e = let o : opc ≡ 10 = cc in rw o (omega arith, refl)
bcc_handler true w64 opc bytes table e = let o : opc ≡ 11 = cc in rw o (omega arith, refl)
bcc_handler false w32 opc bytes table e = let o : opc ≡ 12 = cc in rw o (omega arith, refl)
bcc_handler false w64 opc bytes table e = let o : opc ≡ 13 = cc in rw o (omega arith, refl)
bcc_handler is_imm w8 opc bytes table e = absurd cc
bcc_handler is_imm w16 opc bytes table e = absurd cc

bcc_reads :
    (c : B4xi12rr) (is_imm : Bool) (width : Width) (rest : List ℕ) (table : Table) (v : ℕ)
    → bcc_opcode is_imm width ≡ some c.opc
    → FitXImm12 c.xi12
    → FitRr c.rr
    → decode_immediate is_imm table c.xi12.imm12 ≡ some v
    → branch_delta (encode_b4xi12rr c ++ rest) table ≡ some (sget w64 v)
unfolding bcc_delta
bcc_reads c is_imm width rest table v e x r i =
    let (byte, handler) = bcc_handler is_imm width c.opc (encode_b4xi12rr c ++ rest) table e in
    bcc_starts c rest table byte
    ∙ handler
    ∙ rw (decode_b4xi12rr-encode_b4xi12rr c rest (byte, x, r), i) refl

-- The sizes of the encodings are those that the fixups state.
jump_size : (c : B5i32) → length (encode_b5i32 c) ≡ 5
unfolding encode_b5i32 bytes_of
jump_size c = refl

bcc_size : (c : B4xi12rr) → length (encode_b4xi12rr c) ≡ 4
unfolding encode_b4xi12rr encode_x_imm12 encode_rr bytes_of
bcc_size c = refl

-- A resolved jump goes to its label from the end of the instruction.
pub resolve-jmp :
    (label position at : ℕ) (b : Building)
    → label_position label b.symbols ≡ some (pos at)
    → at < 2 ^ 31
    → position + 5 < 2 ^ 31
    → position + 5 ≤ length b.segment
    → (b' : Building) × (resolve (jmp label) position b ≡ some b')
      × (branch_delta (drop position b'.segment) b'.table ≡ some (pos at -ℤ pos (position + 5)))
unfolding resolve distance
resolve-jmp label position at b e h l room =
    let d = pos at -ℤ pos (position + 5) in
    let c : B5i32 = record { opc = Opcode.jmp32; imm32 = to_unsigned w32 d } in
    let (b', done, there, same) = written position (encode_b5i32 c) b (rw (jump_size c) room) in
    (
      b',
      rw e done,
      ap (λ (t : List ℕ). branch_delta t b'.table) there
          ∙ jump_reads (to_unsigned w32 d) _ b'.table (to_unsigned-lt w32 d)
          ∙ ap some (sget-to_unsigned w32 d (distance-InRange at (position + 5) h l)),
    )

bcc_opcode-some :
    (is_imm : Bool) (width : Width)
    → (width ≡ w32) ⊎ (width ≡ w64)
    → (opc : ℕ) × (bcc_opcode is_imm width ≡ some opc)
unfolding bcc_opcode
bcc_opcode-some true width (inl e) = (Opcode.bcc32i, rw e refl)
bcc_opcode-some true width (inr e) = (Opcode.bcc64i, rw e refl)
bcc_opcode-some false width (inl e) = (Opcode.bcc32l, rw e refl)
bcc_opcode-some false width (inr e) = (Opcode.bcc64l, rw e refl)

-- From -2048 to 2047 bytes: what a signed offset of 12 bits reaches.
abbrev pub within_12 : ℕ → ℕ → Bool
within_12 at from = ltb at (from + 2048) && leb from (at + 2048)

is_short-within_12 :
    (at from : ℕ) → at < 2 ^ 31 → from < 2 ^ 31 → is_short (pos at -ℤ pos from) ≡ within_12 at from
unfolding is_short is_sign ◌-ℤ◌
is_short-within_12 at from h l = ground arith

-- A resolved conditional branch, where it is taken, goes to its label from the end of the
-- instruction. Where the distance is between -2048 and 2047 the table of literals stays as it is, and
-- elsewhere the distance is its new literal. The label is bound, the label and the place lie below
-- 2 ^ 31, the place lies in the code, the width is 32 or 64, the fields fit, and the table has room.
pub resolve-bcc :
    (label cc position at : ℕ) (width : Width) (rr : Rr) (b : Building)
    → label_position label b.symbols ≡ some (pos at)
    → at < 2 ^ 31
    → position + 4 < 2 ^ 31
    → position + 4 ≤ length b.segment
    → (width ≡ w32) ⊎ (width ≡ w64)
    → cc < 16
    → FitRr rr
    → HasRoom b.table
    → (b' : Building) × (resolve (bcc label cc width rr) position b ≡ some b')
      × (branch_delta (drop position b'.segment) b'.table ≡ some (pos at -ℤ pos (position + 4)))
      × (b'.table ≡ (
          if within_12 at (position + 4)
          then b.table
          else pushed b.table (to_unsigned w64 (pos at -ℤ pos (position + 4)))))
unfolding resolve distance
resolve-bcc label cc position at width rr b e h l room is_width four fit table =
    let d = pos at -ℤ pos (position + 4) in
    let range : InRange w32 d = distance-InRange at (position + 4) h l in
    let (immediate, b1, made, low, same, v, reads, means, literals) =
      immediate_of_distance-reads d b range table in
    let (opc, eo) = bcc_opcode-some (is_short d) width is_width in
    let c : B4xi12rr = record {
      opc = opc;
      xi12 = record { imm4 = cc; imm12 = immediate };
      rr = rr;
    } in
    let (b', done, there, kept) =
      written position (encode_b4xi12rr c) b1 (rw (bcc_size c, same) room) in
    (
      b',
      rw (e, made, eo) done,
      ap (λ (t : List ℕ). branch_delta t b'.table) there
          ∙ bcc_reads c (is_short d) width _ b'.table v eo (four, low) fit (rw kept reads)
          ∙ ap some means,
      kept ∙ rw (is_short-within_12 at (position + 4) h l) at literals,
    )
