-- ===== src/Emitter/Buffer.antt =====
-- src/cbc/emitter/segment.cpp: the bytes of a code that is written. `none` is a failed ASSERT; that
-- the size stays below INT32_MAX is left out.
pub mod Splice
use cbc_engine.Prelude.{
  ℕ, suc, ◌+◌, ◌^◌, ltb, if◌then◌else◌, List, [], ◌∷◌, ◌++◌, Option, none, some,
}
use cbc_engine.Prelude.{length, set}
use cbc_engine.Isa.{bytes_of}

abbrev pub Segment : Type 0
Segment = List ℕ

-- Segment::AddW8 to AddW64. The first two take a `uint32_t` that has to fit.
pub add_w8 : ℕ → Segment → Option Segment
add_w8 value content = if ltb value (2 ^ 8) then some (content ++ bytes_of 1 value) else none

pub add_w16 : ℕ → Segment → Option Segment
add_w16 value content = if ltb value (2 ^ 16) then some (content ++ bytes_of 2 value) else none

pub add_w32 : ℕ → Segment → Segment
add_w32 value content = content ++ bytes_of 4 value

pub add_w64 : ℕ → Segment → Segment
add_w64 value content = content ++ bytes_of 8 value

-- Encode on a Segment::View at a position: each byte takes the place of one that is there.
pub view_add : ℕ → List ℕ → Segment → Option Segment
view_add position [] content = some content
view_add position (b ∷ bytes) content =
    let rest = view_add (suc position) bytes (set content position b) in
    if ltb position (length content) then rest else none
