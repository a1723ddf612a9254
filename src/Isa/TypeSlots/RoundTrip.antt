-- ===== src/Isa/TypeSlots/RoundTrip.antt =====
-- What Encode writes of the formats of TypeSlots, Decode reads back, and leaves the bytes that follow.
use mathlib.Core.List.{append_assoc}
use cbc_engine.Prelude.{ℕ, ◌^◌, ◌<◌, ◌≡◌, List, ◌++◌, some}
use cbc_engine.Isa.Fields.RoundTrip.{read_fit, FitRr, decode_rr-encode_rr}
use cbc_engine.Isa.TypeSlots.{
  CopyTypeSlot, decode_copy_type_slot, encode_copy_type_slot, CopyTypeSlotGeneric,
  decode_copy_type_slot_generic, encode_copy_type_slot_generic, CopyToTypeSlot,
  decode_copy_to_type_slot, encode_copy_to_type_slot, CopyToTypeSlotGeneric,
  decode_copy_to_type_slot_generic, encode_copy_to_type_slot_generic, CopyFromTypeSlot,
  decode_copy_from_type_slot, encode_copy_from_type_slot, CopyFromTypeSlotGeneric,
  decode_copy_from_type_slot_generic, encode_copy_from_type_slot_generic,
}

abbrev pub FitCopyTypeSlot : CopyTypeSlot → Type 0
FitCopyTypeSlot c =
    (c.opc < 2 ^ 8) × (c.dst_offset < 2 ^ 32) × (c.src_offset < 2 ^ 32) × (c.ti < 2 ^ 64)

pub decode_copy_type_slot-encode_copy_type_slot :
    (c : CopyTypeSlot) (rest : List ℕ)
    → FitCopyTypeSlot c
    → decode_copy_type_slot (encode_copy_type_slot c ++ rest) ≡ some (c, rest)
unfolding decode_copy_type_slot encode_copy_type_slot
decode_copy_type_slot-encode_copy_type_slot c rest h = simp (
  append_assoc,
  read_fit 1 c.opc _ h.0,
  read_fit 4 c.dst_offset _ h.1,
  read_fit 4 c.src_offset _ h.2,
  read_fit 8 c.ti _ h.3,
)

abbrev pub FitCopyTypeSlotGeneric : CopyTypeSlotGeneric → Type 0
FitCopyTypeSlotGeneric c =
    (c.opc < 2 ^ 8) × (c.dst_offset < 2 ^ 32) × (c.src_offset < 2 ^ 32) × FitRr c.ti

pub decode_copy_type_slot_generic-encode_copy_type_slot_generic :
    (c : CopyTypeSlotGeneric) (rest : List ℕ)
    → FitCopyTypeSlotGeneric c
    → decode_copy_type_slot_generic (encode_copy_type_slot_generic c ++ rest) ≡ some (c, rest)
unfolding decode_copy_type_slot_generic encode_copy_type_slot_generic
decode_copy_type_slot_generic-encode_copy_type_slot_generic c rest h = simp (
  append_assoc,
  read_fit 1 c.opc _ h.0,
  read_fit 4 c.dst_offset _ h.1,
  read_fit 4 c.src_offset _ h.2,
  decode_rr-encode_rr c.ti _ h.3,
)

abbrev pub FitCopyToTypeSlot : CopyToTypeSlot → Type 0
FitCopyToTypeSlot c = (c.opc < 2 ^ 8) × (c.dst_offset < 2 ^ 32) × FitRr c.src × (c.ti < 2 ^ 64)

pub decode_copy_to_type_slot-encode_copy_to_type_slot :
    (c : CopyToTypeSlot) (rest : List ℕ)
    → FitCopyToTypeSlot c
    → decode_copy_to_type_slot (encode_copy_to_type_slot c ++ rest) ≡ some (c, rest)
unfolding decode_copy_to_type_slot encode_copy_to_type_slot
decode_copy_to_type_slot-encode_copy_to_type_slot c rest h = simp (
  append_assoc,
  read_fit 1 c.opc _ h.0,
  read_fit 4 c.dst_offset _ h.1,
  decode_rr-encode_rr c.src _ h.2,
  read_fit 8 c.ti _ h.3,
)

abbrev pub FitCopyToTypeSlotGeneric : CopyToTypeSlotGeneric → Type 0
FitCopyToTypeSlotGeneric c = (c.opc < 2 ^ 8) × (c.dst_offset < 2 ^ 32) × FitRr c.src × FitRr c.ti

pub decode_copy_to_type_slot_generic-encode_copy_to_type_slot_generic :
    (c : CopyToTypeSlotGeneric) (rest : List ℕ)
    → FitCopyToTypeSlotGeneric c
    → decode_copy_to_type_slot_generic (encode_copy_to_type_slot_generic c ++ rest) ≡ some (c, rest)
unfolding decode_copy_to_type_slot_generic encode_copy_to_type_slot_generic
decode_copy_to_type_slot_generic-encode_copy_to_type_slot_generic c rest h = simp (
  append_assoc,
  read_fit 1 c.opc _ h.0,
  read_fit 4 c.dst_offset _ h.1,
  decode_rr-encode_rr c.src _ h.2,
  decode_rr-encode_rr c.ti _ h.3,
)

abbrev pub FitCopyFromTypeSlot : CopyFromTypeSlot → Type 0
FitCopyFromTypeSlot c = (c.opc < 2 ^ 8) × FitRr c.dst × (c.src_offset < 2 ^ 32) × (c.ti < 2 ^ 64)

pub decode_copy_from_type_slot-encode_copy_from_type_slot :
    (c : CopyFromTypeSlot) (rest : List ℕ)
    → FitCopyFromTypeSlot c
    → decode_copy_from_type_slot (encode_copy_from_type_slot c ++ rest) ≡ some (c, rest)
unfolding decode_copy_from_type_slot encode_copy_from_type_slot
decode_copy_from_type_slot-encode_copy_from_type_slot c rest h = simp (
  append_assoc,
  read_fit 1 c.opc _ h.0,
  decode_rr-encode_rr c.dst _ h.1,
  read_fit 4 c.src_offset _ h.2,
  read_fit 8 c.ti _ h.3,
)

abbrev pub FitCopyFromTypeSlotGeneric : CopyFromTypeSlotGeneric → Type 0
FitCopyFromTypeSlotGeneric c = (c.opc < 2 ^ 8) × FitRr c.dst × (c.src_offset < 2 ^ 32) × FitRr c.ti

pub decode_copy_from_type_slot_generic-encode_copy_from_type_slot_generic :
    (c : CopyFromTypeSlotGeneric) (rest : List ℕ)
    → FitCopyFromTypeSlotGeneric c
    → decode_copy_from_type_slot_generic (encode_copy_from_type_slot_generic c ++ rest)
      ≡ some (c, rest)
unfolding decode_copy_from_type_slot_generic encode_copy_from_type_slot_generic
decode_copy_from_type_slot_generic-encode_copy_from_type_slot_generic c rest h = simp (
  append_assoc,
  read_fit 1 c.opc _ h.0,
  decode_rr-encode_rr c.dst _ h.1,
  read_fit 4 c.src_offset _ h.2,
  decode_rr-encode_rr c.ti _ h.3,
)
