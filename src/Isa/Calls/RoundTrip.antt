-- ===== src/Isa/Calls/RoundTrip.antt =====
-- What Encode writes of the formats of Calls, Decode reads back, and leaves the bytes that follow.
use mathlib.Core.List.{append_assoc}
use cbc_engine.Prelude.{ℕ, ◌^◌, ◌<◌, ◌≡◌, List, ◌++◌, some}
use cbc_engine.Isa.Fields.RoundTrip.{read_fit, FitRr, decode_rr-encode_rr}
use cbc_engine.Isa.Calls.{
  VirtualCall, decode_virtual_call, encode_virtual_call, AtomicOp, decode_atomic_op,
  encode_atomic_op, InterfaceCall, decode_interface_call, encode_interface_call,
  InterfaceCallGeneric, decode_interface_call_generic, encode_interface_call_generic,
}

abbrev pub FitVirtualCall : VirtualCall → Type 0
FitVirtualCall c = (c.opc < 2 ^ 8) × (c.vnum < 2 ^ 16) × (c.edef < 2 ^ 16) × (c.sret < 2 ^ 8)

pub decode_virtual_call-encode_virtual_call :
    (c : VirtualCall) (rest : List ℕ)
    → FitVirtualCall c
    → decode_virtual_call (encode_virtual_call c ++ rest) ≡ some (c, rest)
unfolding decode_virtual_call encode_virtual_call
decode_virtual_call-encode_virtual_call c rest h = simp (
  append_assoc,
  read_fit 1 c.opc _ h.0,
  read_fit 2 c.vnum _ h.1,
  read_fit 2 c.edef _ h.2,
  read_fit 1 c.sret _ h.3,
)

abbrev pub FitAtomicOp : AtomicOp → Type 0
FitAtomicOp c = (c.opc < 2 ^ 8) × FitRr c.rr1 × FitRr c.rr2 × (c.offset < 2 ^ 16)

pub decode_atomic_op-encode_atomic_op :
    (c : AtomicOp) (rest : List ℕ)
    → FitAtomicOp c
    → decode_atomic_op (encode_atomic_op c ++ rest) ≡ some (c, rest)
unfolding decode_atomic_op encode_atomic_op
decode_atomic_op-encode_atomic_op c rest h = simp (
  append_assoc,
  read_fit 1 c.opc _ h.0,
  decode_rr-encode_rr c.rr1 _ h.1,
  decode_rr-encode_rr c.rr2 _ h.2,
  read_fit 2 c.offset _ h.3,
)

abbrev pub FitInterfaceCall : InterfaceCall → Type 0
FitInterfaceCall c =
    (c.opc < 2 ^ 8)
    × (c.vnum < 2 ^ 16)
    × (c.ti < 2 ^ 64)
    × (c.sret < 2 ^ 8)
    × (c.outer_ti_arg < 2 ^ 16)
    × (c.this_ti_arg < 2 ^ 16)

pub decode_interface_call-encode_interface_call :
    (c : InterfaceCall) (rest : List ℕ)
    → FitInterfaceCall c
    → decode_interface_call (encode_interface_call c ++ rest) ≡ some (c, rest)
unfolding decode_interface_call encode_interface_call
decode_interface_call-encode_interface_call c rest h = simp (
  append_assoc,
  read_fit 1 c.opc _ h.0,
  read_fit 2 c.vnum _ h.1,
  read_fit 8 c.ti _ h.2,
  read_fit 1 c.sret _ h.3,
  read_fit 2 c.outer_ti_arg _ h.4,
  read_fit 2 c.this_ti_arg _ h.5,
)

abbrev pub FitInterfaceCallGeneric : InterfaceCallGeneric → Type 0
FitInterfaceCallGeneric c =
    (c.opc < 2 ^ 8)
    × (c.vnum < 2 ^ 16)
    × (c.sret < 2 ^ 8)
    × (c.outer_ti_arg < 2 ^ 16)
    × (c.this_ti_arg < 2 ^ 16)

pub decode_interface_call_generic-encode_interface_call_generic :
    (c : InterfaceCallGeneric) (rest : List ℕ)
    → FitInterfaceCallGeneric c
    → decode_interface_call_generic (encode_interface_call_generic c ++ rest) ≡ some (c, rest)
unfolding decode_interface_call_generic encode_interface_call_generic
decode_interface_call_generic-encode_interface_call_generic c rest h = simp (
  append_assoc,
  read_fit 1 c.opc _ h.0,
  read_fit 2 c.vnum _ h.1,
  read_fit 1 c.sret _ h.2,
  read_fit 2 c.outer_ti_arg _ h.3,
  read_fit 2 c.this_ti_arg _ h.4,
)
