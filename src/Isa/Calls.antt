-- ===== src/Isa/Calls.antt =====
-- src/cbc/isa_rt.h and emitter/encoding_rt.cpp: calls and atomic operations, with the
-- Decode of each and, where there is one, its Encode.
pub mod RoundTrip
use cbc_engine.Prelude.{ℕ, ◌+◌, ◌*◌, ◌/◌, ◌%◌, ◌^◌, ◌<◌, ◌≡◌, List, ◌++◌, Option, none, some}
use cbc_engine.Isa.{Reader, ◌>>=◌, pure, run, read, bytes_of}
use cbc_engine.Isa.Fields.{
  Rr, Xr, Xx, XImm12, RImm12, decode_rr, decode_xr, decode_xx, decode_x_imm12, decode_r_imm12,
  encode_rr, encode_xr, encode_xx, encode_x_imm12, encode_r_imm12,
}

pub record VirtualCall : Type 0 where
  pub opc : ℕ
  pub vnum : ℕ
  pub edef : ℕ
  pub sret : ℕ

pub decode_virtual_call : Reader VirtualCall
decode_virtual_call bytes = run bytes do
  opc ← read 1
  vnum ← read 2
  edef ← read 2
  sret ← read 1
  pure (record { opc = opc; vnum = vnum; edef = edef; sret = sret })

unfoldable pub encode_virtual_call : VirtualCall → List ℕ
encode_virtual_call command =
    bytes_of 1 command.opc
    ++ (bytes_of 2 command.vnum ++ (bytes_of 2 command.edef ++ bytes_of 1 command.sret))

pub record AtomicOp : Type 0 where
  pub opc : ℕ
  pub rr1 : Rr
  pub rr2 : Rr
  pub offset : ℕ

pub decode_atomic_op : Reader AtomicOp
decode_atomic_op bytes = run bytes do
  opc ← read 1
  rr1 ← decode_rr
  rr2 ← decode_rr
  offset ← read 2
  pure (record { opc = opc; rr1 = rr1; rr2 = rr2; offset = offset })

unfoldable pub encode_atomic_op : AtomicOp → List ℕ
encode_atomic_op command =
    bytes_of 1 command.opc
    ++ (encode_rr command.rr1 ++ (encode_rr command.rr2 ++ bytes_of 2 command.offset))

pub record InterfaceCall : Type 0 where
  pub opc : ℕ
  pub vnum : ℕ
  pub ti : ℕ
  pub sret : ℕ
  pub outer_ti_arg : ℕ
  pub this_ti_arg : ℕ

pub decode_interface_call : Reader InterfaceCall
decode_interface_call bytes = run bytes do
  opc ← read 1
  vnum ← read 2
  ti ← read 8
  sret ← read 1
  outer_ti_arg ← read 2
  this_ti_arg ← read 2
  pure (record {
    opc = opc;
    vnum = vnum;
    ti = ti;
    sret = sret;
    outer_ti_arg = outer_ti_arg;
    this_ti_arg = this_ti_arg;
  })

unfoldable pub encode_interface_call : InterfaceCall → List ℕ
encode_interface_call command =
    bytes_of 1 command.opc
    ++ (bytes_of 2 command.vnum
        ++ (bytes_of 8 command.ti
            ++ (bytes_of 1 command.sret
                ++ (bytes_of 2 command.outer_ti_arg ++ bytes_of 2 command.this_ti_arg))))

pub record InterfaceCallGeneric : Type 0 where
  pub opc : ℕ
  pub vnum : ℕ
  pub sret : ℕ
  pub outer_ti_arg : ℕ
  pub this_ti_arg : ℕ

pub decode_interface_call_generic : Reader InterfaceCallGeneric
decode_interface_call_generic bytes = run bytes do
  opc ← read 1
  vnum ← read 2
  sret ← read 1
  outer_ti_arg ← read 2
  this_ti_arg ← read 2
  pure (record {
    opc = opc;
    vnum = vnum;
    sret = sret;
    outer_ti_arg = outer_ti_arg;
    this_ti_arg = this_ti_arg;
  })

unfoldable pub encode_interface_call_generic : InterfaceCallGeneric → List ℕ
encode_interface_call_generic command =
    bytes_of 1 command.opc
    ++ (bytes_of 2 command.vnum
        ++ (bytes_of 1 command.sret
            ++ (bytes_of 2 command.outer_ti_arg ++ bytes_of 2 command.this_ti_arg)))
