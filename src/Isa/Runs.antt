-- ===== src/Isa/Runs.antt =====
-- Runs of the codec on concrete instructions.
use cbc_engine.Prelude.{◌≡◌, refl, [], ◌∷◌, none, some, get_elem?, arith}
use cbc_engine.Prelude.Int.{negsuc}
use cbc_engine.Bits.Extension.{sign_extend_64-value}
use cbc_engine.Bits.{sign_extend_64}
use cbc_engine.Isa.{bytes_of}
use cbc_engine.Isa.Format
use cbc_engine.Isa.Format.{formats}
use cbc_engine.Isa.Fields.{encode_rr}
use cbc_engine.Isa.Short.{encode_b1, encode_b2rr}
use cbc_engine.Isa.Stores.{StoreFrameImm, encode_store_frame_imm, imm_bytes}
use cbc_engine.Isa.Command.{Command, b1, b2rr, encode, decode, log, running}
use cbc_engine.Isa.Command.RoundTrip.{decode-encode}
use cbc_engine.Isa.Command.Code.{placed, log-unknown}

abbrev mov : Command
mov = b2rr (record { opc = 3; rr = record { x = 1; y = 2 } })

abbrev ret : Command
ret = b1 (record { opc = 1 })

placed_at : placed 0 (mov ∷ ret ∷ []) ≡ (0, some mov) ∷ (2, some ret) ∷ []
unfolding placed encode encode_b1 encode_b2rr encode_rr bytes_of
placed_at = refl

no_format : get_elem? formats 208 ≡ none
unfolding formats
no_format = refl

log-unknown_example : log 2 100 (208 ∷ 1 ∷ []) ≡ running
log-unknown_example = log-unknown 2 100 208 (1 ∷ []) no_format

mov_bytes : encode mov ≡ some (3 ∷ 33 ∷ [])
unfolding encode encode_b2rr encode_rr bytes_of
mov_bytes = refl

decode-encode_example : decode Format.b2rr (3 ∷ 33 ∷ 7 ∷ []) ≡ some (mov, 7 ∷ [])
decode-encode_example =
    decode-encode mov {bytes = 3 ∷ 33 ∷ []} (7 ∷ []) mov_bytes
      (omega arith, (omega arith, omega arith))

-- `st.frame.imm.2` of -3 at the offset -16.
abbrev minus_three : StoreFrameImm
minus_three = record { opc = 205; stk = 1; imm = 18446744073709551613; offs = negsuc 15 }

minus_three_bytes :
    encode_store_frame_imm minus_three ≡ 205 ∷ 1 ∷ 253 ∷ 255 ∷ 240 ∷ 255 ∷ 255 ∷ 255 ∷ []
unfolding encode_store_frame_imm imm_bytes bytes_of
minus_three_bytes = refl

sign_extend_64-value_example : sign_extend_64 4095 12 ≡ 18446744073709551615
sign_extend_64-value_example = sign_extend_64-value 4095 11 (omega arith)
