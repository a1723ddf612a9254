-- ===== src/Leb/Runs.antt =====
-- Encodings of concrete numbers.
use cbc_engine.Prelude.{◌≡◌, refl, arith, some, [], ◌∷◌, ◌++◌}
use cbc_engine.Prelude.Int.{pos, negsuc}
use cbc_engine.Leb.{encode_uleb, decode_uleb, encode_sleb, decode_sleb}
use cbc_engine.Leb.Unsigned.{decode_uleb-encode_uleb}
use cbc_engine.Leb.RoundTrip.{decode_sleb-encode_sleb}

three_bytes : encode_uleb 10 624485 ≡ 229 ∷ 142 ∷ 38 ∷ []
unfolding encode_uleb
three_bytes = refl

negative_bytes : encode_sleb 10 (negsuc 123455) ≡ 192 ∷ 187 ∷ 120 ∷ []
unfolding encode_sleb
negative_bytes = refl

-- 64 needs a second byte for its sign.
sign_byte : encode_sleb 10 (pos 64) ≡ 192 ∷ 0 ∷ []
unfolding encode_sleb
sign_byte = refl

decode_uleb-encode_uleb_example :
    decode_uleb (encode_uleb 10 624485 ++ 7 ∷ []) ≡ some (624485, 7 ∷ [])
decode_uleb-encode_uleb_example = decode_uleb-encode_uleb 624485 (7 ∷ []) (omega arith)

decode_sleb-encode_sleb_example :
    decode_sleb (encode_sleb 10 (negsuc 123455) ++ 7 ∷ []) ≡ some (negsuc 123455, 7 ∷ [])
decode_sleb-encode_sleb_example = decode_sleb-encode_sleb (negsuc 123455) (7 ∷ []) (omega arith)
