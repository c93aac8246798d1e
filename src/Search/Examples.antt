-- ===== src/Search/Examples.antt =====
-- The digits 0AFF of two bytes.
use honas.Common.{◌≡◌, arith, true, [], ◌∷◌, some}
use honas.Search.{decode_string_hex}
use honas.Search.Hex.{encode_hex, decode_string_hex-encode_hex}

decode_string_hex-encode_hex_example :
    decode_string_hex (encode_hex true (10 ∷ 255 ∷ [])) 2 ≡ some (10 ∷ 255 ∷ [])
decode_string_hex-encode_hex_example =
    decode_string_hex-encode_hex true (10 ∷ 255 ∷ []) (ground arith)
