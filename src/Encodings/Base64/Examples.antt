-- ===== src/Encodings/Base64/Examples.antt =====
-- The runs of spec/util_encodings_spec.lua, and the theorems at concrete strings.
use prosody_trunk.Base.{ℕ, List, ◌≡◌, refl, [], ◌∷◌, ◌++◌, some, arith}
use prosody_trunk.Base.Text.{bytes}
use prosody_trunk.Lua.{string}
use prosody_trunk.Encodings.Base64.{
  code, encode, l_base64_encode, decode_round, decode_loop, decode, l_base64_decode,
}
use prosody_trunk.Encodings.Base64.Decode.{readable, is_some, decode-encode, decode-readable}

encode_coucou : l_base64_encode (bytes "coucou") ≡ some (string (bytes "Y291Y291") ∷ [])
unfolding l_base64_encode encode code
encode_coucou = refl

decode_coucou : l_base64_decode (bytes "Y291Y291") ≡ string (bytes "coucou") ∷ []
unfolding l_base64_decode decode decode_loop decode_round code
decode_coucou = refl

decode_pad_alone : l_base64_decode (bytes "=") ≡ string [] ∷ []
unfolding l_base64_decode decode decode_loop decode_round code
decode_pad_alone = refl

-- Digits that are left over at the end, with no padding, are dropped.
decode_unpadded : l_base64_decode (bytes "Y29") ≡ string [] ∷ []
unfolding l_base64_decode decode decode_loop decode_round code
decode_unpadded = refl

decode_unknown : l_base64_decode (bytes "Y2.1") ≡ []
unfolding l_base64_decode decode decode_loop decode_round code
decode_unknown = refl

decode-encode_example :
    (t v : List ℕ) × (encode (1 ∷ []) ≡ some t)
    × (encode (2 ∷ 3 ∷ []) ≡ some v)
    × (decode (t ++ v) ≡ some (1 ∷ 2 ∷ 3 ∷ []))
decode-encode_example =
    decode-encode (1 ∷ []) (2 ∷ 3 ∷ []) (omega arith) (omega arith) (omega arith) (omega arith)

decode-readable_example : is_some (decode (bytes "Y2.1")) ≡ readable (bytes "Y2.1")
decode-readable_example = decode-readable (bytes "Y2.1") (omega arith)
