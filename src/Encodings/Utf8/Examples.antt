-- ===== src/Encodings/Utf8/Examples.antt =====
-- Runs of `utf8_decode` and `check_utf8`, and the theorems at concrete strings.
use prosody_trunk.Base.{◌⊎◌}
use prosody_trunk.Base.{ℕ, ◌≡◌, refl, List, [], ◌∷◌, ◌++◌, All, some, false, inr, arith}
use prosody_trunk.Base.Int.{pos}
use prosody_trunk.Lua.{boolean, integer}
use prosody_trunk.Encodings.Utf8.{
  cont_loop, finish, utf8_decode, valid, invalid, check_loop, check_utf8, l_utf8_valid,
  l_utf8_length,
}
use prosody_trunk.Encodings.Utf8.Sequences.{IsScalar, utf8_encode, utf8_decode-encode}
use prosody_trunk.Encodings.Utf8.Valid.{encode_all, check_utf8_lem}

-- "é" takes two bytes, and `utf8.length` counts both.
length_of_accent : l_utf8_length (0xc3 ∷ 0xa9 ∷ []) ≡ integer (pos 2) ∷ []
unfolding l_utf8_length check_utf8 check_loop utf8_decode cont_loop finish
length_of_accent = refl

surrogate_invalid : l_utf8_valid (0xed ∷ 0xa0 ∷ 0x80 ∷ []) ≡ boolean false ∷ []
unfolding l_utf8_valid check_utf8 check_loop utf8_decode cont_loop finish
surrogate_invalid = refl

utf8_decode-encode_example : utf8_decode (utf8_encode 0x1F600 ++ (7 ∷ [])) ≡ some (0x1F600, 7 ∷ [])
utf8_decode-encode_example = utf8_decode-encode 0x1F600 (7 ∷ []) (inr (omega arith))

accent_read : utf8_decode (0xc3 ∷ 0xa9 ∷ 7 ∷ []) ≡ some (0xe9, 7 ∷ [])
unfolding utf8_decode cont_loop finish
accent_read = refl

check_utf8_lem_example :
    ((check_utf8 (0xc3 ∷ 0xa9 ∷ []) ≡ valid)
      × ((vs : List ℕ) × All IsScalar vs × (◌≡◌ {A = List ℕ} (0xc3 ∷ 0xa9 ∷ []) (encode_all vs))))
    ⊎ ((check_utf8 (0xc3 ∷ 0xa9 ∷ []) ≡ invalid)
        × ¬ (
            (vs : List ℕ) × All IsScalar vs
            × (◌≡◌ {A = List ℕ} (0xc3 ∷ 0xa9 ∷ []) (encode_all vs))))
check_utf8_lem_example = check_utf8_lem (0xc3 ∷ 0xa9 ∷ []) (omega arith)
