-- ===== src/Encodings/Utf8/Text.antt =====
-- The strings that the functions of UTF-8 return.
use prosody_trunk.Base.{ℕ, List, [], ◌∷◌, All, length, arith}
use prosody_trunk.Base.Int.{of_size}
use prosody_trunk.Base.Text.{bytes}
use prosody_trunk.Lua.{nil, integer, string, IsText}
use prosody_trunk.Encodings.Utf8.{
  Verdict, valid, invalid, running, check_utf8, l_utf8_valid, l_utf8_length,
}

pub valid-IsText : (s : List ℕ) → All IsText (l_utf8_valid s)
unfolding l_utf8_valid
valid-IsText s = (tt, tt)

pub length-IsText : (s : List ℕ) → All IsText (l_utf8_length s)
unfolding l_utf8_length
length-IsText s = split (check_utf8 s)
  where
    split :
        (v : Verdict)
        → All IsText (elim v [
          | valid ↦ integer (of_size (length s)) ∷ []
          | _ ↦ nil ∷ string (bytes "invalid utf8") ∷ []
        ])
    split valid = (tt, tt)
    split invalid = (tt, (omega arith, tt))
    split running = (tt, (omega arith, tt))
