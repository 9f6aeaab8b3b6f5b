-- ===== src/Encodings/Stringprep.antt =====
-- util-src/encodings.c where USE_STRINGPREP_ICU is not defined: stringprep and IDNA over libidn, whose
-- functions are parameters. `none` is a fault, a write beyond the end of a buffer, or a Lua error where
-- an argument is checked. Guard, below this module, proves what reaches the library.
pub mod Guard
pub mod Text
mod Examples
use prosody_trunk.Base.{
  ℕ, zero, suc, ◌+◌, ◌<◌, ◌≡◌, Bool, true, false, not, ◌&&◌, ◌||◌, Option, none, some,
}
use prosody_trunk.Base.{List, [], ◌∷◌, length, take, ltb, leb, ◌==◌, if◌then◌else◌, ◌>>=◌}
use prosody_trunk.Base.Int.{ℤ}
use prosody_trunk.Lua.{text_of, Value, nil, boolean, integer, string, function}
use prosody_trunk.Encodings.Utf8.{Verdict, valid, invalid, running, check_utf8}

-- The bytes before the first zero byte.
pub cstring : List ℕ → List ℕ
cstring [] = []
cstring (c ∷ s) = let rest = cstring s in if c == 0 then [] else c ∷ rest

pub strlen : List ℕ → ℕ
unfolding cstring
strlen s = length (cstring s)

abbrev pub is_valid : Verdict → Bool
is_valid valid = true
is_valid _ = false

-- `strcpy` to a buffer of `size` bytes, of which the terminating zero byte takes one.
pub strcpy : ℕ → List ℕ → Option (List ℕ)
strcpy size s = if ltb (strlen s) size then some (cstring s) else none

abbrev pub buffer_size : ℕ
buffer_size = 1024

-- The test before the library is called.
unfoldable pub is_refused : List ℕ → Bool
unfolding strlen
is_refused s =
    not (is_valid (check_utf8 s)) || leb buffer_size (length s) || not (length s == strlen s)

-- The result of the library, for Lua.
unfoldable pub converted : Option (List ℕ) → List Value
converted none = nil ∷ []
converted (some out) = string out ∷ []

-- A profile of libidn maps the string in the buffer, or fails.
module _ (decimal : ℤ → List ℕ) (stringprep : List ℕ → Option (List ℕ)) where
  pub prep_text : Option (List ℕ) → Option (List Value)
  prep_text none = some (nil ∷ [])
  prep_text (some s) =
      if is_refused s
      then some (nil ∷ [])
      else do copy ← strcpy buffer_size s; some (converted (stringprep copy))

  unfoldable pub stringprep_prep : Option Value → Option (List Value)
  stringprep_prep v = prep_text (text_of decimal v)

-- `luaL_checklstring` raises a Lua error where `lua_isstring` says no. libidn is handed the string up to
-- its first zero byte.
module _ (decimal : ℤ → List ℕ) (idna : List ℕ → Option (List ℕ)) where
  pub to_ascii_text : Option (List ℕ) → Option (List Value)
  to_ascii_text none = none
  to_ascii_text (some s) =
      if not (is_valid (check_utf8 s)) || not (length s == strlen s)
      then some (nil ∷ [])
      else some (converted (idna (cstring s)))

  pub l_idna_to_ascii : Option Value → Option (List Value)
  l_idna_to_ascii v = to_ascii_text (text_of decimal v)

  pub to_unicode_text : Option (List ℕ) → Option (List Value)
  to_unicode_text none = none
  to_unicode_text (some s) = some (converted (idna (cstring s)))

  pub l_idna_to_unicode : Option Value → Option (List Value)
  l_idna_to_unicode v = to_unicode_text (text_of decimal v)
