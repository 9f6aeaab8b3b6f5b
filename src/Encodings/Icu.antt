-- ===== src/Encodings/Icu.antt =====
-- util-src/encodings.c where USE_STRINGPREP_ICU is defined: stringprep and IDNA over ICU. The functions
-- of ICU are parameters; `none` is an error code that U_FAILURE knows, after which a call has no result.
-- Agree, below this module, compares it with the version over libidn.
pub mod Agree
pub mod Text
pub mod Profiles
mod Examples
use prosody_trunk.Base.{ℕ, ◌<◌, Bool, true, false, Option, none, some, ◌>>=◌}
use prosody_trunk.Base.{List, [], ◌∷◌, length, leb, ltb, if◌then◌else◌}
use prosody_trunk.Base.Int.{ℤ}
use prosody_trunk.Lua.{text_of, Value, nil, string}
use prosody_trunk.Encodings.Stringprep.{buffer_size}

-- Strings of UTF-16 units, to and from UTF-8, in buffers of the size given.
pub record Library : Type 1 where
  pub Units : Type 0
  pub from_utf8 : ℕ → List ℕ → Option Units
  pub to_utf8 : ℕ → Units → Option (List ℕ)

module _ (I : Library) where
  -- The end of the functions: the bytes, if they are fewer than the buffer has.
  pub output : Option (List ℕ) → List Value
  output none = nil ∷ []
  output (some out) = if ltb (length out) buffer_size then string out ∷ [] else nil ∷ []

  -- The conversions around a mapping of units, in a buffer of the size given.
  pub through : (ℕ → I.Units → Option I.Units) → List ℕ → Option (List ℕ)
  through mapping s = do
    unprepped ← I.from_utf8 buffer_size s
    prepped ← mapping buffer_size unprepped
    I.to_utf8 buffer_size prepped

  pub icu_prep_text : (ℕ → I.Units → Option I.Units) → Option (List ℕ) → List Value
  icu_prep_text prepare none = nil ∷ []
  icu_prep_text prepare (some input) =
      if leb buffer_size (length input) then nil ∷ [] else output (through prepare input)

  pub icu_stringprep_prep :
      (ℤ → List ℕ) → (ℕ → I.Units → Option I.Units) → Option Value → List Value
  icu_stringprep_prep decimal prepare v = icu_prep_text prepare (text_of decimal v)

  -- `none` is the Lua error of `luaL_checklstring`.
  pub idna_text : (ℕ → I.Units → Option I.Units) → Option (List ℕ) → Option (List Value)
  idna_text convert none = none
  idna_text convert (some s) = some (output (through convert s))

  pub l_idna_to_ascii :
      (ℤ → List ℕ) → (ℕ → I.Units → Option I.Units) → Option Value → Option (List Value)
  l_idna_to_ascii decimal to_ascii v = idna_text to_ascii (text_of decimal v)

  pub l_idna_to_unicode :
      (ℤ → List ℕ) → (ℕ → I.Units → Option I.Units) → Option Value → Option (List Value)
  l_idna_to_unicode decimal to_unicode v = idna_text to_unicode (text_of decimal v)
