-- ===== src/Encodings/Opened.antt =====
-- util-src/encodings.c: the arrays of functions, and luaopen_util_encodings, which hands them to Lua as
-- four tables. A function is called with the list of its arguments. Typed, below this module, proves
-- what the functions return, whatever table they are taken from.
pub mod Typed
use prosody_trunk.Base.{ℕ, Bool, Option, none, some, List, [], ◌∷◌, ◌>>=◌, if◌then◌else◌}
use prosody_trunk.Base.Int.{ℤ}
use prosody_trunk.Base.Text.{bytes, equal}
use prosody_trunk.Lua.{text_of, Value, index}
use prosody_trunk.Exports.{function, Table, Reg, new_table, setfuncs}
use prosody_trunk.Encodings.Base64.{l_base64_encode, l_base64_decode}
use prosody_trunk.Encodings.Utf8.{l_utf8_valid, l_utf8_length}
use prosody_trunk.Encodings.Stringprep.{stringprep_prep}
use prosody_trunk.Encodings.Icu.{Library}
use prosody_trunk.Encodings.Icu.Profiles.{ProfileType, Profiles, init_icu}
use prosody_trunk.Encodings.Stringprep
use prosody_trunk.Encodings.Icu

-- `none` is a Lua error or a fault.
abbrev pub CFunction : Type 0
CFunction = List Value → Option (List Value)

-- A function of a string.
abbrev pub CChecked : Type 0
CChecked = List ℕ → Option (List Value)

-- What the module calls of libidn: its profiles and its two conversions.
pub record Libidn : Type 0 where
  pub nameprep : List ℕ → Option (List ℕ)
  pub nodeprep : List ℕ → Option (List ℕ)
  pub resourceprep : List ℕ → Option (List ℕ)
  pub saslprep : List ℕ → Option (List ℕ)
  pub to_ascii : List ℕ → Option (List ℕ)
  pub to_unicode : List ℕ → Option (List ℕ)

-- What it calls of ICU.
pub record IcuCalls : Type 1 where
  pub library : Library
  pub Profile : Type 0
  pub open_by_type : ProfileType → ℤ → Option Profile × ℤ
  pub prepare : Option Profile → ℕ → library.Units → Option library.Units
  pub to_ascii : ℕ → library.Units → Option library.Units
  pub to_unicode : ℕ → library.Units → Option library.Units

-- USE_STRINGPREP_ICU, and what the build links.
pub data Build : Type 1 where
  with_libidn : Libidn → Build
  with_icu : IcuCalls → Build

module _ (decimal : ℤ → List ℕ) where
  -- A function that begins with `luaL_checklstring`.
  pub checked : CChecked → CFunction
  checked f args = do s ← text_of decimal (index args 0); f s

  pub reg_base64 : Reg CFunction
  reg_base64 =
      (bytes "encode", checked l_base64_encode)
      ∷ (bytes "decode", checked (λ s. some (l_base64_decode s)))
      ∷ []

  pub reg_utf8 : Reg CFunction
  reg_utf8 =
      (bytes "valid", checked (λ s. some (l_utf8_valid s)))
      ∷ (bytes "length", checked (λ s. some (l_utf8_length s)))
      ∷ []

  -- What MAKE_PREP_FUNC makes of a profile of libidn, and of one of ICU.
  pub libidn_prep : (List ℕ → Option (List ℕ)) → CFunction
  libidn_prep profile args = stringprep_prep decimal profile (index args 0)

  pub icu_prep : (C : IcuCalls) → Option C.Profile → CFunction
  icu_prep C profile args =
      some (Icu.icu_stringprep_prep C.library decimal (C.prepare profile) (index args 0))

  pub icu_profiles : (C : IcuCalls) → Profiles C.Profile → Reg CFunction
  icu_profiles C p =
      (bytes "nameprep", icu_prep C p.icu_nameprep)
      ∷ (bytes "nodeprep", icu_prep C p.icu_nodeprep)
      ∷ (bytes "resourceprep", icu_prep C p.icu_resourceprep)
      ∷ (bytes "saslprep", icu_prep C p.icu_saslprep)
      ∷ []

  pub reg_stringprep : Build → Reg CFunction
  reg_stringprep (with_libidn D) =
      (bytes "nameprep", libidn_prep D.nameprep)
      ∷ (bytes "nodeprep", libidn_prep D.nodeprep)
      ∷ (bytes "resourceprep", libidn_prep D.resourceprep)
      ∷ (bytes "saslprep", libidn_prep D.saslprep)
      ∷ []
  reg_stringprep (with_icu C) =
      let (profiles, message) = init_icu C.open_by_type in icu_profiles C profiles

  pub reg_idna : Build → Reg CFunction
  reg_idna (with_libidn D) =
      (bytes "to_ascii", λ args. Stringprep.l_idna_to_ascii decimal D.to_ascii (index args 0))
      ∷ (
        bytes "to_unicode",
        λ args. Stringprep.l_idna_to_unicode decimal D.to_unicode (index args 0),
      )
      ∷ []
  reg_idna (with_icu C) =
      (bytes "to_ascii", λ args. Icu.l_idna_to_ascii C.library decimal C.to_ascii (index args 0))
      ∷ (
        bytes "to_unicode",
        λ args. Icu.l_idna_to_unicode C.library decimal C.to_unicode (index args 0),
      )
      ∷ []

-- The table of the module: four tables of functions, and the text in its field "version".
pub record Encodings : Type 0 where
  pub base64 : Table CFunction
  pub stringprep : Table CFunction
  pub idna : Table CFunction
  pub utf8 : Table CFunction
  pub version : List ℕ

pub luaopen_util_encodings : (ℤ → List ℕ) → Build → Encodings
luaopen_util_encodings decimal build = record {
  base64 = setfuncs (reg_base64 decimal) new_table;
  stringprep = setfuncs (reg_stringprep decimal build) new_table;
  idna = setfuncs (reg_idna decimal build) new_table;
  utf8 = setfuncs (reg_utf8 decimal) new_table;
  version = bytes "-3.14";
}
