-- ===== src/Encodings/Opened/Typed.antt =====
-- What the functions that util.encodings hands to Lua return on a string, in both builds.
use prosody_trunk.Base.{some, ℕ, ◌≡◌, refl, Option, List, ◌∷◌, All}
use mathlib.Core.Path.{subst}
use prosody_trunk.Base.Int.{ℤ}
use prosody_trunk.Lua.{text_of, Value, string, Returns}
use prosody_trunk.Exports.{function, Table, new_table}
use prosody_trunk.Exports.Setfuncs.{FieldHas, TableHas, setfuncs-TableHas}
use prosody_trunk.Encodings.Base64.{l_base64_encode, l_base64_decode}
use prosody_trunk.Encodings.Base64.Text.{encode-Returns, decode-IsText}
use prosody_trunk.Encodings.Base64.Encode.{IsShort}
use prosody_trunk.Encodings.Utf8.{l_utf8_valid, l_utf8_length}
use prosody_trunk.Encodings.Utf8.Sound.{IsByte}
use prosody_trunk.Encodings.Utf8.Text.{valid-IsText, length-IsText}
use prosody_trunk.Encodings.Stringprep.Text.{
  WritesBytes, stringprep_prep-Returns, l_idna_to_ascii-Returns, l_idna_to_unicode-Returns,
}
use prosody_trunk.Encodings.Icu.Text.{
  EmitsBytes, prep-Returns, icu_to_ascii-Returns, icu_to_unicode-Returns,
}
use prosody_trunk.Encodings.Icu.Profiles.{Profiles, init_icu}
use prosody_trunk.Encodings.Opened.{
  CFunction, CChecked, Libidn, IcuCalls, Build, with_libidn, with_icu, checked, reg_base64,
  reg_utf8, libidn_prep, icu_prep, icu_profiles, reg_stringprep, reg_idna, Encodings,
  luaopen_util_encodings,
}

-- The function returns on a string of fewer than 3 * 2 ^ 31 bytes, whatever arguments follow, with strings of bytes only.
abbrev pub IsTyped : CFunction → Type 0
IsTyped f =
    (s : List ℕ) (args : List Value) → IsShort s → All IsByte s → Returns (f (string s ∷ args))

-- The functions of libidn have strings of bytes for results.
pub record LibidnWrites (D : Libidn) : Type 0 where
  pub nameprep : WritesBytes D.nameprep
  pub nodeprep : WritesBytes D.nodeprep
  pub resourceprep : WritesBytes D.resourceprep
  pub saslprep : WritesBytes D.saslprep
  pub to_ascii : WritesBytes D.to_ascii
  pub to_unicode : WritesBytes D.to_unicode

-- What the library that the build links promises.
abbrev pub BuildWrites : Build → Type 0
BuildWrites (with_libidn D) = LibidnWrites D
BuildWrites (with_icu C) = EmitsBytes C.library

-- Each of the four tables of functions.
pub data Member : Type 0 where
  base64 stringprep idna utf8 : Member

abbrev pub member : Encodings → Member → Table CFunction
member E base64 = E.base64
member E stringprep = E.stringprep
member E idna = E.idna
member E utf8 = E.utf8

module _ (decimal : ℤ → List ℕ) where
  checked-IsTyped :
      (f : CChecked)
      → ((s : List ℕ) → IsShort s → All IsByte s → Returns (f s))
      → IsTyped (checked decimal f)
  unfolding checked text_of
  checked-IsTyped f h s args l b = h s l b

  icu_profiles-IsTyped :
      (C : IcuCalls) (p : Profiles C.Profile)
      → EmitsBytes C.library
      → All (λ e. IsTyped e.1) (icu_profiles decimal C p)
  unfolding icu_profiles icu_prep
  icu_profiles-IsTyped C p w =
      let each : (q : Option C.Profile) → IsTyped (icu_prep decimal C q) =
        λ q s args l b. (_, refl, prep-Returns C.library w (C.prepare q) decimal s) in
      (
        each p.icu_nameprep,
        (each p.icu_nodeprep, (each p.icu_resourceprep, (each p.icu_saslprep, tt))),
      )

  reg_stringprep-IsTyped :
      (build : Build) → BuildWrites build → All (λ e. IsTyped e.1) (reg_stringprep decimal build)
  unfolding reg_stringprep libidn_prep
  reg_stringprep-IsTyped (with_libidn D) w =
      let each : (f : List ℕ → Option (List ℕ)) → WritesBytes f → IsTyped (libidn_prep decimal f) =
        λ f v s args l b. stringprep_prep-Returns decimal f v s b in
      (
        each D.nameprep w.nameprep,
        (
          each D.nodeprep w.nodeprep,
          (each D.resourceprep w.resourceprep, (each D.saslprep w.saslprep, tt)),
        ),
      )
  reg_stringprep-IsTyped (with_icu C) w = icu_profiles-IsTyped C (init_icu C.open_by_type).0 w

  reg_idna-IsTyped :
      (build : Build) → BuildWrites build → All (λ e. IsTyped e.1) (reg_idna decimal build)
  unfolding reg_idna
  reg_idna-IsTyped (with_libidn D) w = (
    λ s args l b. l_idna_to_ascii-Returns decimal D.to_ascii w.to_ascii s,
    (λ s args l b. l_idna_to_unicode-Returns decimal D.to_unicode w.to_unicode s, tt),
  )
  reg_idna-IsTyped (with_icu C) w = (
    λ s args l b. icu_to_ascii-Returns C.library w C.to_ascii decimal s,
    (λ s args l b. icu_to_unicode-Returns C.library w C.to_unicode decimal s, tt),
  )

  members-IsTyped :
      (build : Build)
      → BuildWrites build
      → (m : Member) → TableHas IsTyped (member (luaopen_util_encodings decimal build) m)
  unfolding luaopen_util_encodings reg_base64 reg_utf8
  members-IsTyped build w base64 =
      setfuncs-TableHas IsTyped (reg_base64 decimal) new_table
        (
          checked-IsTyped l_base64_encode encode-Returns,
          (
            checked-IsTyped (λ s. some (l_base64_decode s)) (λ s l b. (_, refl, decode-IsText s)),
            tt,
          ),
        )
        (λ key. tt)
  members-IsTyped build w stringprep =
      setfuncs-TableHas IsTyped (reg_stringprep decimal build) new_table
        (reg_stringprep-IsTyped build w) (λ key. tt)
  members-IsTyped build w idna =
      setfuncs-TableHas IsTyped (reg_idna decimal build) new_table (reg_idna-IsTyped build w)
        (λ key. tt)
  members-IsTyped build w utf8 =
      setfuncs-TableHas IsTyped (reg_utf8 decimal) new_table
        (
          checked-IsTyped (λ s. some (l_utf8_valid s)) (λ s l b. (_, refl, valid-IsText s)),
          (checked-IsTyped (λ s. some (l_utf8_length s)) (λ s l b. (_, refl, length-IsText s)), tt),
        )
        (λ key. tt)

  -- Each function that util.encodings hands to Lua under a name, in whichever build, returns on a string
  -- of fewer than 3 * 2 ^ 31 bytes, neither with a Lua error nor with a fault, and the strings that it returns consist of
  -- bytes; the library that the build links writes bytes.
  luaopen_util_encodings-IsTyped :
      (build : Build)
      → BuildWrites build
      → (m : Member) (key : List ℕ) (f : CFunction)
      → member (luaopen_util_encodings decimal build) m key ≡ function f
      → (s : List ℕ) (args : List Value) → IsShort s
      → All IsByte s
      → Returns (f (string s ∷ args))
  luaopen_util_encodings-IsTyped build w m key f e =
      subst (FieldHas IsTyped) e (members-IsTyped build w m key)
