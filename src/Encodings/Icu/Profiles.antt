-- ===== src/Encodings/Icu/Profiles.antt =====
-- util-src/encodings.c where USE_STRINGPREP_ICU is defined: the profiles, which `init_icu` opens when
-- the module is loaded. `usprep_openByType` is a parameter, and an error is a number above 0.
use prosody_trunk.Base.{suc, Bool, true, false, Option}
use prosody_trunk.Base.Int.{ℤ, pos}

pub data ProfileType : Type 0 where
  rfc3491_nameprep rfc3920_nodeprep rfc3920_resourceprep rfc4013_saslprep : ProfileType

pub failure : ℤ → Bool
failure (pos (suc n)) = true
failure _ = false

-- The pointers to the profiles; `none` is the null pointer.
pub record Profiles (Profile : Type 0) : Type 0 where
  pub icu_nameprep : Option Profile
  pub icu_nodeprep : Option Profile
  pub icu_resourceprep : Option Profile
  pub icu_saslprep : Option Profile

-- Each call gets the error code that the one before it left. The result says also whether there is a
-- message on the standard error stream.
pub init_icu : {Profile : Type 0} → (ProfileType → ℤ → Option Profile × ℤ) → Profiles Profile × Bool
init_icu open_by_type =
    let (nameprep, e1) = open_by_type rfc3491_nameprep (pos 0) in
    let (nodeprep, e2) = open_by_type rfc3920_nodeprep e1 in
    let (resourceprep, e3) = open_by_type rfc3920_resourceprep e2 in
    let (saslprep, e4) = open_by_type rfc4013_saslprep e3 in
    (
      record {
        icu_nameprep = nameprep;
        icu_nodeprep = nodeprep;
        icu_resourceprep = resourceprep;
        icu_saslprep = saslprep;
      },
      failure e4,
    )
