-- ===== src/Encodings/Icu/Text.antt =====
-- The functions over ICU return on every string, with strings of bytes where ICU writes bytes.
use prosody_trunk.Base.{
  ℕ, ◌≡◌, refl, Bool, true, false, Option, none, some, ◌>>=◌, List, [], ◌∷◌, All, length, leb, ltb,
  ◌<◌, if◌then◌else◌,
}
use prosody_trunk.Base.Int.{ℤ}
use prosody_trunk.Lua.{text_of, nil, string, IsText, Returns}
use prosody_trunk.Encodings.Stringprep.{buffer_size}
use prosody_trunk.Encodings.Icu.{
  Library, output, through, icu_prep_text, icu_stringprep_prep, idna_text, l_idna_to_ascii,
  l_idna_to_unicode,
}

-- `u_strToUTF8` writes bytes.
abbrev pub EmitsBytes : Library → Type 0
EmitsBytes I =
    (size : ℕ) (u : I.Units) (out : List ℕ) → I.to_utf8 size u ≡ some out → All (λ b. b < 256) out

module _ (I : Library) (writes : EmitsBytes I) (f : ℕ → I.Units → Option I.Units) where
  output-IsText :
      (o : Option (List ℕ))
      → ((out : List ℕ) → o ≡ some out → All (λ b. b < 256) out)
      → All IsText (output I o)
  unfolding output
  output-IsText none h = (tt, tt)
  output-IsText (some out) h = branch (ltb (length out) buffer_size)
    where
      branch : (b : Bool) → All IsText (if b then string out ∷ [] else nil ∷ [])
      branch true = (h out refl, tt)
      branch false = (tt, tt)

  through-bytes : (s out : List ℕ) → through I f s ≡ some out → All (λ b. b < 256) out
  unfolding through
  through-bytes s out e = first (I.from_utf8 buffer_size s) e
    where
      second :
          (o : Option I.Units)
          → (do u ← o; I.to_utf8 buffer_size u) ≡ some out
          → All (λ b. b < 256) out
      second none e = cc e
      second (some u) e = writes buffer_size u out e

      first :
          (o : Option I.Units)
          → (do u ← o; v ← f buffer_size u; I.to_utf8 buffer_size v) ≡ some out
          → All (λ b. b < 256) out
      first none e = cc e
      first (some u) e = second (f buffer_size u) e

  pub prep-Returns :
      (decimal : ℤ → List ℕ) (s : List ℕ)
      → All IsText (icu_stringprep_prep I decimal f (some (string s)))
  unfolding icu_stringprep_prep icu_prep_text text_of
  prep-Returns decimal s = branch (leb buffer_size (length s))
    where
      branch : (b : Bool) → All IsText (if b then nil ∷ [] else output I (through I f s))
      branch true = (tt, tt)
      branch false = output-IsText _ (through-bytes s)

  pub idna-Returns : (s : List ℕ) → Returns (idna_text I f (some s))
  unfolding idna_text
  idna-Returns s = (output I (through I f s), refl, output-IsText _ (through-bytes s))

  pub icu_to_ascii-Returns :
      (decimal : ℤ → List ℕ) (s : List ℕ) → Returns (l_idna_to_ascii I decimal f (some (string s)))
  unfolding l_idna_to_ascii text_of
  icu_to_ascii-Returns decimal s = idna-Returns s

  pub icu_to_unicode-Returns :
      (decimal : ℤ → List ℕ) (s : List ℕ)
      → Returns (l_idna_to_unicode I decimal f (some (string s)))
  unfolding l_idna_to_unicode text_of
  icu_to_unicode-Returns decimal s = idna-Returns s
