-- ===== src/Encodings/Stringprep/Text.antt =====
-- The functions over libidn return on every string of bytes, with strings of bytes where libidn has
-- such strings for results.
use prosody_trunk.Base.{
  ℕ, ◌≡◌, refl, Bool, true, false, not, ◌||◌, Option, none, some, List, [], ◌∷◌, All, length, ◌==◌,
  Bool-cases, inl, inr, if◌then◌else◌,
}
use prosody_trunk.Base.Int.{ℤ}
use prosody_trunk.Lua.{text_of, nil, string, IsText, Returns}
use prosody_trunk.Encodings.Utf8.{check_utf8}
use prosody_trunk.Encodings.Utf8.Sound.{IsByte}
use prosody_trunk.Encodings.Stringprep.{
  cstring, strlen, is_valid, is_refused, converted, stringprep_prep, to_ascii_text, l_idna_to_ascii,
  to_unicode_text, l_idna_to_unicode,
}
use prosody_trunk.Encodings.Stringprep.Guard.{Passes_of, prep_passed, prep_refused}

-- The results of a function of the library are strings of bytes.
abbrev pub WritesBytes : (List ℕ → Option (List ℕ)) → Type 0
WritesBytes f = (s out : List ℕ) → f s ≡ some out → All IsByte out

converted-IsText :
    (o : Option (List ℕ))
    → ((out : List ℕ) → o ≡ some out → All IsByte out)
    → All IsText (converted o)
unfolding converted
converted-IsText none h = (tt, tt)
converted-IsText (some out) h = (h out refl, tt)

module _ (decimal : ℤ → List ℕ) (f : List ℕ → Option (List ℕ)) (writes : WritesBytes f) where
  pub stringprep_prep-Returns :
      (s : List ℕ) → All IsByte s → Returns (stringprep_prep decimal f (some (string s)))
  unfolding stringprep_prep text_of
  stringprep_prep-Returns s b = elim (Bool-cases (is_refused s)) [
    | inl r ↦ (nil ∷ [], prep_refused decimal f s r, (tt, tt))
    | inr a ↦ (
      converted (f s),
      prep_passed decimal f s b (Passes_of s b a),
      converted-IsText (f s) (writes s),
    )
  ]

  pub l_idna_to_ascii-Returns : (s : List ℕ) → Returns (l_idna_to_ascii decimal f (some (string s)))
  unfolding l_idna_to_ascii to_ascii_text text_of
  l_idna_to_ascii-Returns s = branch (not (is_valid (check_utf8 s)) || not (length s == strlen s))
    where
      branch :
          (b : Bool) → Returns (if b then some (nil ∷ []) else some (converted (f (cstring s))))
      branch true = (nil ∷ [], refl, (tt, tt))
      branch false = (converted (f (cstring s)), refl, converted-IsText _ (writes (cstring s)))

  pub l_idna_to_unicode-Returns :
      (s : List ℕ) → Returns (l_idna_to_unicode decimal f (some (string s)))
  unfolding l_idna_to_unicode to_unicode_text text_of
  l_idna_to_unicode-Returns s =
      (converted (f (cstring s)), refl, converted-IsText _ (writes (cstring s)))
