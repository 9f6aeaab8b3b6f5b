-- ===== src/Encodings/Stringprep/Examples.antt =====
-- The functions over a profile that keeps every string, and a conversion that does.
use prosody_trunk.Base.{ℕ, ◌≡◌, ◌≢◌, ◌↔◌, Option, none, some, List, [], ◌∷◌, arith}
use prosody_trunk.Base.Int.{ℤ}
use prosody_trunk.Lua.{string}
use prosody_trunk.Encodings.Stringprep.{stringprep_prep}
use prosody_trunk.Encodings.Stringprep.Guard.{Passes, stringprep_prep_iff}

abbrev no_numbers : ℤ → List ℕ
no_numbers = λ n. []

abbrev keep : List ℕ → Option (List ℕ)
keep = λ s. some s

stringprep_prep_iff_example :
    (stringprep_prep no_numbers keep (some (string (65 ∷ 66 ∷ []))) ≢ none)
    × ((out : List ℕ)
        → (stringprep_prep no_numbers keep (some (string (65 ∷ 66 ∷ []))) ≡ some (string out ∷ []))
          ↔ (Passes (65 ∷ 66 ∷ []) × (keep (65 ∷ 66 ∷ []) ≡ some out)))
stringprep_prep_iff_example = stringprep_prep_iff no_numbers keep (65 ∷ 66 ∷ []) (omega arith)
