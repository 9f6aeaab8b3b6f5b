-- ===== src/Encodings/Icu/Examples.antt =====
-- The two versions over libraries whose profile keeps short strings of UTF-8 as they are.
use prosody_trunk.Base.{ℕ, Option, none, some, if◌then◌else◌}
use prosody_trunk.Base.{List, []}
use prosody_trunk.Base.Int.{ℤ}
use prosody_trunk.Encodings.Utf8.{check_utf8}
use prosody_trunk.Encodings.Stringprep.{is_valid}
use prosody_trunk.Encodings.Icu.{Library}
use prosody_trunk.Encodings.Icu.Agree.{limited}

abbrev plain : Library
plain = record {
  Units = List ℕ;
  from_utf8 = λ n s. if is_valid (check_utf8 s) then some s else none;
  to_utf8 = λ n u. limited 1024 (some u);
}

abbrev keep : ℕ → List ℕ → Option (List ℕ)
keep = λ n u. some u

-- libidn with the profile that keeps every text.
short_text : List ℕ → Option (List ℕ)
short_text s = limited 1023 (some s)

abbrev no_numbers : ℤ → List ℕ
no_numbers = λ n. []
