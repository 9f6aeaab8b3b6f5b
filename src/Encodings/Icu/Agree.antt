-- ===== src/Encodings/Icu/Agree.antt =====
-- The two versions of stringprep give Lua the same answers.
use prosody_trunk.Base.{ℕ, ◌<◌, ◌≡◌, false, Option, none, some}
use prosody_trunk.Base.{List, length, leb, if◌then◌else◌}
use prosody_trunk.Encodings.Utf8.{valid, check_utf8}
use prosody_trunk.Encodings.Stringprep.{buffer_size, is_valid}
use prosody_trunk.Encodings.Icu.{Library, through}

-- A text, if it has at most so many bytes.
unfoldable pub limited : ℕ → Option (List ℕ) → Option (List ℕ)
limited n none = none
limited n (some out) = if leb (length out) n then some out else none

-- The two libraries implement one profile, `prepared`, as far as their buffers of 1024 bytes go. libidn
-- needs room for a zero byte behind the text; ICU writes a text of exactly 1024 bytes as well, with no
-- zero byte, and reports that as a success. ICU reads no string that is no UTF-8.
pub record SameProfile (I : Library) (prepare : ℕ → I.Units → Option I.Units)
    (profile : List ℕ → Option (List ℕ)) : Type 0 where
  pub prepared : List ℕ → Option (List ℕ)
  pub libidn :
      (s : List ℕ)
      → check_utf8 s ≡ valid
      → length s < buffer_size
      → profile s ≡ limited 1023 (prepared s)
  pub icu :
      (s : List ℕ)
      → check_utf8 s ≡ valid
      → length s < buffer_size
      → through I prepare s ≡ limited 1024 (prepared s)
  pub refuses : (s : List ℕ) → is_valid (check_utf8 s) ≡ false → I.from_utf8 buffer_size s ≡ none
