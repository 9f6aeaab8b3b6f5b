-- ===== src/Pposix/Modes.antt =====
-- util-src/pposix.c: lc_umask and lc_mkdir. `strtoul` with base 8 and `snprintf` with "%03o" are
-- written out as the C standard describes them; the calls `umask` and `mkdir` are parameters.
use prosody_trunk.Base.{
  ℕ, zero, suc, ◌+◌, ◌-◌, ◌*◌, ◌/◌, ◌%◌, ◌^◌, Bool, true, false, ◌&&◌, ◌||◌, not, Option, none,
  some, List, [], ◌∷◌, ◌++◌, length, take, leb, ltb, ◌==◌, if◌then◌else◌,
}
use prosody_trunk.Lua.{Value, boolean, string}
pub mod Restored

-- The calls of the system, which change a world. `mkdir` returns the errno where it fails.
pub record System : Type 1 where
  pub World : Type 0
  pub umask : World → ℕ → ℕ × World
  pub mkdir : World → List ℕ → ℕ → Option ℕ × World
  pub strerror : ℕ → List ℕ

-- `isspace`, of which `strtoul` skips any number.
pub is_blank : ℕ → Bool
is_blank c = (leb 9 c && leb c 13) || (c == 32)

pub skip_blanks : List ℕ → List ℕ
skip_blanks [] = []
skip_blanks (c ∷ cs) = let rest = skip_blanks cs in if is_blank c then rest else c ∷ cs

-- The value of the octal digits in front.
pub octal_value : ℕ → List ℕ → ℕ
octal_value value [] = value
octal_value value (c ∷ cs) =
    let rest = octal_value (value * 8 + (c - 48)) cs in if leb 48 c && leb c 55 then rest else value

-- A value that an unsigned long, of 64 bits, cannot hold is the greatest one.
pub held : ℕ → Bool → ℕ
held value negative =
    if leb (2 ^ 64) value then 2 ^ 64 - 1 else if negative then (2 ^ 64 - value) % 2 ^ 64 else value

pub signed_value : List ℕ → ℕ
signed_value [] = 0
signed_value (c ∷ cs) =
    if c == 45
    then held (octal_value 0 cs) true
    else if c == 43
    then held (octal_value 0 cs) false
    else held (octal_value 0 (c ∷ cs)) false

unfoldable pub strtoul8 : List ℕ → ℕ
unfolding skip_blanks signed_value is_blank octal_value held
strtoul8 s = signed_value (skip_blanks s)

-- The octal digits of a number, in front of others: 11 are enough for a `mode_t` of 32 bits.
pub octal_digits : ℕ → ℕ → List ℕ → List ℕ
octal_digits zero n rest = rest
octal_digits (suc fuel) n rest =
    let more = octal_digits fuel (n / 8) ((48 + n % 8) ∷ rest) in
    if n / 8 == 0 then (48 + n % 8) ∷ rest else more

-- Zeros in front, up to three characters.
pub padded : List ℕ → List ℕ
padded [] = 48 ∷ 48 ∷ 48 ∷ []
padded (a ∷ []) = 48 ∷ 48 ∷ a ∷ []
padded (a ∷ b ∷ []) = 48 ∷ a ∷ b ∷ []
padded s = s

-- `snprintf` into `old_mode_string`, whose 7 bytes hold at most 6 characters.
unfoldable pub mode_string : ℕ → List ℕ
unfolding octal_digits padded
mode_string old_mode = take 6 (padded (octal_digits 11 old_mode []))

module _ (sys : System) where
  pub lc_umask : sys.World → List ℕ → List ℕ × sys.World
  lc_umask w s =
      let (old_mode, w') = sys.umask w (strtoul8 s % 2 ^ 32) in (mode_string old_mode, w')

  -- S_IRUSR and the others: mode 775.
  pub made : Option ℕ → List Value
  made none = boolean true ∷ []
  made (some e) = boolean false ∷ string (sys.strerror e) ∷ []

  pub lc_mkdir : sys.World → List ℕ → List Value × sys.World
  lc_mkdir w path = let (ret, w') = sys.mkdir w path 0x1fd in (made ret, w')
