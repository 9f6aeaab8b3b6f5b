-- ===== src/Pposix/Limits.antt =====
-- `string2resource`, `arg_to_rlimit`, `lc_setrlimit` and `lc_getrlimit`.
pub mod Current
use prosody_trunk.Base.{ℕ, ◌-◌, ◌^◌, ◌≡◌, refl, Bool, true, false, ◌&&◌, Option, none, some, ◌>>=◌}
use prosody_trunk.Base.{List, [], ◌∷◌, length, ltb, ◌==◌, if◌then◌else◌}
use prosody_trunk.Base.Int.{ℤ, pos, negsuc, to_size}
use prosody_trunk.Base.Text.{bytes, equal}
use prosody_trunk.Lua.{Value, nil, boolean, integer, string, index}

-- The limits by their names, with the numbers that they have on Linux, and -1 for another name.
abbrev pub string2resource : List ℕ → ℤ
string2resource s =
    if equal s (bytes "CORE")
    then pos 4
    else if equal s (bytes "CPU")
    then pos 0
    else if equal s (bytes "DATA")
    then pos 2
    else if equal s (bytes "FSIZE")
    then pos 1
    else if equal s (bytes "NOFILE")
    then pos 7
    else if equal s (bytes "STACK")
    then pos 3
    else if equal s (bytes "MEMLOCK")
    then pos 8
    else if equal s (bytes "NPROC")
    then pos 6
    else if equal s (bytes "RSS")
    then pos 5
    else if equal s (bytes "NICE")
    then pos 13
    else negsuc 0

abbrev pub rlim_infinity : ℕ
rlim_infinity = 2 ^ 64 - 1

-- An argument as a limit: `none` is a Lua error.
unfoldable pub arg_to_rlimit : Option Value → ℕ → Option ℕ
arg_to_rlimit none current = some current
arg_to_rlimit (some nil) current = some current
arg_to_rlimit (some (integer n)) current = some (to_size n)
arg_to_rlimit (some (string s)) current =
    if equal s (bytes "unlimited") then some rlim_infinity else none
arg_to_rlimit (some _) current = none

-- The calls of the system: the soft and the hard limit of a resource.
pub record Limits : Type 1 where
  pub World : Type 0
  pub getrlimit : World → ℕ → Option (ℕ × ℕ)
  pub setrlimit : World → ℕ → ℕ × ℕ → Option World

pub refused : List ℕ → List Value
refused why = boolean false ∷ string why ∷ []

-- A limit as it is handed to Lua. A number stands for the exact one: the double that Lua 5.1 has
-- instead is rounded above 2 ^ 53.
pub limit_value : ℕ → Value
limit_value n = if n == rlim_infinity then string (bytes "unlimited") else integer (pos n)

module _ (S : Limits) where
  -- What follows the answer of `setrlimit`.
  pub changed : S.World → Option S.World → List Value × S.World
  changed w none = (refused (bytes "setrlimit-failed"), w)
  changed w (some w') = (boolean true ∷ [], w')

  -- What follows the answer of `getrlimit`.
  pub with_current : S.World → ℕ → List Value → Option (ℕ × ℕ) → Option (List Value × S.World)
  with_current w rid args none = some (refused (bytes "getrlimit-failed"), w)
  with_current w rid args (some (soft, hard)) = do
    soft' ← arg_to_rlimit (index args 1) soft
    hard' ← arg_to_rlimit (index args 2) hard
    some (changed w (S.setrlimit w rid (soft', hard')))

  pub setrlimit_of : S.World → ℤ → List Value → Option (List Value × S.World)
  setrlimit_of w (negsuc n) args = some (refused (bytes "invalid-resource"), w)
  setrlimit_of w (pos rid) args = with_current w rid args (S.getrlimit w rid)

  pub lc_setrlimit : S.World → List Value → Option (List Value × S.World)
  lc_setrlimit w [] = some (refused (bytes "incorrect-arguments"), w)
  lc_setrlimit w (string s ∷ args) =
      if ltb 2 (length args)
      then some (refused (bytes "incorrect-arguments"), w)
      else setrlimit_of w (string2resource s) (string s ∷ args)
  lc_setrlimit w (v ∷ args) =
      if ltb 2 (length args) then some (refused (bytes "incorrect-arguments"), w) else none

  pub reported : Option (ℕ × ℕ) → List Value
  reported none = refused (bytes "getrlimit-failed.")
  reported (some (soft, hard)) = boolean true ∷ limit_value soft ∷ limit_value hard ∷ []

  pub getrlimit_of : S.World → ℤ → List Value
  getrlimit_of w (negsuc n) = refused (bytes "invalid-resource")
  getrlimit_of w (pos rid) = reported (S.getrlimit w rid)

  pub lc_getrlimit : S.World → List Value → Option (List Value)
  lc_getrlimit w (string s ∷ []) = some (getrlimit_of w (string2resource s))
  lc_getrlimit w (v ∷ []) = none
  lc_getrlimit w _ = some (refused (bytes "invalid-arguments"))
