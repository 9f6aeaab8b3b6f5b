-- ===== src/Base/Text.antt =====
-- Quoted text as the list of its bytes; the texts of the sources are ASCII.
use Prim.Native.Nat.{ℕ}
use Prim.Native.Char.{code}
use Prim.Native.String.{String}
use mathlib.Core.Bool.{Bool, true, false, ◌&&◌}
use mathlib.Core.List.{List, [], ◌∷◌}
use prosody_trunk.Base.Tests.{◌==◌}

abbrev pub bytes : String → List ℕ
bytes String.[] = []
bytes (String.◌∷◌ c s) = code c ∷ bytes s

-- `strcmp` as a test for equality, which is also how Lua compares strings.
abbrev pub equal : List ℕ → List ℕ → Bool
equal [] [] = true
equal (a ∷ s) (b ∷ t) = (a == b) && equal s t
equal _ _ = false
