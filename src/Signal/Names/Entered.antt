-- ===== src/Signal/Names/Entered.antt =====
-- Every signal of the platform can be named.
use prosody_trunk.Base.{ℕ, ◌≡◌, Bool, true, false, Option, none, some, List, [], ◌∷◌, if◌then◌else◌}
use prosody_trunk.Base.Int.{ℤ}
use prosody_trunk.Exports.{Field, number}
use prosody_trunk.Signal.Opened.{SignalFunction}
use prosody_trunk.Base.Text.{equal}
use prosody_trunk.Signal.Names.{Tables}

-- Whether a name is in a list.
pub is_in : List ℕ → List (List ℕ) → Bool
is_in key [] = false
is_in key (name ∷ names) = if equal name key then true else is_in key names

-- What a table has for a key after the entries of some names, given what it had before; `value` is
-- how it holds a number.
module _ {V : Type 0} (value : ℤ → V) (platform : List ℕ → Option ℤ) where
  abbrev or_before : Option ℤ → V → V
  or_before none before = before
  or_before (some sig) before = value sig

  named : List (List ℕ) → List ℕ → V → V
  named names key before = if is_in key names then or_before (platform key) before else before

abbrev in_registry : ℤ → Option ℤ
in_registry sig = some sig

abbrev in_library : ℤ → Field SignalFunction
in_library sig = number sig

abbrev Entered : (List ℕ → Option ℤ) → List (List ℕ) → List ℕ → Tables → Tables → Type 0
Entered platform names key before after =
    (after.0 key ≡ named in_registry platform names key (before.0 key))
    × (after.1 key ≡ named in_library platform names key (before.1 key))
