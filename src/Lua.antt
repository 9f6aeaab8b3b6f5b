-- ===== src/Lua.antt =====
-- The values that the C functions exchange with Lua. A C function returns the list of the values
-- that it hands to its caller, the first one first.
use prosody_trunk.Base.{
  ℕ, zero, suc, ◌<◌, ◌≡◌, List, [], ◌∷◌, All, Bool, true, false, Option, none, some,
}
use prosody_trunk.Base.Int.{ℤ}

-- A string is the list of its bytes. A function or a table is known by an identity alone.
pub data Value : Type 0 where
  nil : Value
  boolean : Bool → Value
  integer : ℤ → Value
  string : List ℕ → Value
  function : ℕ → Value

-- `lua_toboolean`: false and nil count as false, and anything else as true.
abbrev pub to_boolean : Value → Bool
to_boolean nil = false
to_boolean (boolean b) = b
to_boolean _ = true

abbrev pub is_nil : Value → Bool
is_nil nil = true
is_nil _ = false

-- The value at a place of the stack, if there is one.
abbrev pub index : List Value → ℕ → Option Value
index [] i = none
index (v ∷ vs) zero = some v
index (v ∷ vs) (suc i) = index vs i

-- `lua_isstring`, which a number is too; `decimal` writes it.
unfoldable pub text_of : (ℤ → List ℕ) → Option Value → Option (List ℕ)
text_of decimal (some (string s)) = some s
text_of decimal (some (integer n)) = some (decimal n)
text_of decimal _ = none

-- A string consists of bytes.
abbrev pub IsText : Value → Type 0
IsText (string s) = All (λ b. b < 256) s
IsText _ = Unit

-- A call that returns, neither with a Lua error nor with a fault, and with strings of bytes only.
abbrev pub Returns : Option (List Value) → Type 0
Returns o = (reply : List Value) × (o ≡ some reply) × All IsText reply
