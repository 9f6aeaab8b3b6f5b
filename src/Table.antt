-- ===== src/Table.antt =====
-- util-src/table.c: Lpack, which sets the fields of a table from the stack.
pub mod Packed
pub mod Opened
use prosody_trunk.Base.{ℕ, suc, List, ◌∷◌, length, reverse, ◌==◌, if◌then◌else◌}
use prosody_trunk.Lua.{Value, nil}

-- The values at the numbers of a table, and its field "n".
pub record Table : Type 0 where
  pub at : ℕ → Value
  pub n : ℕ

-- `lua_rawseti`
pub rawseti : (ℕ → Value) → ℕ → Value → ℕ → Value
rawseti t i v j = if i == j then v else t j

-- The rounds of the loop for the values of `arg` down to 1; the list is the stack above the table, its
-- top first.
pub pack_loop : ℕ → List Value → (ℕ → Value) → ℕ → Value
pack_loop (suc arg) (v ∷ stack) t = pack_loop arg stack (rawseti t (suc arg) v)
pack_loop _ _ t = t

pub lpack : List Value → Table
lpack args = record { at = pack_loop (length args) (reverse args) (λ i. nil); n = length args }
