-- ===== src/Exports.antt =====
-- The tables that the luaopen functions of util-src/ hand to Lua: their fields, and `luaL_setfuncs`,
-- which enters an array of functions in a table. The tables are in the modules named Opened; Setfuncs,
-- below this module, proves how an array is entered.
pub mod Setfuncs
use prosody_trunk.Base.{ℕ, List, [], ◌∷◌, if◌then◌else◌}
use prosody_trunk.Base.Int.{ℤ}
use prosody_trunk.Base.Text.{equal}

-- What a field holds; `function` is over the functions of the module.
pub data Field {ℓ} (F : Type ℓ) : Type ℓ where
  absent : Field F
  function : F → Field F
  text : List ℕ → Field F
  number : ℤ → Field F

-- A table with strings for keys.
abbrev pub Table {ℓ} : Type ℓ → Type ℓ
Table F = List ℕ → Field F

-- A `luaL_Reg` array, up to the entry with the null pointer.
abbrev pub Reg {ℓ} : Type ℓ → Type ℓ
Reg F = List (List ℕ × F)

module _ {ℓ} {F : Type ℓ} where
  -- `lua_newtable` and `lua_createtable`
  abbrev pub new_table : Table F
  new_table = λ key. absent

  abbrev pub setfield : Table F → List ℕ → Field F → Table F
  setfield t name v key = if equal name key then v else t key

  abbrev pub setfuncs : Reg F → Table F → Table F
  setfuncs [] t = t
  setfuncs ((name, f) ∷ exports) t = setfuncs exports (setfield t name (function f))
