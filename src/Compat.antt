-- ===== src/Compat.antt =====
-- util-src/compat.c: lc_xpcall, which orders the stack of Lua for `lua_pcall`, a parameter.
pub mod Called
pub mod Opened
use prosody_trunk.Base.{
  ℕ, ◌+◌, ◌-◌, Bool, true, false, Option, none, some, List, [], ◌∷◌, ◌++◌, length, get_or, set,
  drop, ltb, if◌then◌else◌,
}
use prosody_trunk.Lua.{Value, nil, boolean}

-- A stack is the list of its values, the one at index 1 first.
abbrev pub Stack : Type 0
Stack = List Value

pub but_last : Stack → Stack
but_last [] = []
but_last (v ∷ []) = []
but_last (v ∷ w ∷ vs) = v ∷ but_last (w ∷ vs)

-- `lua_pushvalue` and `lua_replace` with an index above zero.
pub pushvalue : Stack → ℕ → Stack
pushvalue stack i = stack ++ (get_or stack (i - 1) nil ∷ [])

pub replace : Stack → ℕ → Stack
replace stack i = set (but_last stack) (i - 1) (get_or stack (length stack - 1) nil)

-- `lua_pcall` with the handler at index 1: it takes `n_arg` values and the function below them off
-- the stack, and leaves the results, or the message that the handler made of the error. What the
-- function and the handler do is a parameter: whether there was no error, and those values.
module _ (call : Value → Value → List Value → Bool × List Value) where
  pub called : Stack → Value → Bool × List Value → Bool × Stack
  called stack msgh (ok, values) = (ok, msgh ∷ values)

  pub pcall : Stack → ℕ → Bool × Stack
  pcall stack n_arg =
      let at = length stack - n_arg - 1 in
      let msgh = get_or stack 0 nil in
      called stack msgh (call msgh (get_or stack at nil) (drop (at + 1) stack))

  -- `none` is the error of `luaL_argcheck`.
  pub returns : Bool × Stack → Stack
  returns (ok, stack) = replace (stack ++ (boolean ok ∷ [])) 1

  pub lc_xpcall : Stack → Option Stack
  lc_xpcall stack =
      let f_top = pushvalue stack 1 in
      let msgh_top = pushvalue f_top 2 in
      let msgh_first = replace msgh_top 1 in
      let f_second = replace msgh_first 2 in
      if ltb (length stack) 2 then none else some (returns (pcall f_second (length stack - 2)))
