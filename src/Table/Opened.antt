-- ===== src/Table/Opened.antt =====
-- util-src/table.c: the functions that it hands to Lua.
use prosody_trunk.Base.Text.{bytes}
use prosody_trunk.Exports.{function, new_table, setfield}
use prosody_trunk.Exports

pub data TableFunction : Type 0 where
  l_create_table l_pack : TableFunction

pub luaopen_util_table : Exports.Table TableFunction
luaopen_util_table =
    let t = setfield new_table (bytes "create") (function l_create_table) in
    setfield t (bytes "pack") (function l_pack)
