-- ===== src/Compat/Opened.antt =====
-- util-src/compat.c: luaopen_util_compat.
use prosody_trunk.Base.Text.{bytes}
use prosody_trunk.Exports.{function, Table, new_table, setfield}

pub data CompatFunction : Type 0 where
  xpcall : CompatFunction

pub luaopen_util_compat : Table CompatFunction
luaopen_util_compat = setfield new_table (bytes "xpcall") (function xpcall)
