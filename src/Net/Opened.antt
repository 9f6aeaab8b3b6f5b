-- ===== src/Net/Opened.antt =====
-- util-src/net.c: the functions that it hands to Lua.
use prosody_trunk.Base.{[], ◌∷◌}
use prosody_trunk.Base.Text.{bytes}
use prosody_trunk.Exports.{Table, Reg, new_table, setfuncs}

pub data NetFunction : Type 0 where
  lc_local_addresses lc_pton lc_ntop : NetFunction

pub exports : Reg NetFunction
exports =
    (bytes "local_addresses", lc_local_addresses)
    ∷ (bytes "pton", lc_pton)
    ∷ (bytes "ntop", lc_ntop)
    ∷ []

pub luaopen_util_net : Table NetFunction
luaopen_util_net = setfuncs exports new_table
