-- ===== src/Windows/Opened.antt =====
-- util-src/windows.c: the functions that it hands to Lua.
use prosody_trunk.Base.{[], ◌∷◌}
use prosody_trunk.Base.Text.{bytes}
use prosody_trunk.Exports.{text, Table, Reg, new_table, setfield, setfuncs}

pub data WindowsFunction : Type 0 where
  l_get_nameservers l_get_consolecolor l_set_consolecolor : WindowsFunction

pub reg : Reg WindowsFunction
reg =
    (bytes "get_nameservers", l_get_nameservers)
    ∷ (bytes "get_consolecolor", l_get_consolecolor)
    ∷ (bytes "set_consolecolor", l_set_consolecolor)
    ∷ []

pub luaopen_util_windows : Table WindowsFunction
luaopen_util_windows = setfield (setfuncs reg new_table) (bytes "version") (text (bytes "-3.14"))
