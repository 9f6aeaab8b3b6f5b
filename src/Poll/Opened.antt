-- ===== src/Poll/Opened.antt =====
-- util-src/poll.c: luaopen_util_poll, for both builds.
use prosody_trunk.Base.{ℕ, Bool, List, [], ◌∷◌, ◌++◌, if◌then◌else◌}
use prosody_trunk.Base.Int.{ℤ}
use prosody_trunk.Base.Text.{bytes}
use prosody_trunk.Lua.{Value, string}
use prosody_trunk.Exports.{function, text, number, Table, new_table, setfield}

pub data PollFunction : Type 0 where
  l_add l_set l_del l_wait l_getfd l_gc l_new l_tos : PollFunction

-- STATE_MT
pub state_mt : Bool → List ℕ
state_mt use_epoll = if use_epoll then bytes "util.poll<epoll>" else bytes "util.poll<select>"

-- `tostring`, with the text of the address as an argument.
pub ltos : Bool → List ℕ → List Value
ltos use_epoll pointer = string (state_mt use_epoll ++ bytes ": " ++ pointer) ∷ []

-- The metatable of the watch lists, with the table in its field "__index".
pub record Metatable : Type 0 where
  pub fields : Table PollFunction
  pub index : Table PollFunction

-- A field that only the build with USE_EPOLL sets.
pub with_epoll : Bool → Table PollFunction → List ℕ → PollFunction → Table PollFunction
with_epoll use_epoll t name f = if use_epoll then setfield t name (function f) else t

pub methods : Bool → Table PollFunction
methods use_epoll =
    let t = setfield new_table (bytes "add") (function l_add) in
    let t = setfield t (bytes "set") (function l_set) in
    let t = setfield t (bytes "del") (function l_del) in
    let t = setfield t (bytes "wait") (function l_wait) in
    with_epoll use_epoll t (bytes "getfd") l_getfd

pub metatable : Bool → Metatable
metatable use_epoll =
    let t = setfield new_table (bytes "__name") (text (state_mt use_epoll)) in
    let t = setfield t (bytes "__tostring") (function l_tos) in
    record { fields = with_epoll use_epoll t (bytes "__gc") l_gc; index = methods use_epoll }

-- The metatable, which is filled whether the registry had it or not, and the module.
pub luaopen_util_poll : Bool → ℤ → ℤ → Metatable × Table PollFunction
luaopen_util_poll use_epoll eexist enoent =
    let t = setfield new_table (bytes "new") (function l_new) in
    let t = setfield t (bytes "EEXIST") (number eexist) in
    (metatable use_epoll, setfield t (bytes "ENOENT") (number enoent))
