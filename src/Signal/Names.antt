-- ===== src/Signal/Names.antt =====
-- util-src/signal.c: `lua_signals` and the loop of luaopen_util_signal that enters it in the registry.
pub mod Entered
use prosody_trunk.Base.{
  ℕ, Bool, true, false, ◌&&◌, ◌==◌, Option, none, some, List, [], ◌∷◌, if◌then◌else◌,
}
use prosody_trunk.Base.Int.{ℤ}
use prosody_trunk.Exports
use prosody_trunk.Exports.{number, new_table, setfuncs}
use prosody_trunk.Signal.Opened.{SignalFunction, lsignal_lib}
use prosody_trunk.Base.Text.{bytes, equal}

-- The names in the order of the array. Those for which the platform has no number are left out there.
pub signal_names : List (List ℕ)
signal_names =
    bytes "SIGABRT"
    ∷ bytes "SIGFPE"
    ∷ bytes "SIGILL"
    ∷ bytes "SIGINT"
    ∷ bytes "SIGSEGV"
    ∷ bytes "SIGTERM"
    ∷ bytes "SIGHUP"
    ∷ bytes "SIGQUIT"
    ∷ bytes "SIGTRAP"
    ∷ bytes "SIGKILL"
    ∷ bytes "SIGUSR1"
    ∷ bytes "SIGUSR2"
    ∷ bytes "SIGPIPE"
    ∷ bytes "SIGALRM"
    ∷ bytes "SIGCHLD"
    ∷ bytes "SIGCONT"
    ∷ bytes "SIGSTOP"
    ∷ bytes "SIGTTIN"
    ∷ bytes "SIGTTOU"
    ∷ bytes "SIGIOT"
    ∷ bytes "SIGBUS"
    ∷ bytes "SIGCLD"
    ∷ bytes "SIGURG"
    ∷ bytes "SIGXCPU"
    ∷ bytes "SIGXFSZ"
    ∷ bytes "SIGVTALRM"
    ∷ bytes "SIGPROF"
    ∷ bytes "SIGWINCH"
    ∷ bytes "SIGPOLL"
    ∷ bytes "SIGIO"
    ∷ bytes "SIGSTKFLT"
    ∷ bytes "SIGSYS"
    ∷ []

-- `struct lua_signal`, and the array for a platform that gives some of the names a number.
abbrev pub LuaSignal : Type 0
LuaSignal = List ℕ × ℤ

-- The array without the entries that the platform has no number for.
pub entry : List ℕ → Option ℤ → List LuaSignal → List LuaSignal
entry name none rest = rest
entry name (some sig) rest = (name, sig) ∷ rest

pub lua_signals : (List ℕ → Option ℤ) → List (List ℕ) → List LuaSignal
lua_signals platform [] = []
lua_signals platform (name ∷ names) = entry name (platform name) (lua_signals platform names)

-- A Lua table with strings for keys, and `lua_settable`.
pub settable : {V : Type 0} → (List ℕ → V) → List ℕ → V → List ℕ → V
settable t name v key = if equal name key then v else t key

-- The table of the registry, which `number_of` reads, and that of the module.
abbrev pub Tables : Type 0
Tables = (List ℕ → Option ℤ) × Exports.Table SignalFunction

-- The loop over the array, which enters it in both.
pub fill : List LuaSignal → Tables → Tables
fill [] tables = tables
fill ((name, sig) ∷ rest) (registry, library) =
    fill rest (settable registry name (some sig), settable library name (number sig))

-- The table of the module has the functions before the loop.
pub luaopen_util_signal : Bool → (List ℕ → Option ℤ) → Tables
luaopen_util_signal unix platform =
    fill (lua_signals platform signal_names) ((λ key. none), setfuncs (lsignal_lib unix) new_table)
