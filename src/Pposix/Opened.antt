-- ===== src/Pposix/Opened.antt =====
-- util-src/pposix.c: the functions that it hands to Lua. The symbol ENOENT is defined, as POSIX has it.
use prosody_trunk.Base.{Bool, [], ◌∷◌, ◌++◌, if◌then◌else◌}
use prosody_trunk.Base.Text.{bytes}
use prosody_trunk.Base.Int.{ℤ}
use prosody_trunk.Exports.{text, number, Table, Reg, new_table, setfield, setfuncs}

pub data PposixFunction : Type 0 where
  lc_abort lc_daemonize lc_syslog_open lc_syslog_close lc_syslog_log lc_syslog_setmask :
      PposixFunction
  lc_getpid lc_getuid lc_getgid lc_setuid lc_setgid lc_initgroups lc_umask lc_mkdir : PposixFunction
  lc_setrlimit lc_getrlimit lc_uname lc_setenv lc_meminfo lc_atomic_append : PposixFunction

-- The entry that is compiled in where the build defines WITH_MALLINFO.
pub with_mallinfo : Bool → Reg PposixFunction
with_mallinfo b = if b then (bytes "meminfo", lc_meminfo) ∷ [] else []

pub exports : Bool → Reg PposixFunction
exports mallinfo =
    ((bytes "abort", lc_abort)
      ∷ (bytes "daemonize", lc_daemonize)
      ∷ (bytes "syslog_open", lc_syslog_open)
      ∷ (bytes "syslog_close", lc_syslog_close)
      ∷ (bytes "syslog_log", lc_syslog_log)
      ∷ (bytes "syslog_setminlevel", lc_syslog_setmask)
      ∷ (bytes "getpid", lc_getpid)
      ∷ (bytes "getuid", lc_getuid)
      ∷ (bytes "getgid", lc_getgid)
      ∷ (bytes "setuid", lc_setuid)
      ∷ (bytes "setgid", lc_setgid)
      ∷ (bytes "initgroups", lc_initgroups)
      ∷ (bytes "umask", lc_umask)
      ∷ (bytes "mkdir", lc_mkdir)
      ∷ (bytes "setrlimit", lc_setrlimit)
      ∷ (bytes "getrlimit", lc_getrlimit)
      ∷ (bytes "uname", lc_uname)
      ∷ (bytes "setenv", lc_setenv)
      ∷ [])
    ++ with_mallinfo mallinfo
    ++ ((bytes "atomic_append", lc_atomic_append) ∷ [])

pub luaopen_util_pposix : Bool → ℤ → Table PposixFunction
luaopen_util_pposix mallinfo enoent =
    let t = setfuncs (exports mallinfo) new_table in
    let t = setfield t (bytes "ENOENT") (number enoent) in
    let t = setfield t (bytes "_NAME") (text (bytes "pposix")) in
    setfield t (bytes "_VERSION") (text (bytes "0.4.0"))
