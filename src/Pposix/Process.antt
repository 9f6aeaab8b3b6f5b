-- ===== src/Pposix/Process.antt =====
-- util-src/pposix.c: lc_daemonize, which forks, and the small calls of the system: lc_getpid,
-- lc_getuid, lc_getgid, lc_uname, lc_setenv and lc_meminfo. What the system answers is an argument.
pub mod Told
use prosody_trunk.Base.{
  ℕ, Bool, true, false, Option, none, some, List, [], ◌∷◌, ◌++◌, ◌==◌, if◌then◌else◌, ◌⊎◌, inl, inr,
}
use prosody_trunk.Base.Int.{ℤ, pos}
use prosody_trunk.Base.Text.{bytes}
use prosody_trunk.Lua.{Value, nil, boolean, integer, string}

-- The id of the parent, both calls of `fork` (none where it fails, or the id of the new process) and
-- whether `setsid` succeeds.
pub record Forks : Type 0 where
  pub getppid : ℕ
  pub fork : Option ℕ
  pub setsid : Bool
  pub final_fork : Option ℕ

-- What becomes of a process that runs the function: it returns values to Lua, or it exits.
pub data Process : Type 0 where
  returned : List Value → Process
  exited : Process

pub refusal : List ℕ → Process
refusal reason = returned (boolean false ∷ string reason ∷ [])

-- A failed `fork` returns -1, which the test takes for the parent too.
pub final_processes : Option ℕ → List Process
final_processes none = exited ∷ []
final_processes (some pid) = exited ∷ returned (boolean true ∷ nil ∷ []) ∷ []

pub child_processes : Forks → List Process
child_processes sys =
    if sys.setsid then final_processes sys.final_fork else refusal (bytes "setsid-failed") ∷ []

pub fork_processes : Forks → Option ℕ → List Process
fork_processes sys none = refusal (bytes "fork-failed") ∷ []
fork_processes sys (some pid) =
    returned (boolean true ∷ integer (pos pid) ∷ []) ∷ child_processes sys

-- The process that called and those that it forked, in the order in which they came to be. That the
-- child opens its standard streams anew is left out.
pub lc_daemonize : Forks → List Process
lc_daemonize sys =
    if sys.getppid == 1
    then refusal (bytes "already-daemonized") ∷ []
    else fork_processes sys sys.fork

pub lc_getpid : ℕ → List Value
lc_getpid getpid = integer (pos getpid) ∷ []

pub lc_getuid : ℕ → List Value
lc_getuid getuid = integer (pos getuid) ∷ []

pub lc_getgid : ℕ → List Value
lc_getgid getgid = integer (pos getgid) ∷ []

-- A table for Lua is its fields, in the order in which they were set.
abbrev pub Fields : Type 0
Fields = List (List ℕ × Value)

-- `struct utsname`: the domain name is a member on systems with the GNU C library alone.
pub record Utsname : Type 0 where
  pub sysname : List ℕ
  pub nodename : List ℕ
  pub release : List ℕ
  pub version : List ℕ
  pub machine : List ℕ
  pub domainname : Option (List ℕ)

pub domain_field : Option (List ℕ) → Fields
domain_field none = []
domain_field (some name) = (bytes "domainname", string name) ∷ []

-- The table, or the text of the errno beside nil.
pub lc_uname : (ℕ → List ℕ) → Utsname ⊎ ℕ → Fields ⊎ List Value
lc_uname strerror (inl info) = inl (
    ((bytes "sysname", string info.sysname)
      ∷ (bytes "nodename", string info.nodename)
      ∷ (bytes "release", string info.release)
      ∷ (bytes "version", string info.version)
      ∷ (bytes "machine", string info.machine)
      ∷ [])
    ++ domain_field info.domainname)
lc_uname strerror (inr errno) = inr (nil ∷ string (strerror errno) ∷ [])

-- `struct mallinfo`, as far as it is read.
pub record Mallinfo : Type 0 where
  pub arena : ℤ
  pub hblkhd : ℤ
  pub uordblks : ℤ
  pub fordblks : ℤ
  pub keepcost : ℤ

pub lc_meminfo : Mallinfo → Fields
lc_meminfo info =
    (bytes "allocated", integer info.arena)
    ∷ (bytes "allocated_mmap", integer info.hblkhd)
    ∷ (bytes "used", integer info.uordblks)
    ∷ (bytes "unused", integer info.fordblks)
    ∷ (bytes "returnable", integer info.keepcost)
    ∷ []

-- The environment: `setenv` with a value and `unsetenv` return the errno where they fail.
pub record Environment : Type 1 where
  pub World : Type 0
  pub setenv : World → List ℕ → List ℕ → Option ℕ × World
  pub unsetenv : World → List ℕ → Option ℕ × World
  pub strerror : ℕ → List ℕ

module _ (sys : Environment) where
  pub done : Option ℕ → List Value
  done none = boolean true ∷ []
  done (some errno) = nil ∷ string (sys.strerror errno) ∷ []

  pub finished : Option ℕ × sys.World → List Value × sys.World
  finished (ret, w) = (done ret, w)

  -- A value that is nil, or no value, unsets the variable.
  pub lc_setenv : sys.World → List ℕ → Option (List ℕ) → List Value × sys.World
  lc_setenv w var none = finished (sys.unsetenv w var)
  lc_setenv w var (some value) = finished (sys.setenv w var value)
