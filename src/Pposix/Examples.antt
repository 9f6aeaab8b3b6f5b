-- ===== src/Pposix/Examples.antt =====
-- The theorems on small systems: one user, one table of limits, a file that is its bytes, one mask.
use prosody_trunk.Base.{
  ℕ, ◌+◌, Option, ◌≡◌, refl, true, false, none, some, List, [], ◌∷◌, ◌++◌, ◌%◌, ◌^◌, ◌-◌, ◌<◌, Bool,
  length, take, ◌==◌, if◌then◌else◌,
}
use prosody_trunk.Base.{arith}
use mathlib.Core.Path.{subst}
use prosody_trunk.Base.Int.{ℤ, pos, negsuc}
use prosody_trunk.Base.Text.{bytes}
use prosody_trunk.Lua.{string}
use prosody_trunk.Pposix.Ids
use prosody_trunk.Pposix.Ids.Switch.{HasIds, uid_of, is_true, switched, lc_setuid_lem}
use prosody_trunk.Pposix.Limits.{Limits}
use prosody_trunk.Pposix.Syslog.{State}
use prosody_trunk.Pposix.Syslog.Memory.{
  Op, open_log, log, close_log, run, log_run, nothing, Represents, syslog_refines,
}
use prosody_trunk.Pposix.Append.{System}
use prosody_trunk.Pposix.Append.Atomic.{Atomic}
use prosody_trunk.Pposix.Process.{Forks, lc_daemonize}
use prosody_trunk.Pposix.Process.Told.{is_told, has_daemon, lc_daemonize-told}
use prosody_trunk.Pposix.Modes
use prosody_trunk.Pposix.Modes.{strtoul8, lc_umask}
use prosody_trunk.Pposix.Modes.Restored.{HasUmask, lc_umask-restored}

abbrev one_user : Ids.System
one_user = record {
  tonumber = λ s. none;
  getpwnam = λ s. if length s == 4 then some (1000, 100) else none;
  getgrnam = λ s. none;
  setuid = λ n. if n == 1000 then none else some 1;
  setgid = λ n. none;
  initgroups = λ s n. none;
}

one_user-HasIds : HasIds one_user
one_user-HasIds s p e = ids (length s == 4) e
  where
    ids : (b : Bool) → (if b then some (1000, 100) else none) ≡ some p → p.0 < 2 ^ 32
    ids true e = let q : (1000, 100) ≡ p = cc e in subst (λ x. x.0 < 2 ^ 32) q (omega arith)
    ids false e = cc e

lc_setuid_lem_example :
    is_true (Ids.lc_setuid one_user (string (bytes "anne") ∷ []))
    ≡ switched one_user (uid_of one_user (string (bytes "anne")))
lc_setuid_lem_example = lc_setuid_lem one_user one_user-HasIds (string (bytes "anne")) []

-- Two limits for all resources.
abbrev one_limit : Limits
one_limit = record { World = ℕ × ℕ; getrlimit = λ w r. some w; setrlimit = λ w r l. some l }

-- A disk that holds four bytes: the file, and the position of its handle. A write at the end that
-- does not fit is cut short, and one elsewhere does nothing.
abbrev room : ℕ
room = 4

abbrev Disk : Type 0
Disk = List ℕ × ℤ

is_at : ℕ → ℤ → Bool
is_at n (pos o) = o == n
is_at n (negsuc o) = false

taken : Disk → List ℕ → ℕ × Disk
taken (c, p) s =
    let t = take (room - length c) s in
    if is_at (length c) p then (length t, (c ++ t, pos (length c + length t))) else (0, (c, p))

cut_to : Disk → ℤ → Option ℕ × Disk
cut_to (c, p) (pos n) = (none, (take n c, p))
cut_to (c, p) (negsuc n) = (some 22, (c, p))

abbrev disk : System
disk = record {
  World = Disk;
  content = λ w. w.0;
  ftell = λ w. w.1;
  fallocate = λ w o n. (some (negsuc 0, 95), w);
  fwrite = taken;
  fflush = λ w. (none, w);
  ferror = λ w. 1;
  fseek = λ w o. (w.0, o);
  ftruncate = cut_to;
  strerror = λ e. [];
}

-- The log of "prosody" is opened twice, the second time where there is no memory, and closed.
abbrev fresh : State
fresh = record { syslog_ident = none; heap = λ q. none; held = none; facility = 8 }

abbrev session : List Op
session =
    open_log (bytes "prosody") (bytes "mail") (some 64)
    ∷ log (bytes "warn") (bytes "core") (some (bytes "started"))
    ∷ open_log (bytes "prosody") (bytes "daemon") none
    ∷ log (bytes "none") (bytes "core") none
    ∷ close_log
    ∷ []

syslog_refines_example :
    (st : State) × (run fresh session ≡ some ((log_run (none, 8) session).0, st))
    × Represents st (log_run (none, 8) session).1
syslog_refines_example =
    syslog_refines fresh (none, 8) session
      (record { block = nothing (λ q. refl); held = refl; facility = refl })

-- The world is the mask.
abbrev one_mask : Modes.System
one_mask = record {
  World = ℕ;
  umask = λ w m. (w % 512, m % 512);
  mkdir = λ w path mode. (none, w);
  strerror = λ e. [];
}

one_mask-HasUmask : HasUmask one_mask
one_mask-HasUmask = record {
  mask = λ w. w % 512;
  is_permission = λ w. omega arith;
  returned = λ w m. refl;
  changed = λ w m. omega arith;
}

lc_umask-restored_example :
    (one_mask-HasUmask.mask (lc_umask one_mask 23 (lc_umask one_mask 18 (bytes "027")).0).1
      ≡ one_mask-HasUmask.mask 18)
    × (strtoul8 (lc_umask one_mask 23 (lc_umask one_mask 18 (bytes "027")).0).0 % 2 ^ 32 % 512
        ≡ one_mask-HasUmask.mask 23)
lc_umask-restored_example = lc_umask-restored one_mask one_mask-HasUmask 18 23 (bytes "027")

-- The final `fork` fails: the caller is told of a success, and there is no daemon.
abbrev unlucky : Forks
unlucky = record { getppid = 700; fork = some 701; setsid = true; final_fork = none }

lc_daemonize-told_example :
    (is_told (lc_daemonize unlucky) ≡ true) × (has_daemon (lc_daemonize unlucky) ≡ false)
lc_daemonize-told_example = lc_daemonize-told unlucky
