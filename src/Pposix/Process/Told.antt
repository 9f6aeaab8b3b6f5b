-- ===== src/Pposix/Process/Told.antt =====
-- util-src/pposix.c: what lc_daemonize tells its caller, and whether a daemon runs then.
use prosody_trunk.Base.{
  ℕ, ◌≡◌, refl, Bool, true, false, not, ◌&&◌, ◌||◌, ◌==◌, Option, none, some, List, [], ◌∷◌,
  if◌then◌else◌, Bool-cases, inl, inr,
}
use prosody_trunk.Lua.{nil, boolean, to_boolean}
use prosody_trunk.Pposix.Process.{
  Forks, Process, returned, refusal, final_processes, child_processes, fork_processes, lc_daemonize,
}

abbrev pub is_some {ℓ} : {A : Type ℓ} → Option A → Bool
is_some none = false
is_some (some a) = true

-- A daemon is a process that goes on with the values true and nil.
abbrev pub is_daemon : Process → Bool
is_daemon (returned (boolean true ∷ nil ∷ [])) = true
is_daemon _ = false

abbrev pub has_daemon : List Process → Bool
has_daemon [] = false
has_daemon (p ∷ ps) = is_daemon p || has_daemon ps

-- Whether the process that called is told of a success.
abbrev pub is_told : List Process → Bool
is_told (returned (v ∷ vs) ∷ ps) = to_boolean v
is_told _ = false

final-has_daemon : (o : Option ℕ) → has_daemon (final_processes o) ≡ is_some o
unfolding final_processes
final-has_daemon none = refl
final-has_daemon (some pid) = refl

-- A session is needed for the final `fork`.
session-has_daemon :
    (b : Bool) (o : Option ℕ) (reason : List ℕ)
    → has_daemon (if b then final_processes o else refusal reason ∷ []) ≡ (b && is_some o)
unfolding refusal
session-has_daemon true o reason = final-has_daemon o
session-has_daemon false o reason = refl

forked :
    (sys : Forks) (o : Option ℕ)
    → (is_told (fork_processes sys o) ≡ is_some o)
      × (has_daemon (fork_processes sys o) ≡ (is_some o && (sys.setsid && is_some sys.final_fork)))
unfolding fork_processes child_processes refusal
forked sys none = (refl, refl)
forked sys (some pid) = (refl, session-has_daemon sys.setsid sys.final_fork _)

-- The caller is told of a success exactly if its parent is not the process 1 and the first `fork`
-- succeeds; a daemon runs exactly if then `setsid` and the final `fork` succeed too, of which the
-- caller does not learn.
pub lc_daemonize-told :
    (sys : Forks)
    → (is_told (lc_daemonize sys) ≡ (not (sys.getppid == 1) && is_some sys.fork))
      × (has_daemon (lc_daemonize sys) ≡ (
          not (sys.getppid == 1) && (is_some sys.fork && (sys.setsid && is_some sys.final_fork))))
unfolding lc_daemonize refusal
lc_daemonize-told sys = elim (Bool-cases (sys.getppid == 1)) [
  | inl e ↦ rw e (refl, refl)
  | inr e ↦ rw e (forked sys sys.fork)
]
