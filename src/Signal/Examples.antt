-- ===== src/Signal/Examples.antt =====
-- The theorems where two signals wait, of which the first has a function.
use prosody_trunk.Base.{ℕ, ◌≤◌, ◌≡◌, refl, true, false, List, [], ◌∷◌, ◌++◌, length, arith}
use prosody_trunk.Base.{Option, some, none, ◌==◌, if◌then◌else◌}
use prosody_trunk.Base.Int.{ℤ, pos}
use prosody_trunk.Base.Text.{bytes, equal}
use prosody_trunk.Lua.{Value, nil, integer, function}
use prosody_trunk.Signal.{
  max_pending_signals, sighook, debug_hook, State, arrive, Outcome, returned, raised, Run,
  run_sighook, l_signal, number_of, signal_at, set_handler,
}
use prosody_trunk.Base.{Bool, Bool-cases, inl, inr, ◌&&◌, ◌||◌, get_or}
use prosody_trunk.Signal.{handle, arrived, signalled, happen, replied, outcome, same}
use prosody_trunk.Signal.Rounds.{Serves, Returns, run_sighook_lem, run_sighook_raised}
use prosody_trunk.Signal.Turns.{IsReady}
use prosody_trunk.Signal.Table.{IsFunction, IsValid}
use prosody_trunk.Signal.Machine.{Reach, fresh, later, calls, arrives, IsSound, Reach-IsSound}
use prosody_trunk.Signal.Machine.Delivered.{HasTurn, arrives-HasTurn}

abbrev start : State
start = record {
  signals = [];
  hook = debug_hook 3;
  stored = debug_hook 0;
  lua_signal = λ k. nil;
  handled = λ k. false;
}

abbrev waiting : State
waiting = record {
  signals = pos 1 ∷ pos 15 ∷ [];
  hook = sighook;
  stored = debug_hook 3;
  lua_signal = λ k. if same (pos 1) k then function 7 else function 8;
  handled = λ k. same k (pos 1) || same k (pos 15);
}

-- Every call returns, and the signal 15 arrives during the first one, if the process handles it.
abbrev quiet : ℕ → State → ℕ → Outcome
quiet = λ i st f. returned (if i == 0 && st.handled (pos 15) then arrived (pos 15) ∷ [] else [])

quiet-Returns : Returns quiet
quiet-Returns i st f r = elim (Bool-cases (st.handled (pos 15))) [
  | inl h ↦ elim (Bool-cases (i == 0)) [
    | inl z ↦ (arrived (pos 15) ∷ [], rw (z, h) refl, (h, tt))
    | inr z ↦ ([], rw z refl, tt)
  ]
  | inr h ↦ elim (Bool-cases (i == 0)) [
    | inl z ↦ ([], rw (z, h) refl, tt)
    | inr z ↦ ([], rw z refl, tt)
  ]
]

abbrev failing : ℕ → State → ℕ → Outcome
failing = λ i st f. raised []

one_of : (b : Bool) → IsFunction (if b then function 7 else function 8)
one_of true = (7, refl)
one_of false = (8, refl)

waiting-IsReady : IsReady waiting
unfolding same
waiting-IsReady = record {
  fits = omega arith;
  set = ((7, refl), ((8, refl), tt));
  valid = λ k h. one_of (same (pos 1) k);
}

run_sighook_lem_example :
    (fs : List Value) × (u : State) × Serves quiet 0 (record waiting { hook = debug_hook 3 }) fs u
    × ((more : List ℤ) × (u.signals ≡ waiting.signals ++ more))
    × (length fs ≡ length u.signals)
    × (length u.signals ≤ max_pending_signals)
    × (u.hook ≡ debug_hook 3)
    × IsReady u
    × (run_sighook quiet waiting
        ≡ some (record { called = fs; finished = true; state = record u { signals = [] } }))
run_sighook_lem_example = run_sighook_lem quiet quiet-Returns waiting waiting-IsReady

run_sighook_raised_example :
    (run : Run) × (run_sighook failing waiting ≡ some run)
    × (run.called ≡ function 7 ∷ [])
    × (run.finished ≡ false)
    × ((later : List ℤ) → (arrive run.state later).hook ≡ debug_hook 3)
unfolding outcome same
run_sighook_raised_example =
    run_sighook_raised failing waiting (pos 1) (pos 15 ∷ []) [] refl (omega arith) refl

abbrev no_names : List ℕ → Option ℤ
no_names = λ s. none

set_one :
    l_signal no_names (λ k. true) start (integer (pos 15) ∷ function 7 ∷ [])
    ≡ some (set_handler true start (pos 15) 7)
unfolding l_signal number_of signal_at
set_one = refl

start-IsValid : IsValid start
start-IsValid k e = cc e

-- Linux, as far as the signals go that the example uses.
abbrev linux : List ℕ → Option ℤ
linux = λ name. if equal name (bytes "SIGTERM") then some (pos 15) else none

-- A function is set for the signal 15 in a fresh module.
abbrev set_15 : State
set_15 = happen start (signalled no_names (λ k. true) (integer (pos 15) ∷ function 7 ∷ []))

set_15-Reach : Reach set_15
unfolding happen replied l_signal number_of signal_at set_handler
set_15-Reach =
    later (fresh (record { signals = refl; hook = (3, refl); handled = λ k. refl }))
      (calls no_names (λ k. true) (integer (pos 15) ∷ function 7 ∷ []) tt)

Reach-IsSound_example : IsSound (handle set_15 (pos 15))
unfolding happen replied l_signal number_of signal_at set_handler same
Reach-IsSound_example = Reach-IsSound (later set_15-Reach (arrives (pos 15) refl))

arrives-HasTurn_example :
    ((handle set_15 (pos 15)).hook ≡ sighook)
    × ((run : Run) × (f : ℕ) × (run_sighook quiet (handle set_15 (pos 15)) ≡ some run)
        × (run.finished ≡ true)
        × (get_or run.called 0 nil ≡ function f)
        × HasTurn quiet 0 (pos 15) f
        × (run.state.signals ≡ [])
        × ((n : ℕ) × (run.state.hook ≡ debug_hook n)))
unfolding happen replied l_signal number_of signal_at set_handler same
arrives-HasTurn_example =
    arrives-HasTurn set_15 (pos 15) quiet set_15-Reach refl (omega arith) quiet-Returns
