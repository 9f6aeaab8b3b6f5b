-- ===== src/Signal/Machine.antt =====
-- A program that catches signals as a state machine: signals arrive, Lua code calls `l_signal` and
-- installs debug hooks, and the hook runs. util-src/signal.c: handle, sighook, l_signal.
pub mod Delivered
use prosody_trunk.Base.{Bool}
use prosody_trunk.Base.{
  ℕ, zero, suc, ◌+◌, ◌≤◌, ◌<◌, ◌≡◌, ◌≢◌, ◌⊎◌, inl, inr, refl, sym, ap, ◌∙◌, true, false, Option,
  some, none, get_or, ltb, List, [], ◌∷◌, ◌++◌, All, length, length-append, arith,
}
use prosody_trunk.Base.Int.{ℤ}
use mathlib.Core.Path.{subst}
use prosody_trunk.Lua.{Value, nil, function}
use prosody_trunk.Signal.{
  max_pending_signals, Hook, sighook, debug_hook, State, hooked, handle, Event, signalled, happen,
  happens, Outcome, returned, Run, nth, run_sighook, replied, l_signal,
}
use prosody_trunk.Signal.Queue.{Grows, Grows-length, handle-Grows}
use prosody_trunk.Signal.Table.{IsFunction, IsValid, Untouched, l_signal-Untouched, replied-IsValid}
use prosody_trunk.Signal.Turns.{
  Spares, happen-AllSet, IsReady, handle-AllSet, handle-IsValid, handle-signals, happens-Grows,
  nth-none, nth-some, nth-append,
}
use prosody_trunk.Signal.Rounds.{Serves, nothing, turn, Returns, run_sighook_lem}

-- The steps. A signal that the process does not handle does not reach the module, the functions that
-- the hook runs return, no call of `l_signal` takes the function of a signal in the queue away, and the
-- debug hook is the program's to set while nothing is pending.
pub data Step : State → State → Type 0 where
  arrives : {st : State} (sig : ℤ) → st.handled sig ≡ true → Step st (handle st sig)
  calls :
      {st : State} (lua_signals : List ℕ → Option ℤ) (accepts : ℤ → Bool) (args : List Value)
      → Spares st lua_signals accepts args
      → Step st (happen st (signalled lua_signals accepts args))
  hooks : {st : State} (n : ℕ) → st.signals ≡ [] → Step st (record st { hook = debug_hook n })
  runs :
      {st : State} {run : Run} (call : ℕ → State → ℕ → Outcome)
      → Returns call
      → st.hook ≡ sighook
      → run_sighook call st ≡ some run
      → Step st run.state

-- The module when it has been loaded.
pub record IsFresh (st : State) : Type 0 where
  pub signals : st.signals ≡ []
  pub hook : (n : ℕ) × (st.hook ≡ debug_hook n)
  pub handled : (k : ℤ) → st.handled k ≡ false

pub data Reach : State → Type 0 where
  fresh : {st : State} → IsFresh st → Reach st
  later : {st st' : State} → Reach st → Step st st' → Reach st'

-- Nothing is pending and the hook is the program's, or this module's is installed and the program's is
-- stored.
abbrev pub IsIdle : State → Type 0
IsIdle st = (st.signals ≡ []) × ((n : ℕ) × (st.hook ≡ debug_hook n))

abbrev pub IsBusy : State → Type 0
IsBusy st = (0 < length st.signals) × (st.hook ≡ sighook) × ((n : ℕ) × (st.stored ≡ debug_hook n))

pub record IsSound (st : State) : Type 0 where
  pub ready : IsReady st
  pub hooks : IsIdle st ⊎ IsBusy st

IsFresh-IsSound : {st : State} → IsFresh st → IsSound st
IsFresh-IsSound {st} f = record {
  ready = record {
    fits = let e = ap length f.signals in omega arith;
    set = subst (All (λ k. IsFunction (st.lua_signal k))) (sym f.signals) tt;
    valid = λ k h. cc (f.handled k);
  };
  hooks = inl (f.signals, f.hook);
}

-- A signal that arrives while nothing is pending.
first_signal :
    (st : State) (sig : ℤ)
    → st.signals ≡ []
    → handle st sig ≡ record st { stored = st.hook; hook = sighook; signals = sig ∷ [] }
unfolding handle hooked
first_signal st sig e = simp e refl

arrives-IsBusy :
    (st : State) (sig : ℤ)
    → length st.signals ≤ max_pending_signals
    → IsIdle st ⊎ IsBusy st
    → IsBusy (handle st sig)
arrives-IsBusy st sig b (inl (e, own)) =
    subst IsBusy (sym (first_signal st sig e)) (omega arith, refl, own)
arrives-IsBusy st sig b (inr (p, h, own)) =
    let g = handle-Grows st sig p b in
    let l = Grows-length g in (omega arith, g.hook ∙ h, (own.0, g.stored ∙ own.1))

arrives-fits :
    (st : State) (sig : ℤ)
    → length st.signals ≤ max_pending_signals
    → length (handle st sig).signals ≤ max_pending_signals
unfolding handle hooked
arrives-fits st sig b = ground (arith, length-append st.signals (sig ∷ []))

-- A run leaves nothing pending and the program's hook installed.
run-IsSound :
    (st : State) (call : ℕ → State → ℕ → Outcome) (run : Run)
    → Returns call
    → IsReady st
    → (n : ℕ) × (st.stored ≡ debug_hook n)
    → run_sighook call st ≡ some run
    → IsSound run.state
run-IsSound st call run r ready (n, own) e =
    let (fs, u, s, more, l, fits, h, ready', q) = run_sighook_lem call r st ready in
    let same : record u { signals = [] } ≡ run.state =
      ap (λ o. elim o [ none ↦ st | some r ↦ r.state ]) (sym q ∙ e) in
    subst IsSound same (record {
      ready = record { fits = omega arith; set = tt; valid = ready'.valid };
      hooks = inl (refl, (n, h ∙ own));
    })

moved : (st st' : State) → IsIdle st ⊎ IsBusy st → Untouched st st' → IsIdle st' ⊎ IsBusy st'
moved st st' (inl (e, (n, own))) u = inl (u.signals ∙ e, (n, u.hook ∙ own))
moved st st' (inr (p, h, (n, own))) u =
    let l = ap length u.signals in inr (omega arith, u.hook ∙ h, (n, u.stored ∙ own))

own_stored :
    (st : State) → IsIdle st ⊎ IsBusy st → st.hook ≡ sighook → (n : ℕ) × (st.stored ≡ debug_hook n)
own_stored st (inl (e, (n, own))) h = cc (sym own ∙ h)
own_stored st (inr (p, q, own)) h = own

Step-IsSound : {st st' : State} → Step st st' → IsSound st → IsSound st'
Step-IsSound {st} (arrives sig h) s = record {
  ready = record {
    fits = arrives-fits st sig s.ready.fits;
    set = handle-AllSet st sig s.ready.set (s.ready.valid sig h);
    valid = handle-IsValid st sig s.ready.valid;
  };
  hooks = inr (arrives-IsBusy st sig s.ready.fits s.hooks);
}
Step-IsSound {st} (calls lua_signals accepts args a) s =
    called (l_signal-Untouched lua_signals accepts st args)
      (replied-IsValid lua_signals accepts st args s.ready.valid)
  where
    called :
        Untouched st (replied st (l_signal lua_signals accepts st args))
        → IsValid (replied st (l_signal lua_signals accepts st args))
        → IsSound (happen st (signalled lua_signals accepts args))
    called u v = record {
      ready = record {
        fits =
            unfold happen in
            subst (λ x. length x ≤ max_pending_signals) (sym u.signals) s.ready.fits;
        set = happen-AllSet lua_signals accepts st args s.ready.set a;
        valid = unfold happen in v;
      };
      hooks = unfold happen in moved st _ s.hooks u;
    }
Step-IsSound {st} (hooks n e) s = record {
  ready = record { fits = s.ready.fits; set = s.ready.set; valid = s.ready.valid };
  hooks = inl (e, (n, refl));
}
Step-IsSound {st} (runs {run} call r h e) s =
    run-IsSound st call run r s.ready (own_stored st s.hooks h) e

-- The steps are: a signal that the process handles arrives; `l_signal` is called, but not to take the
-- function of a signal in the queue away; the program sets its debug hook while nothing is pending; and
-- the hook runs, where every function that it calls returns, only signals that the process handles
-- arrive, and no function is taken away from a signal in the queue. In every state that these steps
-- reach from a fresh module at most 32 signals are pending, each of them and each that the
-- process handles has a function, and the hooks are in order: with nothing pending the program's is
-- installed, and otherwise this module's, with the program's stored.
pub Reach-IsSound : {st : State} → Reach st → IsSound st
Reach-IsSound (fresh f) = IsFresh-IsSound f
Reach-IsSound (later r s) = Step-IsSound s (Reach-IsSound r)
