-- ===== src/Signal/Rounds.antt =====
-- `sighook`: a run of the hook, where every function that it calls returns, and where one raises an
-- error.
use prosody_trunk.Base.{
  ℕ, zero, suc, ◌+◌, ◌≤◌, ◌<◌, ◌≡◌, refl, true, false, Option, none, some, arith,
}
use prosody_trunk.Base.{List, [], ◌∷◌, ◌++◌, length, ap, sym, ◌∙◌, inl, inr, Option-cases}
use prosody_trunk.Base.Int.{ℤ}
use mathlib.Core.Path.{subst}
use prosody_trunk.Lua.{Value, function}
use prosody_trunk.Signal.{
  max_pending_signals, State, arrive, Event, happens, Outcome, returned, raised, Run, calling, nth,
  outcome, served, round, sighook_loop, run_sighook,
}
use prosody_trunk.Signal.Queue.{Grows, Grows-refl, Grows-trans, Grows-length, arrive-Grows}
use prosody_trunk.Signal.Table.{IsFunction}
use prosody_trunk.Signal.Turns.{
  IsReady, AllAllowed, happens-IsReady, happens-Grows, nth-none, nth-some, All-nth,
}

-- The turns from the i-th one on: the functions that are called, and the state after the last one.
pub data Serves (call : ℕ → State → ℕ → Outcome) : ℕ → State → List Value → State → Type 0 where
  nothing : {i : ℕ} {st : State} → nth st.signals i ≡ none → Serves call i st [] st
  turn :
      {i f : ℕ} {st u : State} {sig : ℤ} {es : List Event} {fs : List Value}
      → nth st.signals i ≡ some sig
      → st.lua_signal sig ≡ function f
      → call i st f ≡ returned es
      → Serves call (suc i) (happens st es) fs u
      → Serves call i st (function f ∷ fs) u

module _ (call : ℕ → State → ℕ → Outcome) where
  -- In a state that is ready every call returns, and what happens during it is allowed.
  abbrev pub Returns : Type 0
  Returns =
      (i : ℕ) (st : State) (f : ℕ)
      → IsReady st
      → (es : List Event) × (call i st f ≡ returned es) × AllAllowed st es

  -- The end of a run that called these functions.
  abbrev ended : List Value → State → Option Run
  ended fs u = some (record { called = fs; finished = true; state = record u { signals = [] } })

  abbrev Served : ℕ → State → Option Run → Type 0
  Served i st result =
      (fs : List Value) × (u : State) × Serves call i st fs u
      × Grows st u
      × IsReady u
      × (i + length fs ≡ length u.signals)
      × (result ≡ ended fs u)

  round-next :
      (fuel i f : ℕ) (st : State) (sig : ℤ) (es : List Event)
      → nth st.signals i ≡ some sig
      → st.lua_signal sig ≡ function f
      → call i st f ≡ returned es
      → sighook_loop call (suc fuel) i st
        ≡ calling (function f) (sighook_loop call fuel (i + 1) (happens st es))
  unfolding served sighook_loop calling round outcome
  round-next fuel i f st sig es e q c =
      rw (sighook_loop, round, e, q, c)
        (ap (λ v. calling v (sighook_loop call fuel (i + 1) (happens st es))) q)

  round-exhausted :
      (fuel i : ℕ) (st : State)
      → nth st.signals i ≡ none
      → sighook_loop call (suc fuel) i st ≡ ended [] st
  unfolding sighook_loop round
  round-exhausted fuel i st e = rw (sighook_loop, round, e) refl

  round-raised :
      (fuel i : ℕ) (st : State) (sig : ℤ) (es : List Event)
      → nth st.signals i ≡ some sig
      → outcome call i st (st.lua_signal sig) ≡ raised es
      → sighook_loop call (suc fuel) i st
        ≡ some (record { called = st.lua_signal sig ∷ []; finished = false; state = happens st es })
  unfolding served sighook_loop round
  round-raised fuel i st sig es e c = rw (sighook_loop, round, e, c) refl

  Served-more :
      (i f : ℕ) (st : State) (sig : ℤ) (es : List Event) (result : Option Run)
      → nth st.signals i ≡ some sig
      → st.lua_signal sig ≡ function f
      → call i st f ≡ returned es
      → Grows st (happens st es)
      → Served (suc i) (happens st es) result
      → Served i st (calling (function f) result)
  unfolding calling
  Served-more i f st sig es result e q c g (fs, u, s, h, r, l, k) = (
    function f ∷ fs,
    u,
    turn e q c s,
    Grows-trans g h,
    r,
    omega (arith, l),
    ap (calling (function f)) k,
  )

  loop-Served :
      Returns
      → (fuel i : ℕ) (st : State) → i ≤ length st.signals
      → IsReady st
      → max_pending_signals < i + fuel
      → Served i st (sighook_loop call fuel i st)
  loop-Served r zero i st h b k = let l = b.fits in absurd (omega arith)
  loop-Served r (suc fuel) i st h b k = elim (Option-cases (nth st.signals i)) [
    | inl e ↦
        let l = nth-none st.signals i e in
        ([], st, nothing e, Grows-refl st b.fits, b, omega arith, round-exhausted fuel i st e)
    | inr (sig, e) ↦
        let (f, q) = All-nth (λ j. IsFunction (st.lua_signal j)) st.signals i sig b.set e in
        let (es, c, a) = r i st f b in
        let l = nth-some st.signals i sig e in
        let (g, b') = happens-IsReady es st (omega arith) b a in
        let m = Grows-length g in
        let s : i + 1 ≡ suc i = omega arith in
        subst (Served i st) (sym (round-next fuel i f st sig es e q c)) (
          rw s (
            Served-more i f st sig es _ e q c g
              (loop-Served r fuel (suc i) (happens st es) (omega arith) b' (omega arith))))
  ]

  -- The hook, called in a state where at most 32 signals are pending and each of them and each that the
  -- process handles has a function, ends, if every function that it calls returns, only signals that the
  -- process handles arrive meanwhile, and no function is taken away from a signal in the queue, where a
  -- signal stays until the run ends. The
  -- pending signals have had their turns in order, then those that arrived meanwhile and found a place,
  -- each with the function that the table had when its turn came. The queue is empty then, and the
  -- hook of the program installed.
  pub run_sighook_lem :
      Returns
      → (st : State) → IsReady st
      → (fs : List Value) × (u : State) × Serves call 0 (record st { hook = st.stored }) fs u
        × ((more : List ℤ) × (u.signals ≡ st.signals ++ more))
        × (length fs ≡ length u.signals)
        × (length u.signals ≤ max_pending_signals)
        × (u.hook ≡ st.stored)
        × IsReady u
        × (run_sighook call st
            ≡ some (record { called = fs; finished = true; state = record u { signals = [] } }))
  unfolding run_sighook
  run_sighook_lem r st b =
      let st0 : State = record st { hook = st.stored } in
      let b0 : IsReady st0 = record { fits = b.fits; set = b.set; valid = b.valid } in
      let (fs, u, s, g, b', l, e) =
        loop-Served r (max_pending_signals + 1) 0 st0 (omega arith) b0 (omega arith) in
      (fs, u, s, (g.more, g.signals), omega arith, g.fits, g.hook, b', e)

  -- Where at least one and at most 32 signals are pending and the call for the first one raises an error, as
  -- it does where its function has been cleared, the run ends there with the queue not emptied. The hook
  -- of the program is installed then, and no signal that arrives later changes that: no function is
  -- called any more.
  pub run_sighook_raised :
      (st : State) (sig : ℤ) (rest : List ℤ) (es : List Event)
      → st.signals ≡ sig ∷ rest
      → length st.signals ≤ max_pending_signals
      → outcome call 0 (record st { hook = st.stored }) (st.lua_signal sig) ≡ raised es
      → (run : Run) × (run_sighook call st ≡ some run)
        × (run.called ≡ st.lua_signal sig ∷ [])
        × (run.finished ≡ false)
        × ((later : List ℤ) → (arrive run.state later).hook ≡ st.stored)
  run_sighook_raised st sig rest es e b c = (
    record { called = st.lua_signal sig ∷ []; finished = false; state = happens st0 es },
    stopped,
    refl,
    refl,
    λ later. (arrive-Grows later (happens st0 es) m g.fits).hook ∙ g.hook,
  )
    where
      st0 : State
      st0 = record st { hook = st.stored }

      n : 0 < length st.signals
      n = let k = ap length e in omega arith

      g : Grows st0 (happens st0 es)
      g = happens-Grows es st0 n b

      m : 0 < length (happens st0 es).signals
      m = let k = Grows-length g in omega (arith, n)

      found : nth st.signals 0 ≡ some sig
      found = simp e (unfold nth in refl)

      stopped :
          run_sighook call st
          ≡ some
              (record { called = st.lua_signal sig ∷ []; finished = false; state = happens st0 es })
      stopped = unfold run_sighook in round-raised max_pending_signals 0 st0 sig es found c
