-- ===== src/Signal/Machine/Delivered.antt =====
-- util-src/signal.c: what becomes of a signal that arrives.
use prosody_trunk.Base.{
  ℕ, zero, suc, ◌+◌, ◌≤◌, ◌<◌, ◌≡◌, refl, sym, ap, ◌∙◌, true, ◌⊎◌, inl, inr, some, get_or, List, [],
  ◌∷◌, ◌++◌, length, length-append, arith,
}
use prosody_trunk.Base.Int.{ℤ}
use prosody_trunk.Lua.{Value, nil, function}
use prosody_trunk.Signal.{
  max_pending_signals, sighook, debug_hook, State, hooked, handle, Event, Outcome, returned, Run,
  nth, run_sighook,
}
use prosody_trunk.Signal.Turns.{happens-Grows, nth-none, nth-some, nth-append}
use prosody_trunk.Signal.Rounds.{Serves, nothing, turn, Returns, run_sighook_lem}
use prosody_trunk.Signal.Machine.{Reach, arrives, later, Reach-IsSound, IsIdle, IsBusy}

-- The turn of a signal: in some state the table had this function for it, which was called there and
-- returned.
abbrev pub HasTurn : (ℕ → State → ℕ → Outcome) → ℕ → ℤ → ℕ → Type 0
HasTurn call i sig f =
    (v : State) × (es : List Event) × (v.lua_signal sig ≡ function f) × (call i v f ≡ returned es)

-- Every pending signal has a turn, at its place.
Serves-HasTurn :
    {call : ℕ → State → ℕ → Outcome} {i : ℕ} {st u : State} {fs : List Value}
    → Serves call i st fs u
    → length st.signals ≤ max_pending_signals
    → (k : ℕ) (sig : ℤ) → nth st.signals (i + k) ≡ some sig
    → (f : ℕ) × (get_or fs k nil ≡ function f) × HasTurn call (i + k) sig f
Serves-HasTurn {i} {st} (nothing e) b k sig h =
    let l = nth-none st.signals i e in
    let m = nth-some st.signals (i + k) sig h in absurd (omega arith)
Serves-HasTurn {call} {i} {st} (turn {f} {sig = now} {es} e q c s) b zero sig h =
    let z : i + 0 ≡ i = omega arith in
    let same : now ≡ sig = cc (sym e ∙ ap (nth st.signals) (sym z) ∙ h) in
    rw z (f, refl, (st, es, ap st.lua_signal (sym same) ∙ q, c))
Serves-HasTurn {call} {i} {st} (turn {f} {sig = now} {es} e q c s) b (suc k) sig h =
    let z : i + suc k ≡ suc i + k = omega arith in
    let l = nth-some st.signals i now e in
    let g = happens-Grows es st (omega arith) b in
    rw z (
      Serves-HasTurn s g.fits k sig (
        ap (λ x. nth x (suc i + k)) g.signals
        ∙ nth-append st.signals g.more (suc i + k) sig (ap (nth st.signals) (sym z) ∙ h)))

handle-room :
    (st : State) (sig : ℤ)
    → length st.signals < max_pending_signals
    → (handle st sig).signals ≡ st.signals ++ sig ∷ []
unfolding handle hooked
handle-room st sig b = ground arith

nth_end : (xs : List ℤ) (x : ℤ) → nth (xs ++ x ∷ []) (length xs) ≡ some x
unfolding nth
nth_end [] x = refl
nth_end (y ∷ xs) x = nth_end xs x

busy : (st : State) → IsIdle st ⊎ IsBusy st → 0 < length st.signals → IsBusy st
busy st (inl (e, own)) p = let l = ap length e in absurd (omega arith)
busy st (inr b) p = b

-- A signal that the process handles and that arrives, in a state that can be reached, while fewer than 32
-- are pending is not lost: this module's hook is installed then, and the run of it, where each function that it calls returns, only signals that the process
-- handles arrive meanwhile, and no function is taken away from a signal in the queue, where a signal stays
-- until the run ends,
-- ends, and has called, behind those for the signals that were pending before, the
-- function that the table had for this signal when its turn came. The program's hook is installed
-- again and nothing is pending.
pub arrives-HasTurn :
    (st : State) (sig : ℤ) (call : ℕ → State → ℕ → Outcome)
    → Reach st
    → st.handled sig ≡ true
    → length st.signals < max_pending_signals
    → Returns call
    → ((handle st sig).hook ≡ sighook)
      × ((run : Run) × (f : ℕ) × (run_sighook call (handle st sig) ≡ some run)
          × (run.finished ≡ true)
          × (get_or run.called (length st.signals) nil ≡ function f)
          × HasTurn call (length st.signals) sig f
          × (run.state.signals ≡ [])
          × ((n : ℕ) × (run.state.hook ≡ debug_hook n)))
arrives-HasTurn st sig call r h b ret =
    let sound = Reach-IsSound (later r (arrives sig h)) in
    let e = handle-room st sig b in
    let l = ap length e in
    let (p, hooked, (n, own)) =
      busy (handle st sig) sound.hooks (omega (arith, length-append st.signals (sig ∷ []))) in
    let (fs, u, s, more, k, fits, back, ready, done) =
      run_sighook_lem call ret (handle st sig) sound.ready in
    let (f, at_place, has_turn) = Serves-HasTurn s sound.ready.fits (length st.signals) sig (
      ap (λ i. nth (handle st sig).signals i) {x = 0 + length st.signals} (omega arith)
      ∙ ap (λ x. nth x (length st.signals)) e
      ∙ nth_end st.signals sig) in
    let z : 0 + length st.signals ≡ length st.signals = omega arith in
    (hooked, (_, f, done, refl, at_place, rw z at has_turn, refl, (n, back ∙ own)))
