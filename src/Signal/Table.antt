-- ===== src/Signal/Table.antt =====
-- `l_signal`: the table of the functions, and a run of the hook that an error ends.
use prosody_trunk.Base.{ℕ, ◌≡◌, refl, Bool, true, false, ◌||◌, Option, none, some, arith}
use prosody_trunk.Base.{◌>>=◌, List, [], ◌∷◌, if◌then◌else◌, ap}
use mathlib.Core.Path.{subst}
use prosody_trunk.Base.Int.{ℤ, pos, negsuc}
use prosody_trunk.Lua.{Value, nil, boolean, integer, string, function, index}
use prosody_trunk.Signal.{
  same, State, number_of, settable, clear_handler, set_handler, signal_at, l_signal, replied,
}

same_refl : (k : ℤ) → same k k ≡ true
unfolding same
same_refl (pos n) = ground arith
same_refl (negsuc n) = ground arith

-- What the table holds is a function.
abbrev pub IsFunction : Value → Type 0
IsFunction v = (f : ℕ) × (v ≡ function f)

-- Every signal that the process handles has a function.
abbrev pub IsValid : State → Type 0
IsValid st = (k : ℤ) → st.handled k ≡ true → IsFunction (st.lua_signal k)

cleared :
    (b : Bool) (v : Value) (h : Bool)
    → (h ≡ true → IsFunction v)
    → (if b then false else h) ≡ true
    → IsFunction (if b then nil else v)
cleared true v h p e = cc e
cleared false v h p e = p e

entered :
    (b : Bool) (f : ℕ) (v : Value) (a h : Bool)
    → (h ≡ true → IsFunction v)
    → (if b then a || h else h) ≡ true
    → IsFunction (if b then function f else v)
entered true f v a h p e = (f, refl)
entered false f v a h p e = p e

clear_handler-IsValid : (st : State) (sig : ℤ) → IsValid st → IsValid (clear_handler st sig).1
unfolding clear_handler settable
clear_handler-IsValid st sig v k h = cleared (same sig k) (st.lua_signal k) (st.handled k) (v k) h

set_handler-IsValid :
    (accepts : Bool) (st : State) (sig : ℤ) (f : ℕ)
    → IsValid st
    → IsValid (set_handler accepts st sig f).1
unfolding set_handler settable
set_handler-IsValid accepts st sig f v k h =
    entered (same sig k) f (st.lua_signal k) accepts (st.handled k) (v k) h

kept :
    (p : List Value × State) (reply : List Value) (st' : State)
    → IsValid p.1
    → some p ≡ some (reply, st')
    → IsValid st'
kept p reply st' v e = subst IsValid (ap (λ o. elim o [ none ↦ st' | some q ↦ q.1 ]) e) v

signal_at-IsValid :
    (accepts : Bool) (st st' : State) (second : Option Value) (sig : ℤ) (reply : List Value)
    → IsValid st
    → signal_at accepts st second sig ≡ some (reply, st')
    → IsValid st'
unfolding signal_at
signal_at-IsValid accepts st st' none sig reply v e =
    kept _ reply st' (clear_handler-IsValid st sig v) e
signal_at-IsValid accepts st st' (some nil) sig reply v e =
    kept _ reply st' (clear_handler-IsValid st sig v) e
signal_at-IsValid accepts st st' (some (function f)) sig reply v e =
    kept _ reply st' (set_handler-IsValid accepts st sig f v) e
signal_at-IsValid accepts st st' (some (boolean b)) sig reply v e = cc e
signal_at-IsValid accepts st st' (some (integer n)) sig reply v e = cc e
signal_at-IsValid accepts st st' (some (string s)) sig reply v e = cc e

-- Every call of `l_signal` that returns keeps the invariant that each signal that the process handles
-- has a function in the table, whether the system accepts the handler or not.
pub l_signal-IsValid :
    (lua_signals : List ℕ → Option ℤ) (accepts : ℤ → Bool) (st st' : State)
    (args reply : List Value)
    → IsValid st
    → l_signal lua_signals accepts st args ≡ some (reply, st')
    → IsValid st'
unfolding l_signal
l_signal-IsValid lua_signals accepts st st' [] reply v e = cc e
l_signal-IsValid lua_signals accepts st st' (a ∷ args) reply v e = go (number_of lua_signals a) e
  where
    go :
        (n : Option ℤ)
        → (n >>= λ sig. signal_at (accepts sig) st (index (a ∷ args) 1) sig) ≡ some (reply, st')
        → IsValid st'
    go none e = cc e
    go (some sig) e = signal_at-IsValid (accepts sig) st st' (index (a ∷ args) 1) sig reply v e

-- `l_signal` leaves the queue and the hooks alone.
pub record Untouched (st st' : State) : Type 0 where
  pub signals : st'.signals ≡ st.signals
  pub hook : st'.hook ≡ st.hook
  pub stored : st'.stored ≡ st.stored

signal_at-Untouched :
    (accepts : Bool) (st : State) (second : Option Value) (sig : ℤ)
    → Untouched st (replied st (signal_at accepts st second sig))
unfolding signal_at replied clear_handler set_handler
signal_at-Untouched accepts st none sig = record { signals = refl; hook = refl; stored = refl }
signal_at-Untouched accepts st (some nil) sig = record {
  signals = refl;
  hook = refl;
  stored = refl;
}
signal_at-Untouched accepts st (some (function f)) sig = record {
  signals = refl;
  hook = refl;
  stored = refl;
}
signal_at-Untouched accepts st (some (boolean b)) sig = record {
  signals = refl;
  hook = refl;
  stored = refl;
}
signal_at-Untouched accepts st (some (integer n)) sig = record {
  signals = refl;
  hook = refl;
  stored = refl;
}
signal_at-Untouched accepts st (some (string s)) sig = record {
  signals = refl;
  hook = refl;
  stored = refl;
}

pub l_signal-Untouched :
    (lua_signals : List ℕ → Option ℤ) (accepts : ℤ → Bool) (st : State) (args : List Value)
    → Untouched st (replied st (l_signal lua_signals accepts st args))
unfolding l_signal
l_signal-Untouched lua_signals accepts st [] =
    unfold replied in record { signals = refl; hook = refl; stored = refl }
l_signal-Untouched lua_signals accepts st (a ∷ args) = go (number_of lua_signals a)
  where
    go :
        (n : Option ℤ)
        → Untouched st
            (replied st (n >>= λ sig. signal_at (accepts sig) st (index (a ∷ args) 1) sig))
    go none = unfold replied in record { signals = refl; hook = refl; stored = refl }
    go (some sig) = signal_at-Untouched (accepts sig) st (index (a ∷ args) 1) sig

pub replied-IsValid :
    (lua_signals : List ℕ → Option ℤ) (accepts : ℤ → Bool) (st : State) (args : List Value)
    → IsValid st
    → IsValid (replied st (l_signal lua_signals accepts st args))
replied-IsValid lua_signals accepts st args v =
    go (l_signal lua_signals accepts st args)
      (λ reply st'. l_signal-IsValid lua_signals accepts st st' args reply v)
  where
    go :
        (o : Option (List Value × State))
        → ((reply : List Value) (st' : State) → o ≡ some (reply, st') → IsValid st')
        → IsValid (replied st o)
    go none f = unfold replied in v
    go (some (reply, st')) f = unfold replied in f reply st' refl

-- After a function is set for a signal, clearing the signal hands it back, leaves the functions of the
-- other signals alone, and the process no longer handles the signal.
pub l_signal_clear-set :
    (lua_signals : List ℕ → Option ℤ) (accepts : ℤ → Bool) (st : State) (sig : ℤ) (f : ℕ)
    → (st1 : State) × (st2 : State) × (l_signal lua_signals accepts st
          (integer sig ∷ function f ∷ [])
        ≡ some (boolean (accepts sig) ∷ [], st1))
      × (l_signal lua_signals accepts st1 (integer sig ∷ []) ≡ some (function f ∷ [], st2))
      × (st2.handled sig ≡ false)
      × ((k : ℤ) → same sig k ≡ false → st2.lua_signal k ≡ st.lua_signal k)
unfolding l_signal number_of signal_at clear_handler set_handler settable
l_signal_clear-set lua_signals accepts st sig f = (
  (set_handler (accepts sig) st sig f).1,
  (clear_handler (set_handler (accepts sig) st sig f).1 sig).1,
  refl,
  simp (same_refl sig) refl,
  simp (same_refl sig) refl,
  λ k d. simp d refl,
)
