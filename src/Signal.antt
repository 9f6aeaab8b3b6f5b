-- ===== src/Signal.antt =====
-- util-src/signal.c: the queue of pending signals, the debug hook that runs their Lua functions, and
-- the table of those functions. Queue, Table, Turns, Rounds and Machine, below this module, prove what
-- they do, and Names is the table of the names.
pub mod Queue
pub mod Table
pub mod Turns
pub mod Rounds
pub mod Machine
pub mod Names
pub mod Opened
mod Examples
use prosody_trunk.Base.{ℕ, zero, suc, ◌+◌, Bool, true, false, ◌||◌, Option, none, some}
use prosody_trunk.Base.{List, [], ◌∷◌, ◌++◌, length, ltb, ◌==◌, if◌then◌else◌, ◌>>=◌}
use prosody_trunk.Base.Int.{ℤ, pos, negsuc}
use prosody_trunk.Lua.{Value, nil, boolean, integer, string, function, to_boolean, index}

-- MAX_PENDING_SIGNALS.
abbrev pub max_pending_signals : ℕ
max_pending_signals = 32

-- A debug hook with its mask and count: that of this module, or another one.
pub data Hook : Type 0 where
  sighook : Hook
  debug_hook : ℕ → Hook

pub same : ℤ → ℤ → Bool
same (pos a) (pos b) = a == b
same (negsuc a) (negsuc b) = a == b
same _ _ = false

-- The first `nsig` elements of the array `signals`, the hook that is installed, the one that was
-- stored (`Hsig`, `Hmask` and `Hcount`), the table LUA_SIGNAL, and which signals the process handles.
pub record State : Type 0 where
  pub signals : List ℤ
  pub hook : Hook
  pub stored : Hook
  pub lua_signal : ℤ → Value
  pub handled : ℤ → Bool

-- The first test of `handle`.
pub hooked : State → State
hooked st = if length st.signals == 0 then record st { stored = st.hook; hook = sighook } else st

pub handle : State → ℤ → State
unfolding hooked
handle st sig =
    let st' = hooked st in
    if ltb (length st'.signals) max_pending_signals
    then record st' { signals = st'.signals ++ sig ∷ [] }
    else st'

-- The signals that arrive one after the other.
pub arrive : State → List ℤ → State
arrive st [] = st
arrive st (sig ∷ sigs) = arrive (handle st sig) sigs

-- The number that names a signal: itself, or what the table has for a string. `none` is an error.
pub number_of : (List ℕ → Option ℤ) → Value → Option ℤ
number_of lua_signals (integer n) = some n
number_of lua_signals (string s) = lua_signals s
number_of lua_signals _ = none

-- A table with the value at one key changed.
pub settable : (ℤ → Value) → ℤ → Value → ℤ → Value
settable t key v k = if same key k then v else t k

-- `signal(sig, SIG_DFL)`, and `signal(sig, handle)` where the system answers `accepts`.
pub clear_handler : State → ℤ → List Value × State
clear_handler st sig = (
  st.lua_signal sig ∷ [],
  record st {
    lua_signal = settable st.lua_signal sig nil;
    handled = λ k. if same sig k then false else st.handled k;
  },
)

pub set_handler : Bool → State → ℤ → ℕ → List Value × State
set_handler accepts st sig f = (
  boolean accepts ∷ [],
  record st {
    lua_signal = settable st.lua_signal sig (function f);
    handled = λ k. if same sig k then accepts || st.handled k else st.handled k;
  },
)

-- The second argument. What is neither absent, nil nor a function is an error.
pub signal_at : Bool → State → Option Value → ℤ → Option (List Value × State)
unfolding clear_handler set_handler
signal_at accepts st none sig = some (clear_handler st sig)
signal_at accepts st (some nil) sig = some (clear_handler st sig)
signal_at accepts st (some (function f)) sig = some (set_handler accepts st sig f)
signal_at accepts st (some _) sig = none

-- Whether `signal` of the system accepts a handler is an argument.
module _ (lua_signals : List ℕ → Option ℤ) where
  pub l_signal : (ℤ → Bool) → State → List Value → Option (List Value × State)
  l_signal accepts st args = do
    v ← index args 0
    sig ← number_of lua_signals v
    signal_at (accepts sig) st (index args 1) sig

-- What happens while a Lua function runs: a signal arrives, or the function calls `l_signal`, which
-- changes nothing where it raises an error that the function catches.
pub data Event : Type 0 where
  arrived : ℤ → Event
  signalled : (List ℕ → Option ℤ) → (ℤ → Bool) → List Value → Event

pub replied : State → Option (List Value × State) → State
replied st none = st
replied st (some (reply, st')) = st'

pub happen : State → Event → State
unfolding replied
happen st (arrived sig) = handle st sig
happen st (signalled lua_signals accepts args) = replied st (l_signal lua_signals accepts st args)

pub happens : State → List Event → State
happens st [] = st
happens st (e ∷ es) = happens (happen st e) es

-- How a call of a Lua function ends, and what happens during it.
pub data Outcome : Type 0 where
  returned : List Event → Outcome
  raised : List Event → Outcome

-- The functions that a run of the hook called, whether it ended without an error, and the state.
pub record Run : Type 0 where
  pub called : List Value
  pub finished : Bool
  pub state : State

pub calling : Value → Option Run → Option Run
calling f none = none
calling f (some run) = some (record run { called = f ∷ run.called })

-- The element of the array at an index below `nsig`.
pub nth : List ℤ → ℕ → Option ℤ
nth [] i = none
nth (x ∷ xs) zero = some x
nth (x ∷ xs) (suc i) = nth xs i

-- A round of the loop of the hook: none is left, a function was called, or one raised an error.
pub data Round : Type 0 where
  exhausted : Round
  next : Value → State → Round
  error : Value → State → Round

pub served : Value → Outcome → State → Round
served f (returned es) st = next f (happens st es)
served f (raised es) st = error f (happens st es)

-- The hook. What the i-th call of a run does, in the state that it begins in, is given by `call`. `nsig`
-- and the table are read in each round. A function that installs a debug hook itself is left out.
module _ (call : ℕ → State → ℕ → Outcome) where
  -- `lua_call` raises an error where the value is no function.
  pub outcome : ℕ → State → Value → Outcome
  outcome i st (function f) = call i st f
  outcome i st _ = raised []

  pub round : ℕ → State → Round
  round i st = elim (nth st.signals i) [
    | none ↦ exhausted
    | some sig ↦ served (st.lua_signal sig) (outcome i st (st.lua_signal sig)) st
  ]

  -- `none` is a loop that runs out of fuel.
  pub sighook_loop : ℕ → ℕ → State → Option Run
  sighook_loop zero i st = none
  sighook_loop (suc fuel) i st = elim (round i st) [
    | exhausted ↦ some (record { called = []; finished = true; state = record st { signals = [] } })
    | next f st' ↦ calling f (sighook_loop fuel (i + 1) st')
    | error f st' ↦ some (record { called = f ∷ []; finished = false; state = st' })
  ]

  pub run_sighook : State → Option Run
  run_sighook st = sighook_loop (max_pending_signals + 1) 0 (record st { hook = st.stored })

-- The results of `raise` and `kill` of the system are arguments.
module _ (lua_signals : List ℕ → Option ℤ) where
  pub l_raise : (ℤ → ℤ) → List Value → Option (List Value)
  l_raise raise args = do
    v ← index args 0
    sig ← number_of lua_signals v
    some (integer (raise sig) ∷ [])

  pub l_kill : (ℤ → ℤ → ℤ) → ℤ → Value → Option (List Value)
  l_kill kill pid v = do sig ← number_of lua_signals v; some (integer (kill pid sig) ∷ [])
