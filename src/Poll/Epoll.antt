-- ===== src/Poll/Epoll.antt =====
-- util-src/poll.c where USE_EPOLL is defined, as it is on Linux. The kernel keeps the watch list: its
-- calls are a parameter, and the functions pass its state on beside that of the userdata. `none` is a
-- Lua error. Handout, Watched and Stale, below this module, prove what the functions do.
pub mod Handout
pub mod Watched
pub mod Stale
mod Examples
use prosody_trunk.Base.{
  ℕ, zero, suc, ◌+◌, ◌-◌, ◌≡◌, Bool, true, false, not, ◌||◌, Option, none, some, bit_and, bit_or,
}
use prosody_trunk.Base.{List, [], ◌∷◌, ◌++◌, length, drop, get_or, ltb, ◌==◌, if◌then◌else◌}
use prosody_trunk.Base.Int.{ℤ, pos, negsuc}
use prosody_trunk.Base.Text.{bytes}
use prosody_trunk.Lua.{Value, nil, boolean, integer, string}

abbrev pub max_events : ℕ
max_events = 64

-- The constants of Linux.
abbrev pub epollin : ℕ
epollin = 1

abbrev pub epollout : ℕ
epollout = 4

abbrev pub epollerr : ℕ
epollerr = 8

abbrev pub epollhup : ℕ
epollhup = 16

abbrev pub epollrdhup : ℕ
epollrdhup = 0x2000

abbrev pub eintr : ℕ
eintr = 4

abbrev pub ebadf : ℕ
ebadf = 9

-- A `struct epoll_event`: the descriptor and the events.
abbrev pub Event : Type 0
Event = ℤ × ℕ

pub record State : Type 0 where
  pub processed : ℕ
  pub epoll_fd : ℤ
  pub events : List Event

pub data Ctl : Type 0 where
  ctl_add ctl_mod ctl_del : Ctl

-- The calls of the kernel: `none` or an `errno`; `epoll_create1` answers with a descriptor.
pub record Kernel : Type 1 where
  pub World : Type 0
  pub epoll_create1 : World → ℤ × ℕ × World
  pub epoll_ctl : World → ℤ → Ctl → ℤ → ℕ → Option ℕ × World
  pub close : World → ℤ → Option ℕ × World
  pub strerror : ℕ → List ℕ

-- What `epoll_wait` answers: events, at most `max_events`, none in time, or an `errno`.
pub data Answer : Type 0 where
  ready : List Event → Answer
  timeout : Answer
  failed : ℕ → Answer

-- The events that are asked for.
pub event_mask : Bool → Bool → ℕ
event_mask wantread wantwrite =
    bit_or (bit_or (if wantread then epollin else 0) (if wantwrite then epollout else 0))
      (bit_or (bit_or epollerr epollhup) epollrdhup)

abbrev pub has : ℕ → ℕ → Bool
has mask bits = not (bit_and mask bits == 0)

-- The values for an event.
pub event_values : Event → List Value
event_values (fd, mask) =
    integer fd
    ∷ boolean (has mask (bit_or (bit_or (bit_or epollin epollhup) epollrdhup) epollerr))
    ∷ boolean (has mask epollout)
    ∷ []

pub l_pushevent : State → List Value × State
l_pushevent st =
    if ltb 0 st.processed
    then (
      event_values (get_or st.events (st.processed - 1) (pos 0, 0)),
      record st { processed = st.processed - 1 },
    )
    else ([], st)

-- The array after the kernel has written events to its beginning.
pub filled : List Event → List Event → List Event
filled es old = es ++ drop (length es) old

pub failure : (ℕ → List ℕ) → ℕ → List Value
failure strerror e = nil ∷ string (strerror e) ∷ integer (pos e) ∷ []

-- What `Lwait` does with the answer of `epoll_wait`.
pub answered : (ℕ → List ℕ) → Answer → State → List Value × State
answered strerror (ready es) st =
    l_pushevent (record st { events = filled es st.events; processed = length es })
answered strerror timeout st = (nil ∷ string (bytes "timeout") ∷ [], st)
answered strerror (failed e) st =
    if e == eintr then (nil ∷ string (bytes "signal") ∷ [], st) else (failure strerror e, st)

-- What `Lwait` does after the event that may be pending. A timeout below zero, `none` here, raises a
-- Lua error, but only where no event is pending.
pub wait_after : (ℕ → List ℕ) → Option Answer → List Value × State → Option (List Value × State)
wait_after strerror answer (v ∷ vs, st) = some (v ∷ vs, st)
wait_after strerror none ([], st) = none
wait_after strerror (some a) ([], st) = some (answered strerror a st)

pub l_wait : (ℕ → List ℕ) → State → Option Answer → Option (List Value × State)
l_wait strerror st answer = wait_after strerror answer (l_pushevent st)

module _ (K : Kernel) where
  -- The userdata and the kernel.
  abbrev pub Both : Type 0
  Both = State × K.World

  -- What the three functions do with the result of `epoll_ctl`.
  pub controlled : State → Option ℕ × K.World → List Value × (State × K.World)
  controlled st (none, k) = (boolean true ∷ [], (st, k))
  controlled st (some e, k) = (failure K.strerror e, (st, k))

  pub l_add : State × K.World → ℤ → Bool → Bool → List Value × (State × K.World)
  l_add (st, k) (negsuc n) wantread wantwrite = (failure K.strerror ebadf, (st, k))
  l_add (st, k) (pos fd) wantread wantwrite =
      controlled st (K.epoll_ctl k st.epoll_fd ctl_add (pos fd) (event_mask wantread wantwrite))

  pub l_set : State × K.World → ℤ → Bool → Bool → List Value × (State × K.World)
  l_set (st, k) fd wantread wantwrite =
      controlled st (K.epoll_ctl k st.epoll_fd ctl_mod fd (event_mask wantread wantwrite))

  -- The events of the argument of `epoll_ctl` are not set here; the kernel ignores them.
  pub l_del : State × K.World → ℤ → ℕ → List Value × (State × K.World)
  l_del (st, k) fd unset = controlled st (K.epoll_ctl k st.epoll_fd ctl_del fd unset)

  -- What `Lnew` does with the result of `epoll_create1`; `events` is what the memory holds. A result
  -- of zero or below is an error.
  pub created : List Event → ℤ × ℕ × K.World → List Value × Option State × K.World
  created events (pos (suc n), e, k) =
      ([], some (record { processed = 0; epoll_fd = pos (suc n); events = events }), k)
  created events (fd, e, k) = (failure K.strerror e, none, k)

  pub l_new : K.World → List Event → List Value × Option State × K.World
  l_new k events = created events (K.epoll_create1 k)

  pub l_getfd : State → List Value
  l_getfd st = integer st.epoll_fd ∷ []

  -- What `Lgc` does with the result of `close`, and the test before it.
  pub closed : State → Option ℕ × K.World → Option (State × K.World)
  closed st (none, k) = some (record st { epoll_fd = negsuc 0 }, k)
  closed st (some e, k) = none

  pub gc_of : State → K.World → ℤ → Option (State × K.World)
  gc_of st k (negsuc zero) = some (st, k)
  gc_of st k (negsuc (suc n)) = closed st (K.close k (negsuc (suc n)))
  gc_of st k (pos n) = closed st (K.close k (pos n))

  pub l_gc : State × K.World → Option (State × K.World)
  l_gc (st, k) = gc_of st k st.epoll_fd
