-- ===== src/Poll/Select.antt =====
-- util-src/poll.c where USE_EPOLL is not defined. The functions take the state and return it beside
-- the values for Lua. `none` is undefined behaviour: an `fd_set` accessed out of its range.
-- Watch, Session, Kept, Machine, Drain and Interrupt, below this module, prove what the functions do.
pub mod Watch
pub mod Session
pub mod Kept
pub mod Machine
pub mod Drain
pub mod Interrupt
mod Examples
use prosody_trunk.Base.{ℕ, zero, suc, ◌+◌, ◌-◌, Bool, true, false, not, ◌||◌, Option, none, some}
use prosody_trunk.Base.{List, [], ◌∷◌, ◌++◌, ltb, leb, ◌==◌, if◌then◌else◌, ◌>>=◌}
use prosody_trunk.Base.Int.{ℤ, pos, negsuc}
use prosody_trunk.Base.Text.{bytes}
use prosody_trunk.Lua.{Value, nil, boolean, integer, string, to_boolean, is_nil, index}

abbrev pub FdSet : Type 0
FdSet = ℕ → Bool

pub fd_set : ℕ → FdSet → FdSet
fd_set fd s k = if fd == k then true else s k

pub fd_clr : ℕ → FdSet → FdSet
fd_clr fd s k = if fd == k then false else s k

unfoldable pub fd_zero : FdSet
fd_zero k = false

-- `if(want) FD_SET else FD_CLR`
pub fd_put : Bool → ℕ → FdSet → FdSet
unfolding fd_set fd_clr
fd_put want fd s = if want then fd_set fd s else fd_clr fd s

-- The constants of the platform.
abbrev pub fd_setsize : ℕ
fd_setsize = 1024

abbrev pub enoent : ℕ
enoent = 2

abbrev pub eintr : ℕ
eintr = 4

abbrev pub ebadf : ℕ
ebadf = 9

abbrev pub eexist : ℕ
eexist = 17

-- `processed` is an `int` that starts at -1 for a scan of all descriptors.
pub record State : Type 0 where
  pub processed : ℤ
  pub wantread : FdSet
  pub wantwrite : FdSet
  pub readable : FdSet
  pub writable : FdSet
  pub all : FdSet
  pub err : FdSet

unfoldable pub l_new : State
unfolding fd_zero
l_new = record {
  processed = pos fd_setsize;
  wantread = fd_zero;
  wantwrite = fd_zero;
  readable = fd_zero;
  writable = fd_zero;
  all = fd_zero;
  err = fd_zero;
}

-- `processed + 1`, from -1 on.
pub next_fd : ℤ → ℕ
next_fd (pos n) = n + 1
next_fd (negsuc n) = 0

-- What is ready at a descriptor, and the state once it has been handed out.
pub is_ready : State → ℕ → Bool
is_ready st fd = st.readable fd || st.writable fd || st.err fd

pub event_at : State → ℕ → List Value
event_at st fd =
    integer (pos fd) ∷ boolean (st.readable fd || st.err fd) ∷ boolean (st.writable fd) ∷ []

pub taken : State → ℕ → State
unfolding fd_clr
taken st fd = record st {
  readable = fd_clr fd st.readable;
  writable = fd_clr fd st.writable;
  err = fd_clr fd st.err;
  processed = pos fd;
}

-- `n` rounds of the loop of `Lpushevent`, from the descriptor `fd` on.
pub scan : ℕ → ℕ → State → List Value × State
scan zero fd st = ([], st)
scan (suc n) fd st =
    let rest = scan n (fd + 1) st in if is_ready st fd then (event_at st fd, taken st fd) else rest

pub l_pushevent : State → List Value × State
l_pushevent st = let start = next_fd st.processed in scan (fd_setsize - start) start st

-- What `select` answers: the number of ready descriptors is zero or above with the sets rewritten,
-- or it fails with an `errno` and leaves the sets alone.
pub data Answer : Type 0 where
  ready : FdSet → FdSet → FdSet → Answer
  timeout : FdSet → FdSet → FdSet → Answer
  failed : ℕ → Answer

-- The copies of the sets that are handed to `select`.
pub armed : State → State
armed st = record st { readable = st.wantread; writable = st.wantwrite; err = st.all }

module _ (strerror : ℕ → List ℕ) where
  -- Nil, the message and the number of an error.
  pub failure : ℕ → List Value
  failure e = nil ∷ string (strerror e) ∷ integer (pos e) ∷ []

  pub l_add : State → ℤ → Bool → Bool → Option (List Value × State)
  l_add st (negsuc n) wantread wantwrite = some (failure ebadf, st)
  l_add st (pos fd) wantread wantwrite =
      if ltb fd_setsize fd
      then some (failure ebadf, st)
      else if leb fd_setsize fd
      then none
      else if st.all fd
      then some (failure eexist, st)
      else some (
        boolean true ∷ [],
        record st {
          readable = fd_clr fd st.readable;
          writable = fd_clr fd st.writable;
          err = fd_clr fd st.err;
          all = fd_set fd st.all;
          wantread = fd_put wantread fd st.wantread;
          wantwrite = fd_put wantwrite fd st.wantwrite;
        },
      )

  -- The values of the stack from index 3 on. An error that is pushed is not returned, and stands
  -- behind the arguments.
  pub stack_for : State → ℕ → List Value → List Value
  stack_for st fd args = if st.all fd then args else args ++ failure enoent

  -- One of the two arguments: absent or nil leaves the set alone.
  pub choose : Option Value → ℕ → FdSet → FdSet
  choose none fd s = s
  choose (some v) fd s = if is_nil v then s else fd_put (to_boolean v) fd s

  pub l_set : State → ℤ → List Value → Option (List Value × State)
  l_set st (negsuc n) args = none
  l_set st (pos fd) args =
      let stack = stack_for st fd args in
      if leb fd_setsize fd
      then none
      else some (
        boolean true ∷ [],
        record st {
          wantread = choose (index stack 0) fd st.wantread;
          wantwrite = choose (index stack 1) fd st.wantwrite;
        },
      )

  pub l_del : State → ℤ → Option (List Value × State)
  l_del st (negsuc n) = none
  l_del st (pos fd) =
      if leb fd_setsize fd
      then none
      else some (
        boolean true ∷ [],
        record st {
          wantread = fd_clr fd st.wantread;
          wantwrite = fd_clr fd st.wantwrite;
          readable = fd_clr fd st.readable;
          writable = fd_clr fd st.writable;
          all = fd_clr fd st.all;
          err = fd_clr fd st.err;
        },
      )

  -- What `Lwait` does with the answer to `select` on the copies.
  pub answered : Answer → State → List Value × State
  answered (ready r w e) st =
      l_pushevent (record st { readable = r; writable = w; err = e; processed = negsuc 0 })
  answered (timeout r w e) st =
      (nil ∷ string (bytes "timeout") ∷ [], record st { readable = r; writable = w; err = e })
  answered (failed e) st =
      if e == eintr then (nil ∷ string (bytes "signal") ∷ [], st) else (failure e, st)

  -- What `Lwait` does after the event that may be pending. A timeout below zero, `none` here, raises
  -- a Lua error, but only where no event is pending.
  pub wait_after : Option Answer → List Value × State → Option (List Value × State)
  wait_after answer (v ∷ vs, st) = some (v ∷ vs, st)
  wait_after none ([], st) = none
  wait_after (some a) ([], st) = some (answered a (armed st))

  pub l_wait : State → Option Answer → Option (List Value × State)
  l_wait st answer = wait_after answer (l_pushevent st)
