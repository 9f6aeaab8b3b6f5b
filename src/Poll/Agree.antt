-- ===== src/Poll/Agree.antt =====
-- The two versions of util-src/poll.c beside each other.
use prosody_trunk.Base.{ℕ, ◌<◌, ◌≡◌, Bool, some, List}
use prosody_trunk.Poll.WatchList.{Op, AllProper, run, sessions_agree}
use prosody_trunk.Poll.Select.{fd_setsize}
use prosody_trunk.Poll.Select
use prosody_trunk.Poll.Select.Watch
use prosody_trunk.Poll.Select.Session.{select_watch_list}
use prosody_trunk.Poll.Epoll.{Kernel}
use prosody_trunk.Poll.Epoll
use prosody_trunk.Poll.Epoll.Watched.{KeepsInterest, epoll_watch_list}
use prosody_trunk.Poll.Epoll.Watched

-- A session of `Ladd`, of `Lset` with both wishes given, and of `Ldel`, on descriptors below FD_SETSIZE that can be polled, which
-- changes and removes only what it watches, is answered alike by both versions: if they watch the
-- same descriptors for the same before it, each of its calls is accepted by both or refused by both,
-- and they watch the same after it. The epoll descriptor is open, and the kernel keeps its interest list as
-- documented and has watches and memory enough.
pub select-epoll :
    (strerror : ℕ → List ℕ) (K : Kernel) (L : KeepsInterest K) (unset : ℕ) (ops : List Op)
    (s : Select.State) (t : Epoll.State × K.World)
    → Select.Watch.view s ≡ Epoll.Watched.view K L unset t
    → Epoll.Watched.Sane K L unset t
    → AllProper (λ fd. fd < fd_setsize) (Select.Watch.view s) ops
    → AllProper L.Pollable (Epoll.Watched.view K L unset t) ops
    → (answers : List Bool) × (s' : Select.State) × (t' : Epoll.State × K.World) × (run
          (select_watch_list strerror)
          s
          ops
        ≡ some (answers, s'))
      × (run (epoll_watch_list K L unset) t ops ≡ some (answers, t'))
      × (Select.Watch.view s' ≡ Epoll.Watched.view K L unset t')
select-epoll strerror K L unset ops s t e i =
    sessions_agree (select_watch_list strerror) (epoll_watch_list K L unset) ops s t e tt i
