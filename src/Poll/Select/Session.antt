-- ===== src/Poll/Select/Session.antt =====
-- `Ladd`, `Lset` and `Ldel` over `select` implement the watch list.
use prosody_trunk.Base.{
  ℕ, ◌<◌, ◌≡◌, refl, Bool, true, false, none, some, if◌then◌else◌, List, [], ◌∷◌,
}
use prosody_trunk.Base.Int.{pos}
use prosody_trunk.Lua.{Value, boolean}
use prosody_trunk.Poll.WatchList.{
  WatchList, Op, update, AllProper, wants_run, run, session_refines, Refuses,
}
use prosody_trunk.Poll.Select.{State, fd_setsize, failure, l_add, l_set, l_del}
use prosody_trunk.Poll.Select.Watch.{
  view, l_add_new, l_add_refused, l_set_watched, l_del_lem, wishes, l_set-wishes,
}

pub watched : (b : Bool) (e e' : Bool × Bool) → (if b then some e' else none) ≡ some e → b ≡ true
watched true e e' h = refl
watched false e e' h = cc h

pub unwatched : (b : Bool) (e : Bool × Bool) → (if b then some e else none) ≡ none → b ≡ false
unwatched true e h = cc h
unwatched false e h = refl

module _ (strerror : ℕ → List ℕ) where
  pub Refuses-again :
      (st : State) (fd : ℕ) (r w : Bool) (e : Bool × Bool)
      → fd < fd_setsize
      → view st fd ≡ some e
      → Refuses (λ s. Unit {0}) view (l_add strerror st (pos fd) r w) (view st)
  unfolding failure
  Refuses-again st fd r w e u h =
      (st, _, (l_add_refused strerror st r w).2 fd u (watched _ _ _ h), tt, λ k. refl)

  abbrev pub select_watch_list : WatchList
  select_watch_list = record {
    State = State;
    view = view;
    Sane = λ st. Unit {0};
    Usable = λ fd. fd < fd_setsize;
    add = λ st fd r w. l_add strerror st (pos fd) r w;
    set = λ st fd r w. l_set strerror st (pos fd) (boolean r ∷ boolean w ∷ []);
    del = λ st fd. l_del strerror st (pos fd);
    add_new = λ st fd r w z u e.
        let (st', q, v, i) = l_add_new strerror st fd r w u (unwatched _ _ e) in (st', q, tt, v);
    add_again = λ st fd r w e z u h. Refuses-again st fd r w e u h;
    set_watched = λ st fd r w e z u h.
        let (st', q, v) = l_set_watched strerror st fd r w u (watched _ _ _ h) in (st', q, tt, v);
    del_watched =
        λ st fd e z u h. let (st', q, v, i) = l_del_lem strerror st fd u in (st', q, tt, v);
  }

  -- On descriptors below FD_SETSIZE every session of `Ladd`, of `Lset` with both wishes given, and of
  -- `Ldel`, that changes and removes only what it watches, is accepted and refused call by call as the
  -- watch list says, and ends with the sets of that watch list. `Lset` of a watched descriptor is
  -- accepted with any arguments, and changes the entry of the descriptor only: an argument that is absent
  -- or nil leaves the wish as it was, and another one replaces it.
  pub select_refines :
      (ops : List Op) (st : State)
      → AllProper (λ fd. fd < fd_setsize) (view st) ops
      → ((st' : State) × (run select_watch_list st ops ≡ some ((wants_run (view st) ops).0, st'))
          × (view st' ≡ (wants_run (view st) ops).1))
        × ((fd : ℕ) (r w : Bool) (args : List Value)
            → fd < fd_setsize
            → view st fd ≡ some (r, w)
            → (st' : State) × (l_set strerror st (pos fd) args ≡ some (boolean true ∷ [], st'))
              × ((k : ℕ) → view st' k ≡ update (view st) fd (some (wishes args (r, w))) k))
  select_refines ops st p = (
    session_refines select_watch_list ops st tt p,
    λ fd r w args l e. l_set-wishes strerror st fd r w args l e,
  )
