-- ===== src/Poll/Epoll/Watched.antt =====
-- `Ladd`, `Lset` and `Ldel` over `epoll` implement the watch list, on a kernel that keeps it.
use prosody_trunk.Base.{
  ℕ, ◌≡◌, refl, ap, ◌∙◌, Bool, true, false, Option, none, some, ◌==◌, if◌then◌else◌, List,
  Bool-cases, inl, inr,
}
use mathlib.Core.Path.{subst}
use prosody_trunk.Base.Int.{ℤ, pos}
use prosody_trunk.Poll.WatchList.{
  Wants, update, WatchList, Op, AllProper, wants_run, run, session_refines, Accepts, Refuses,
}
use prosody_trunk.Poll.Epoll.{
  State, ctl_add, ctl_mod, ctl_del, Kernel, event_mask, has, epollin, epollout, controlled, l_add,
  l_set, l_del, failure,
}

-- What is wanted, as `event_mask` tells it.
abbrev pub wants_of : ℕ → Bool × Bool
wants_of mask = (has mask epollin, has mask epollout)

wants_of-event_mask : (r w : Bool) → wants_of (event_mask r w) ≡ (r, w)
unfolding event_mask
wants_of-event_mask true true = refl
wants_of-event_mask true false = refl
wants_of-event_mask false true = refl
wants_of-event_mask false false = refl

abbrev pub mask_map : Option ℕ → Option (Bool × Bool)
mask_map none = none
mask_map (some mask) = some (wants_of mask)

abbrev pub put : (ℕ → Option ℕ) → ℕ → Option ℕ → ℕ → Option ℕ
put m fd entry k = if fd == k then entry else m k

-- What the manual of `epoll_ctl` says: the interest list of an open epoll descriptor has a mask for each
-- descriptor in it. Adding enters a descriptor that can be polled and is not there, and fails on one
-- that is; changing and removing succeed on one that is there. A failure changes nothing. `Ready` says
-- of a descriptor that it is an open one of epoll, and that the kernel has watches and memory enough for
-- all that can be polled, so that it reports none of EBADF, EINVAL, ENOSPC and ENOMEM for it; no call of
-- `epoll_ctl` changes that. Nothing is said of other descriptors, such as a closed one.
pub record KeepsInterest (K : Kernel) : Type 1 where
  pub interest : K.World → ℤ → ℕ → Option ℕ
  pub Pollable : ℕ → Type 0
  pub Ready : K.World → ℤ → Type 0
  pub adds :
      (k : K.World) (ep : ℤ) (fd mask : ℕ)
      → Ready k ep
      → Pollable fd
      → interest k ep fd ≡ none
      → ((K.epoll_ctl k ep ctl_add (pos fd) mask).0 ≡ none)
        × Ready (K.epoll_ctl k ep ctl_add (pos fd) mask).1 ep
        × ((j : ℕ)
            → interest (K.epoll_ctl k ep ctl_add (pos fd) mask).1 ep j
              ≡ put (interest k ep) fd (some mask) j)
  pub adds_once :
      (k : K.World) (ep : ℤ) (fd mask old : ℕ)
      → Ready k ep
      → Pollable fd
      → interest k ep fd ≡ some old
      → ((e : ℕ) × ((K.epoll_ctl k ep ctl_add (pos fd) mask).0 ≡ some e))
        × Ready (K.epoll_ctl k ep ctl_add (pos fd) mask).1 ep
        × ((j : ℕ) → interest (K.epoll_ctl k ep ctl_add (pos fd) mask).1 ep j ≡ interest k ep j)
  pub changes :
      (k : K.World) (ep : ℤ) (fd mask old : ℕ)
      → Ready k ep
      → Pollable fd
      → interest k ep fd ≡ some old
      → ((K.epoll_ctl k ep ctl_mod (pos fd) mask).0 ≡ none)
        × Ready (K.epoll_ctl k ep ctl_mod (pos fd) mask).1 ep
        × ((j : ℕ)
            → interest (K.epoll_ctl k ep ctl_mod (pos fd) mask).1 ep j
              ≡ put (interest k ep) fd (some mask) j)
  pub removes :
      (k : K.World) (ep : ℤ) (fd mask old : ℕ)
      → Ready k ep
      → Pollable fd
      → interest k ep fd ≡ some old
      → ((K.epoll_ctl k ep ctl_del (pos fd) mask).0 ≡ none)
        × Ready (K.epoll_ctl k ep ctl_del (pos fd) mask).1 ep
        × ((j : ℕ)
            → interest (K.epoll_ctl k ep ctl_del (pos fd) mask).1 ep j
              ≡ put (interest k ep) fd none j)

module _ (K : Kernel) (L : KeepsInterest K) (unset : ℕ) where
  abbrev pub view : State × K.World → Wants
  view (st, k) fd = mask_map (L.interest k st.epoll_fd fd)

  -- The userdata has an epoll descriptor that is ready.
  abbrev pub Sane : State × K.World → Type 0
  Sane (st, k) = L.Ready k st.epoll_fd

  some_mask : (o : Option ℕ) (e : Bool × Bool) → mask_map o ≡ some e → (old : ℕ) × (o ≡ some old)
  some_mask none e h = cc h
  some_mask (some old) e h = (old, refl)

  no_mask : (o : Option ℕ) → mask_map o ≡ none → o ≡ none
  no_mask none h = refl
  no_mask (some old) h = cc h

  -- What the three functions make of a success of the kernel, and of a failure.
  controlled_ok :
      (st : State) (k : K.World) (p : Option ℕ × K.World) (fd : ℕ) (entry : Option ℕ)
      → p.0 ≡ none
      → L.Ready p.1 st.epoll_fd
      → ((j : ℕ) → L.interest p.1 st.epoll_fd j ≡ put (L.interest k st.epoll_fd) fd entry j)
      → Accepts Sane view (some (controlled K st p)) (update (view (st, k)) fd (mask_map entry))
  unfolding controlled
  controlled_ok st k (none, k') fd entry ok i h =
      ((st, k'), refl, i, λ j. ap mask_map (h j) ∙ moved j)
    where
      moved :
          (j : ℕ)
          → mask_map (put (L.interest k st.epoll_fd) fd entry j)
            ≡ update (view (st, k)) fd (mask_map entry) j
      moved j = elim (Bool-cases (fd == j)) [ inl e ↦ rw e refl | inr e ↦ rw e refl ]
  controlled_ok st k (some e, k') fd entry ok i h = cc ok

  controlled_failed :
      (st : State) (k : K.World) (p : Option ℕ × K.World) (e : ℕ)
      → p.0 ≡ some e
      → L.Ready p.1 st.epoll_fd
      → ((j : ℕ) → L.interest p.1 st.epoll_fd j ≡ L.interest k st.epoll_fd j)
      → Refuses Sane view (some (controlled K st p)) (view (st, k))
  unfolding controlled failure
  controlled_failed st k (none, k') e failed i h = cc failed
  controlled_failed st k (some e', k') e failed i h = ((st, k'), _, refl, i, λ j. ap mask_map (h j))

  pub adds_new :
      (s : State × K.World) (fd : ℕ) (r w : Bool)
      → Sane s
      → L.Pollable fd
      → view s fd ≡ none
      → Accepts Sane view (some (l_add K s (pos fd) r w)) (update (view s) fd (some (r, w)))
  unfolding l_add
  adds_new (st, k) fd r w i u e =
      let (ok, j, h) = L.adds k st.epoll_fd fd (event_mask r w) i u (no_mask _ e) in
      subst
        (λ entry.
          Accepts Sane view (some (l_add K (st, k) (pos fd) r w))
            (update (view (st, k)) fd (some entry)))
        (wants_of-event_mask r w) (controlled_ok st k _ fd (some (event_mask r w)) ok j h)

  pub adds_again :
      (s : State × K.World) (fd : ℕ) (r w : Bool) (e : Bool × Bool)
      → Sane s
      → L.Pollable fd
      → view s fd ≡ some e
      → Refuses Sane view (some (l_add K s (pos fd) r w)) (view s)
  unfolding l_add
  adds_again (st, k) fd r w e i u h =
      let (old, o) = some_mask _ e h in
      let ((err, not_done), j, same) = L.adds_once k st.epoll_fd fd (event_mask r w) old i u o in
      controlled_failed st k _ err not_done j same

  pub sets_watched :
      (s : State × K.World) (fd : ℕ) (r w : Bool) (e : Bool × Bool)
      → Sane s
      → L.Pollable fd
      → view s fd ≡ some e
      → Accepts Sane view (some (l_set K s (pos fd) r w)) (update (view s) fd (some (r, w)))
  unfolding l_set
  sets_watched (st, k) fd r w e i u h =
      let (old, o) = some_mask _ e h in
      let (ok, j, c) = L.changes k st.epoll_fd fd (event_mask r w) old i u o in
      subst
        (λ entry.
          Accepts Sane view (some (l_set K (st, k) (pos fd) r w))
            (update (view (st, k)) fd (some entry)))
        (wants_of-event_mask r w) (controlled_ok st k _ fd (some (event_mask r w)) ok j c)

  pub dels_watched :
      (s : State × K.World) (fd : ℕ) (e : Bool × Bool)
      → Sane s
      → L.Pollable fd
      → view s fd ≡ some e
      → Accepts Sane view (some (l_del K s (pos fd) unset)) (update (view s) fd none)
  unfolding l_del
  dels_watched (st, k) fd e i u h =
      let (old, o) = some_mask _ e h in
      let (ok, j, c) = L.removes k st.epoll_fd fd unset old i u o in
      controlled_ok st k _ fd none ok j c

  abbrev pub epoll_watch_list : WatchList
  epoll_watch_list = record {
    State = State × K.World;
    view = view;
    Sane = Sane;
    Usable = L.Pollable;
    add = λ s fd r w. some (l_add K s (pos fd) r w);
    set = λ s fd r w. some (l_set K s (pos fd) r w);
    del = λ s fd. some (l_del K s (pos fd) unset);
    add_new = adds_new;
    add_again = adds_again;
    set_watched = sets_watched;
    del_watched = dels_watched;
  }

  -- Where the userdata has an open descriptor of epoll, the kernel keeps its interest list as documented
  -- and has watches and memory enough, every session of `Ladd`, of `Lset` with both wishes given, and of
  -- `Ldel`, on descriptors that can be polled, that changes and removes only what it watches, is
  -- accepted and refused call by call as the watch list says, and ends with the masks of that watch
  -- list.
  pub epoll_refines :
      (ops : List Op) (s : State × K.World)
      → Sane s
      → AllProper L.Pollable (view s) ops
      → (s' : State × K.World) × (run epoll_watch_list s ops
          ≡ some ((wants_run (view s) ops).0, s'))
        × (view s' ≡ (wants_run (view s) ops).1)
  epoll_refines ops s i p = session_refines epoll_watch_list ops s i p
