-- ===== src/Poll/Epoll/Stale.antt =====
-- util-src/poll.c over `epoll`: an event that is pending for a descriptor that is removed.
use prosody_trunk.Base.{
  ℕ, suc, ◌-◌, ◌<◌, ◌≡◌, false, refl, ap, ◌∙◌, true, ltb, Option, none, some, List, [], ◌∷◌, get_or,
  arith,
}
use prosody_trunk.Base.Int.{pos}
use prosody_trunk.Lua.{boolean}
use prosody_trunk.Poll.Select
use prosody_trunk.Poll.Select.{fd_setsize, is_ready}
use prosody_trunk.Poll.Select.Watch.{l_del_lem}
use prosody_trunk.Poll.Epoll.{
  State, Answer, Kernel, event_values, l_pushevent, wait_after, l_wait, controlled, l_del,
}
use prosody_trunk.Poll.Epoll.Watched.{KeepsInterest, put, view, Sane, mask_map}

module _ (K : Kernel) (L : KeepsInterest K) (unset : ℕ) where
  removed :
      (st : State) (k : K.World) (fd : ℕ) (p : Option ℕ × K.World)
      → p.0 ≡ none
      → ((j : ℕ) → L.interest p.1 st.epoll_fd j ≡ put (L.interest k st.epoll_fd) fd none j)
      → (k' : K.World) × (controlled K st p ≡ (boolean true ∷ [], (st, k')))
        × (view K L unset (st, k') fd ≡ none)
  unfolding controlled
  removed st k fd (none, k') ok h = (k', refl, ap mask_map (h fd ∙ gone))
    where
      gone : put (L.interest k st.epoll_fd) fd none fd ≡ none
      gone = ground arith
  removed st k fd (some e, k') ok h = cc ok

  pending :
      (strerror : ℕ → List ℕ) (st : State) (n fd mask : ℕ) (answer : Option Answer)
      → st.processed ≡ suc n
      → get_or st.events n (pos 0, 0) ≡ (pos fd, mask)
      → l_wait strerror st answer ≡ some (event_values (pos fd, mask), record st { processed = n })
  unfolding l_wait l_pushevent wait_after event_values
  pending strerror st n fd mask answer e q =
      let some_left : ltb 0 st.processed ≡ true = ground arith in
      let m : st.processed - 1 ≡ n = omega arith in
      let pushed : l_pushevent st ≡ (event_values (pos fd, mask), record st { processed = n }) =
        rw (some_left, m, q) refl in
      ap (wait_after strerror answer) pushed

  -- Where the epoll descriptor is open, the kernel keeps its interest list as documented, and the event of
  -- a watched descriptor is next to be handed out, `Ldel` of that descriptor succeeds and the descriptor
  -- is no longer watched, and still the next call of `Lwait` returns the event, whatever the kernel would
  -- answer. Over `select` nothing is pending for a descriptor below FD_SETSIZE after `Ldel`.
  pub l_wait-l_del :
      (strerror : ℕ → List ℕ) (st : State) (k : K.World) (n fd mask old : ℕ)
      → Sane K L unset (st, k)
      → L.Pollable fd
      → L.interest k st.epoll_fd fd ≡ some old
      → st.processed ≡ suc n
      → get_or st.events n (pos 0, 0) ≡ (pos fd, mask)
      → (k' : K.World) × (l_del K (st, k) (pos fd) unset ≡ (boolean true ∷ [], (st, k')))
        × (view K L unset (st, k') fd ≡ none)
        × ((answer : Option Answer)
            → l_wait strerror st answer
              ≡ some (event_values (pos fd, mask), record st { processed = n }))
        × ((s : Select.State)
            → fd < fd_setsize
            → (s' : Select.State) × (Select.l_del strerror s (pos fd)
                ≡ some (boolean true ∷ [], s'))
              × (is_ready s' fd ≡ false))
  unfolding l_del
  l_wait-l_del strerror st k n fd mask old ready u i e q =
      let (ok, j, c) = L.removes k st.epoll_fd fd unset old ready u i in
      let (k', r, v) = removed st k fd _ ok c in
      (k', r, v, (λ answer. pending strerror st n fd mask answer e q), λ s h. dropped s h)
    where
      dropped :
          (s : Select.State)
          → fd < fd_setsize
          → (s' : Select.State) × (Select.l_del strerror s (pos fd) ≡ some (boolean true ∷ [], s'))
            × (is_ready s' fd ≡ false)
      dropped s h = let (s', q, v, i) = l_del_lem strerror s fd h in (s', q, i)
