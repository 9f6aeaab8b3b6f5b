-- ===== src/Poll/Epoll/Examples.antt =====
-- The theorems over a kernel that is its one interest list.
use prosody_trunk.Base.{
  ℕ, ◌≤◌, ◌<◌, ◌≡◌, refl, sym, ap, ◌∙◌, Bool, Bool-cases, inl, inr, eq_of_==, true, false, Option,
  none, some, List, [], ◌∷◌, map, ◌==◌, if◌then◌else◌, arith,
}
use prosody_trunk.Base.Int.{ℤ, pos, negsuc}
use prosody_trunk.Lua.{Value, boolean, integer}
use prosody_trunk.Poll.WatchList.{Op, add, set, del, wants_step, wants_run, run}
use prosody_trunk.Poll.Select
use prosody_trunk.Poll.Select.{l_new, fd_zero, fd_setsize, is_ready}
use prosody_trunk.Poll.Select.Watch
use prosody_trunk.Poll.Select.Session.{select_watch_list}
use prosody_trunk.Poll.Agree.{select-epoll}
use prosody_trunk.Poll.Epoll.{
  State, max_events, Ctl, ctl_add, ctl_mod, ctl_del, Kernel, ready, Answer, event_values, l_del,
  l_wait,
}
use prosody_trunk.Poll.Epoll.Stale.{l_wait-l_del}
use prosody_trunk.Poll.Epoll.Handout.{hand_out, l_wait-hand_out}
use prosody_trunk.Poll.Epoll.Watched.{put, KeepsInterest, view, epoll_watch_list, epoll_refines}

-- Whether a control call on an entry succeeds.
control : Ctl → Option ℕ → Option ℕ
control ctl_add none = none
control ctl_add (some old) = some 17
control ctl_mod none = some 2
control ctl_mod (some old) = none
control ctl_del none = some 2
control ctl_del (some old) = none

entered : Ctl → ℕ → Option ℕ → Option ℕ
entered ctl_add mask none = some mask
entered ctl_add mask (some old) = some old
entered ctl_mod mask none = none
entered ctl_mod mask (some old) = some mask
entered ctl_del mask o = none

changed : (ℕ → Option ℕ) → Ctl → ℤ → ℕ → Option ℕ × (ℕ → Option ℕ)
changed m op (negsuc n) mask = (some 9, m)
changed m op (pos fd) mask = (control op (m fd), put m fd (entered op mask (m fd)))

-- The descriptor 3 is the one of epoll; of another, EINVAL is reported.
on_list : (ℕ → Option ℕ) → ℤ → Ctl → ℤ → ℕ → Option ℕ × (ℕ → Option ℕ)
on_list m (pos ep) op fd mask = if ep == 3 then changed m op fd mask else (some 22, m)
on_list m (negsuc ep) op fd mask = (some 9, m)

abbrev one_list : Kernel
one_list = record {
  World = ℕ → Option ℕ;
  epoll_create1 = λ k. (pos 3, 0, k);
  epoll_ctl = on_list;
  close = λ k fd. (none, k);
  strerror = λ e. [];
}

same_entry : (m : ℕ → Option ℕ) (fd j : ℕ) → put m fd (m fd) j ≡ m j
same_entry m fd j = elim (Bool-cases (fd == j)) [
  | inl q ↦ rw q (ap m (eq_of_== fd j q))
  | inr q ↦ rw q refl
]

one_list-adds :
    (k : ℕ → Option ℕ) (ep : ℤ) (fd mask : ℕ)
    → ep ≡ pos 3
    → k fd ≡ none
    → ((on_list k ep ctl_add (pos fd) mask).0 ≡ none)
      × (ep ≡ pos 3)
      × ((j : ℕ) → (on_list k ep ctl_add (pos fd) mask).1 j ≡ put k fd (some mask) j)
unfolding on_list changed control entered
one_list-adds k ep fd mask i e = rw (i, e) (refl, refl, λ j. refl)

one_list-adds_once :
    (k : ℕ → Option ℕ) (ep : ℤ) (fd mask old : ℕ)
    → ep ≡ pos 3
    → k fd ≡ some old
    → ((e : ℕ) × ((on_list k ep ctl_add (pos fd) mask).0 ≡ some e))
      × (ep ≡ pos 3)
      × ((j : ℕ) → (on_list k ep ctl_add (pos fd) mask).1 j ≡ k j)
unfolding on_list changed control entered
one_list-adds_once k ep fd mask old i e =
    rw (i, e) ((17, refl), refl, λ j. ap (λ o. put k fd o j) (sym e) ∙ same_entry k fd j)

one_list-changes :
    (k : ℕ → Option ℕ) (ep : ℤ) (fd mask old : ℕ)
    → ep ≡ pos 3
    → k fd ≡ some old
    → ((on_list k ep ctl_mod (pos fd) mask).0 ≡ none)
      × (ep ≡ pos 3)
      × ((j : ℕ) → (on_list k ep ctl_mod (pos fd) mask).1 j ≡ put k fd (some mask) j)
unfolding on_list changed control entered
one_list-changes k ep fd mask old i e = rw (i, e) (refl, refl, λ j. refl)

one_list-removes :
    (k : ℕ → Option ℕ) (ep : ℤ) (fd mask old : ℕ)
    → ep ≡ pos 3
    → k fd ≡ some old
    → ((on_list k ep ctl_del (pos fd) mask).0 ≡ none)
      × (ep ≡ pos 3)
      × ((j : ℕ) → (on_list k ep ctl_del (pos fd) mask).1 j ≡ put k fd none j)
unfolding on_list changed control entered
one_list-removes k ep fd mask old i e = rw (i, e) (refl, refl, λ j. refl)

one_list-KeepsInterest : KeepsInterest one_list
one_list-KeepsInterest = record {
  interest = λ k ep fd. k fd;
  Pollable = λ fd. fd ≤ 9;
  Ready = λ k ep. ep ≡ pos 3;
  adds = λ k ep fd mask i u e. one_list-adds k ep fd mask i e;
  adds_once = λ k ep fd mask old i u e. one_list-adds_once k ep fd mask old i e;
  changes = λ k ep fd mask old i u e. one_list-changes k ep fd mask old i e;
  removes = λ k ep fd mask old i u e. one_list-removes k ep fd mask old i e;
}

abbrev idle : State
idle = record {
  processed = 0;
  epoll_fd = pos 3;
  events = (pos 0, 0) ∷ (pos 0, 0) ∷ (pos 0, 0) ∷ [];
}

abbrev calls : List Op
calls = add 5 true false ∷ add 5 true true ∷ set 5 false true ∷ add 6 true true ∷ del 5 ∷ []

answers_of_calls : (wants_run (λ k. none) calls).0 ≡ true ∷ false ∷ true ∷ true ∷ true ∷ []
unfolding wants_run wants_step
answers_of_calls = refl

epoll_refines_example :
    (s' : State × (ℕ → Option ℕ)) × (run
        (epoll_watch_list one_list one_list-KeepsInterest 0)
        (idle, λ k. none)
        calls
      ≡ some ((wants_run (λ k. none) calls).0, s'))
    × (view one_list one_list-KeepsInterest 0 s' ≡ (wants_run (λ k. none) calls).1)
unfolding one_list-KeepsInterest wants_step
epoll_refines_example =
    epoll_refines one_list one_list-KeepsInterest 0 calls (idle, λ k. none) refl
      (
        omega arith,
        tt,
        (
          omega arith,
          tt,
          (
            omega arith,
            ((true, false), refl),
            (omega arith, tt, (omega arith, ((false, true), refl), tt)),
          ),
        ),
      )

select-epoll_example :
    (answers : List Bool) × (s' : Select.State) × (t' : State × (ℕ → Option ℕ)) × (run
        (select_watch_list (λ e. []))
        l_new
        calls
      ≡ some (answers, s'))
    × (run (epoll_watch_list one_list one_list-KeepsInterest 0) (idle, λ k. none) calls
        ≡ some (answers, t'))
    × (Select.Watch.view s' ≡ view one_list one_list-KeepsInterest 0 t')
unfolding one_list-KeepsInterest wants_step l_new fd_zero
select-epoll_example =
    select-epoll (λ e. []) one_list one_list-KeepsInterest 0 calls l_new (idle, λ k. none) refl refl
      (
        omega arith,
        tt,
        (
          omega arith,
          tt,
          (
            omega arith,
            ((true, false), refl),
            (omega arith, tt, (omega arith, ((false, true), refl), tt)),
          ),
        ),
      )
      (
        omega arith,
        tt,
        (
          omega arith,
          tt,
          (
            omega arith,
            ((true, false), refl),
            (omega arith, tt, (omega arith, ((false, true), refl), tt)),
          ),
        ),
      )

l_wait-hand_out_example :
    (first : List Value) × (st' : State) × (l_wait
        (λ e. [])
        idle
        (some (ready ((pos 7, 1) ∷ (pos 8, 4) ∷ [])))
      ≡ some (first, st'))
    × (first ∷ (hand_out max_events st').0 ≡ map event_values ((pos 8, 4) ∷ (pos 7, 1) ∷ []))
    × ((hand_out max_events st').1.processed ≡ 0)
l_wait-hand_out_example =
    l_wait-hand_out (λ e. []) idle (pos 7, 1) ((pos 8, 4) ∷ []) refl (omega arith)

-- A descriptor that hung up counts as readable.
hangup : event_values (pos 7, 16) ≡ integer (pos 7) ∷ boolean true ∷ boolean false ∷ []
unfolding event_values
hangup = refl

-- The descriptor 6 is watched, and its event is the next one to be handed out.
abbrev pending : State
pending = record idle { processed = 2; events = (pos 5, 1) ∷ (pos 6, 4) ∷ [] }

abbrev only_6 : ℕ → Option ℕ
only_6 = λ fd. if fd == 6 then some 31 else none

l_wait-l_del_example :
    (k' : ℕ → Option ℕ) × (l_del one_list (pending, only_6) (pos 6) 0
      ≡ (boolean true ∷ [], (pending, k')))
    × (view one_list one_list-KeepsInterest 0 (pending, k') 6 ≡ none)
    × ((answer : Option Answer)
        → l_wait (λ e. []) pending answer
          ≡ some (event_values (pos 6, 4), record pending { processed = 1 }))
    × ((s : Select.State)
        → 6 < fd_setsize
        → (s' : Select.State) × (Select.l_del (λ e. []) s (pos 6) ≡ some (boolean true ∷ [], s'))
          × (is_ready s' 6 ≡ false))
unfolding one_list-KeepsInterest
l_wait-l_del_example =
    l_wait-l_del one_list one_list-KeepsInterest 0 (λ e. []) pending only_6 1 6 4 31 refl
      (omega arith) refl refl refl
