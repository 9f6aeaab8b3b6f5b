-- ===== src/Poll/Select/Examples.antt =====
-- The theorems on small watch lists. The messages of errors are empty here.
use prosody_trunk.Base.{ℕ, ◌≡◌, ◌≢◌, refl, true, false, List, [], ◌∷◌, arith}
use prosody_trunk.Base.{Option, some}
use prosody_trunk.Base.Int.{pos}
use prosody_trunk.Base.Text.{bytes}
use prosody_trunk.Base.{Bool, none, ◌<◌}
use prosody_trunk.Lua.{Value, nil, boolean, string}
use prosody_trunk.Poll.Select.{
  FdSet, event_at, taken, fd_setsize, eintr, State, l_new, fd_zero, fd_set, is_ready, scan, next_fd,
  l_pushevent, Answer, ready, failed, armed, l_set, l_wait,
}
use prosody_trunk.Poll.Select.Watch.{wishes, view, l_set_unwatched}
use prosody_trunk.Poll.WatchList.{Op, update, add, set, del, wants_step, wants_run, run}
use prosody_trunk.Poll.Select.Session.{select_watch_list, select_refines}
use prosody_trunk.Poll.Select.{fd_clr, fd_put, l_add, wait_after, answered}
use prosody_trunk.Poll.Select.Kept.{Within}
use prosody_trunk.Poll.Select.Machine.{Reach, new, later, adds, l_wait-watched}
use prosody_trunk.Poll.Select.Drain.{events, drain}
use prosody_trunk.Poll.Select.Interrupt.{l_wait_interrupted}

abbrev quiet : ℕ → List ℕ
quiet e = []

abbrev only : ℕ → FdSet
only = λ fd. fd_set fd fd_zero

-- One watched descriptor, where the last event was that of descriptor 1020.
abbrev watching : State
watching = record l_new { processed = pos 1020; all = only 1022; wantread = only 1022 }

-- Two events are pending.
abbrev busy : State
busy = record watching { readable = only 1021; writable = only 1023 }

pending_events : drain 4 busy ≡ events 3 1021 busy
unfolding drain events l_pushevent scan next_fd l_new is_ready fd_set event_at taken
pending_events = refl

nothing_pending : (l_pushevent watching).0 ≡ []
unfolding l_pushevent scan next_fd l_new fd_zero is_ready
nothing_pending = refl

l_wait_interrupted_example :
    (l_wait quiet watching (some (failed eintr))
      ≡ some (nil ∷ string (bytes "signal") ∷ [], armed watching))
    × ((l_pushevent (armed watching)).0 ≢ [])
    × ((answer : Option Answer)
        → l_wait quiet (armed watching) answer ≡ some (l_pushevent (armed watching)))
l_wait_interrupted_example =
    l_wait_interrupted quiet watching 1020 1022 nothing_pending refl (omega arith) (omega arith)
      (unfold fd_set in refl)

l_set_unwatched_example :
    ((args : List Value)
      → (st' : State) × (l_set quiet l_new (pos 7) args ≡ some (boolean true ∷ [], st'))
        × (view st' 7 ≡ none))
    × ((st' : State) × (l_set quiet l_new (pos 7) [] ≡ some (boolean true ∷ [], st'))
        × (st'.wantwrite 7 ≡ true)
        × (st'.wantread 7 ≡ l_new.wantread 7))
l_set_unwatched_example =
    l_set_unwatched quiet l_new 7 (omega arith) (unfold l_new in unfold fd_zero in refl)

abbrev calls : List Op
calls = add 5 true false ∷ add 5 true true ∷ set 5 false true ∷ add 1023 true true ∷ del 5 ∷ []

select_refines_example :
    ((st' : State) × (run (select_watch_list quiet) l_new calls
        ≡ some ((wants_run (view l_new) calls).0, st'))
      × (view st' ≡ (wants_run (view l_new) calls).1))
    × ((fd : ℕ) (r w : Bool) (args : List Value)
        → fd < fd_setsize
        → view l_new fd ≡ some (r, w)
        → (st' : State) × (l_set quiet l_new (pos fd) args ≡ some (boolean true ∷ [], st'))
          × ((k : ℕ) → view st' k ≡ update (view l_new) fd (some (wishes args (r, w))) k))
unfolding wants_step l_new fd_zero
select_refines_example = select_refines quiet calls l_new (
  omega arith,
  tt,
  (
    omega arith,
    tt,
    (
      omega arith,
      ((true, false), refl),
      (omega arith, tt, (omega arith, ((false, true), refl), tt)),
    ),
  ),
)

-- The descriptor 7 has been added to a new object, to be read.
abbrev watched_7 : State
watched_7 = record l_new {
  readable = fd_clr 7 fd_zero;
  writable = fd_clr 7 fd_zero;
  err = fd_clr 7 fd_zero;
  all = only 7;
  wantread = fd_put true 7 fd_zero;
  wantwrite = fd_put false 7 fd_zero;
}

watched_7-Reach : Reach quiet watched_7
unfolding l_add l_new fd_zero
watched_7-Reach = later new (adds {reply = boolean true ∷ []} (pos 7) true false refl)

readable_7 : Within (only 7) watched_7.wantread
unfolding fd_set fd_put fd_zero
readable_7 k h = h

l_wait-watched_example : watched_7.all 7 ≡ true
unfolding l_wait l_pushevent scan is_ready fd_set fd_clr fd_put fd_zero l_new next_fd event_at taken
    wait_after answered armed
l_wait-watched_example =
    l_wait-watched quiet watched_7 _ (some (ready (only 7) fd_zero fd_zero)) 7
      (boolean true ∷ boolean false ∷ []) watched_7-Reach (readable_7, λ k h. cc h, λ k h. cc h)
      refl
