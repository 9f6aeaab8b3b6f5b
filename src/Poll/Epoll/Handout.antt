-- ===== src/Poll/Epoll/Handout.antt =====
-- `Lwait` and `Lpushevent` over `epoll`: all events that the kernel reports are handed out.
use prosody_trunk.Base.{ℕ, zero, suc, ◌-◌, ◌≤◌, ◌≡◌, refl, sym, ap, ◌∙◌, some, arith}
use prosody_trunk.Base.{
  List, [], ◌∷◌, map, reverse, length, take, get_or, length-append, take-suc, take_all-append,
}
use prosody_trunk.Base.{true, ltb, drop, reverse-append}
use prosody_trunk.Base.Int.{pos}
use prosody_trunk.Lua.{Value}
use prosody_trunk.Poll.Epoll.{
  max_events, State, Event, ready, event_values, l_pushevent, filled, answered, wait_after, l_wait,
}

-- Repeated calls of `Lpushevent` until it has no event: the events, and the state they end in.
pub after_event :
    (State → List (List Value) × State) → List Value × State → List (List Value) × State
after_event again ([], st) = ([], st)
after_event again (v ∷ vs, st) = let rest = again st in ((v ∷ vs) ∷ rest.0, rest.1)

pub hand_out : ℕ → State → List (List Value) × State
hand_out zero st = ([], st)
hand_out (suc fuel) st = after_event (hand_out fuel) (l_pushevent st)

abbrev at : State → ℕ → State
at st n = record st { processed = n }

pushevent-suc :
    (st : State) (n : ℕ)
    → l_pushevent (at st (suc n)) ≡ (event_values (get_or st.events n (pos 0, 0)), at st n)
unfolding l_pushevent
pushevent-suc st n =
    let e : suc n - 1 ≡ n = omega arith in
    let h : ltb 0 (suc n) ≡ true = ground arith in rw (h, e) refl

hand_out-idle : (fuel : ℕ) (st : State) → hand_out fuel (at st 0) ≡ ([], at st 0)
unfolding hand_out after_event l_pushevent
hand_out-idle zero st = refl
hand_out-idle (suc fuel) st = refl

abbrev before : List Value → List (List Value) × State → List (List Value) × State
before e rest = (e ∷ rest.0, rest.1)

hand_out-suc :
    (fuel n : ℕ) (st : State)
    → hand_out (suc fuel) (at st (suc n))
      ≡ before (event_values (get_or st.events n (pos 0, 0))) (hand_out fuel (at st n))
unfolding hand_out after_event event_values
hand_out-suc fuel n st = ap (after_event (hand_out fuel)) (pushevent-suc st n)

-- The first `n` events of the array, the last one first.
hand_out-at :
    (n fuel : ℕ) (st : State)
    → n ≤ fuel
    → n ≤ length st.events
    → hand_out fuel (at st n) ≡ (map event_values (reverse (take n st.events)), at st 0)
hand_out-at zero fuel st h l = hand_out-idle fuel st
hand_out-at (suc n) zero st h l = absurd (omega arith)
hand_out-at (suc n) (suc fuel) st h l =
    hand_out-suc fuel n st
    ∙ ap (before (event_values (get_or st.events n (pos 0, 0))))
        (hand_out-at n fuel st (omega arith) (omega arith))
    ∙ ap (λ es. (map event_values es, at st 0)) (sym turned)
  where
    turned :
        reverse (take (suc n) st.events)
        ≡ get_or st.events n (pos 0, 0) ∷ reverse (take n st.events)
    turned =
        ap reverse (take-suc st.events n (pos 0, 0) (omega arith))
        ∙ reverse-append (take n st.events) (get_or st.events n (pos 0, 0) ∷ [])

-- A wait with nothing pending that is answered with one event or more returns one of them. It and
-- those that the following calls return, before any of them asks the kernel again, are all the events
-- of the answer, each once, the last one first; then nothing is pending.
pub l_wait-hand_out :
    (strerror : ℕ → List ℕ) (st : State) (e : Event) (es : List Event)
    → st.processed ≡ 0
    → length (e ∷ es) ≤ max_events
    → (first : List Value) × (st' : State) × (l_wait strerror st (some (ready (e ∷ es)))
        ≡ some (first, st'))
      × (first ∷ (hand_out max_events st').0 ≡ map event_values (reverse (e ∷ es)))
      × ((hand_out max_events st').1.processed ≡ 0)
unfolding l_wait wait_after answered
l_wait-hand_out strerror st e es idle h = (
  event_values (get_or full.events (length es) (pos 0, 0)),
  at full (length es),
  asked,
  ap (λ r. r.0) (sym (hand_out-suc max_events (length es) full) ∙ all),
  ap (λ r. r.1.processed) (sym (hand_out-suc max_events (length es) full) ∙ all),
)
  where
    full : State
    full = record st { events = filled (e ∷ es) st.events }

    held : take (length (e ∷ es)) full.events ≡ e ∷ es
    held = unfold filled in take_all-append (e ∷ es) _

    room : length (e ∷ es) ≤ length full.events
    room = unfold filled in omega (arith, length-append (e ∷ es) (drop (length (e ∷ es)) st.events))

    all :
        hand_out (suc max_events) (at full (length (e ∷ es)))
        ≡ (map event_values (reverse (e ∷ es)), at full 0)
    all =
        hand_out-at (length (e ∷ es)) (suc max_events) full (omega arith) room
        ∙ ap (λ t. (map event_values (reverse t), at full 0)) held

    quiet : l_pushevent st ≡ ([], st)
    quiet = unfold l_pushevent in ground arith

    asked :
        l_wait strerror st (some (ready (e ∷ es)))
        ≡ some (event_values (get_or full.events (length es) (pos 0, 0)), at full (length es))
    asked =
        ap (wait_after strerror (some (ready (e ∷ es)))) quiet
        ∙ ap some (pushevent-suc full (length es))
