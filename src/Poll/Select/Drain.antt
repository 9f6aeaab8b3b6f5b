-- ===== src/Poll/Select/Drain.antt =====
-- `Lpushevent` over `select`: the events of one wait are handed out in order, each once.
use prosody_trunk.Base.{ℕ, zero, suc, ◌+◌, ◌-◌, ◌≤◌, ◌<◌, ◌≡◌, refl, arith}
use prosody_trunk.Base.{List, [], ◌∷◌, if◌then◌else◌, ap, ◌∙◌, Bool-cases, inl, inr}
use prosody_trunk.Lua.{Value}
use prosody_trunk.Poll.Select.{
  fd_clr, fd_setsize, State, is_ready, event_at, taken, next_fd, scan, l_pushevent,
}

-- The specification: the events of the `n` descriptors from `fd` on that have one, in order.
unfoldable pub events : ℕ → ℕ → State → List (List Value)
events zero fd st = []
events (suc n) fd st =
    let rest = events n (fd + 1) st in if is_ready st fd then event_at st fd ∷ rest else rest

-- The events that repeated calls hand out until there are none.
unfoldable pub drain : ℕ → State → List (List Value)
drain zero st = []
drain (suc fuel) st =
    let (event, st') = l_pushevent st in
    let rest = drain fuel st' in elim event [ [] ↦ [] | v ∷ vs ↦ (v ∷ vs) ∷ rest ]

-- Taking the event of one descriptor leaves those of later ones.
events-taken : (n k fd : ℕ) (st : State) → fd < k → events n k (taken st fd) ≡ events n k st
unfolding events taken is_ready event_at fd_clr
events-taken zero k fd st h = refl
events-taken (suc n) k fd st h = ground (arith, events-taken n (k + 1) fd st (omega arith))

-- What follows a scan from the middle of the sets.
after : ℕ → List Value × State → List (List Value)
after fuel (event, st) =
    let rest = drain fuel st in elim event [ [] ↦ [] | v ∷ vs ↦ (v ∷ vs) ∷ rest ]

after-event :
    (fuel fd : ℕ) (st u : State) → after fuel (event_at st fd, u) ≡ event_at st fd ∷ drain fuel u
unfolding after event_at
after-event fuel fd st u = refl

drain-suc : (fuel : ℕ) (st : State) → drain (suc fuel) st ≡ after fuel (l_pushevent st)
unfolding drain after
drain-suc fuel st = refl

l_pushevent-taken :
    (fd n : ℕ) (st : State)
    → fd + 1 + n ≡ fd_setsize
    → l_pushevent (taken st fd) ≡ scan n (fd + 1) (taken st fd)
unfolding l_pushevent taken next_fd
l_pushevent-taken fd n st e = let m : fd_setsize - (fd + 1) ≡ n = omega arith in rw m

after-scan :
    (n fd fuel : ℕ) (st : State)
    → fd + n ≡ fd_setsize
    → n ≤ fuel
    → after fuel (scan n fd st) ≡ events n fd st
unfolding scan events
after-scan zero fd fuel st e h = unfold after in refl
after-scan (suc n) fd zero st e h = absurd (omega arith)
after-scan (suc n) fd (suc fuel) st e h = elim (Bool-cases (is_ready st fd)) [
  | inl pending ↦ rw pending (
      after-event (suc fuel) fd st (taken st fd)
      ∙ ap (λ t. event_at st fd ∷ t)
          (drain-suc fuel (taken st fd)
            ∙ ap (after fuel) (l_pushevent-taken fd n st (omega arith))
            ∙ after-scan n (fd + 1) fuel (taken st fd) (omega arith) (omega arith)
            ∙ events-taken n (fd + 1) fd st (omega arith)))
  | inr idle ↦ rw idle (after-scan n (fd + 1) (suc fuel) st (omega arith) (omega arith))
]

-- Repeated calls of `Lpushevent` hand out the events of all descriptors from `processed + 1` on, in
-- ascending order and each once, and then nothing. `processed` is below FD_SETSIZE.
pub drain-events :
    (st : State)
    → next_fd st.processed ≤ fd_setsize
    → drain (fd_setsize + 1) st
      ≡ events (fd_setsize - next_fd st.processed) (next_fd st.processed) st
unfolding l_pushevent
drain-events st h =
    drain-suc fd_setsize st
    ∙ after-scan (fd_setsize - next_fd st.processed) (next_fd st.processed) fd_setsize st
        (omega arith) (omega arith)
