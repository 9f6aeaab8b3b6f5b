-- ===== src/Poll/Select/Interrupt.antt =====
-- `Lwait` over `select`: what a call returns, and what an interrupted one leaves behind.
use prosody_trunk.Base.{ℕ, zero, suc, ◌+◌, ◌≤◌, ◌<◌, ◌≡◌, ◌≢◌, refl, true, false, arith}
use prosody_trunk.Base.{List, [], ◌∷◌, ap, ap₂}
use prosody_trunk.Base.{Option, some}
use prosody_trunk.Base.Int.{pos}
use prosody_trunk.Base.Text.{bytes}
use prosody_trunk.Lua.{Value, nil, string}
use prosody_trunk.Poll.Select.{
  fd_setsize, eintr, State, is_ready, event_at, next_fd, scan, l_pushevent, Answer, failed, armed,
  wait_after, l_wait, answered,
}
use native.Mathlib.Decide.{ℕ_discrete}

scan-ne-nil :
    (n k fd : ℕ) (st : State) → k ≤ fd → fd < k + n → is_ready st fd ≡ true → (scan n k st).0 ≢ []
unfolding scan event_at
scan-ne-nil zero k fd st h l r = absurd (omega arith)
scan-ne-nil (suc n) k fd st h l r = elim (ℕ_discrete k fd) [
  | yes e ↦ λ q. cc (found e q)
  | no ne ↦ λ q. ground (arith, q, scan-ne-nil n (k + 1) fd st (omega arith) (omega arith) r)
]
  where
    found : k ≡ fd → (scan (suc n) k st).0 ≡ [] → false ≡ true
    found e q = let r' : is_ready st k ≡ true = rw e r in ground arith

-- A scan that finds nothing changes nothing.
scan-nil : (n k : ℕ) (st : State) → (scan n k st).0 ≡ [] → (scan n k st).1 ≡ st
unfolding scan event_at
scan-nil zero k st e = refl
scan-nil (suc n) k st e = ground (arith, scan-nil n (k + 1) st)

l_pushevent-nil : (st : State) → (l_pushevent st).0 ≡ [] → l_pushevent st ≡ ([], st)
unfolding l_pushevent
l_pushevent-nil st e = pair (l_pushevent st) e (scan-nil _ _ st e)
  where
    pair : (p : List Value × State) → p.0 ≡ [] → p.1 ≡ st → p ≡ ([], st)
    pair (a, b) d f = ap₂ (λ x y. (x, y)) d f

stale_scan :
    (st : State) (p fd : ℕ)
    → st.processed ≡ pos p
    → p < fd
    → fd < fd_setsize
    → is_ready st fd ≡ true
    → (l_pushevent st).0 ≢ []
unfolding l_pushevent
stale_scan st p fd e l m r =
    let q : next_fd st.processed ≡ p + 1 = unfold next_fd in ap next_fd e in
    scan-ne-nil _ (next_fd st.processed) fd st (omega arith) (omega arith) r

module _ (strerror : ℕ → List ℕ) where
  wait_idle :
      (st : State) (a : Answer)
      → (l_pushevent st).0 ≡ []
      → l_wait strerror st (some a) ≡ some (answered strerror a (armed st))
  unfolding l_wait wait_after
  wait_idle st a e = ap (wait_after strerror (some a)) (l_pushevent-nil st e)

  wait_pending :
      (st : State) (answer : Option Answer)
      → (l_pushevent st).0 ≢ []
      → l_wait strerror st answer ≡ some (l_pushevent st)
  unfolding l_wait wait_after
  wait_pending st answer h = go (l_pushevent st) h
    where
      go : (p : List Value × State) → p.0 ≢ [] → wait_after strerror answer p ≡ some p
      go ([], u) h = absurd (h refl)
      go (v ∷ vs, u) h = refl

  -- A wait that a signal interrupts leaves the copies of the wanted sets behind. If a descriptor above
  -- the last one handed out is watched, the next call returns an event from those copies, whatever is
  -- ready, and does not ask the kernel.
  pub l_wait_interrupted :
      (st : State) (p fd : ℕ)
      → (l_pushevent st).0 ≡ []
      → st.processed ≡ pos p
      → p < fd
      → fd < fd_setsize
      → st.all fd ≡ true
      → (l_wait strerror st (some (failed eintr))
          ≡ some (nil ∷ string (bytes "signal") ∷ [], armed st))
        × ((l_pushevent (armed st)).0 ≢ [])
        × ((answer : Option Answer)
            → l_wait strerror (armed st) answer ≡ some (l_pushevent (armed st)))
  unfolding answered armed
  l_wait_interrupted st p fd h e l m a =
      (wait_idle st (failed eintr) h, stale, λ answer. wait_pending (armed st) answer stale)
    where
      is_watched : is_ready (armed st) fd ≡ true
      is_watched = unfold is_ready in ground arith

      stale : (l_pushevent (armed st)).0 ≢ []
      stale = stale_scan (armed st) p fd e l m is_watched
