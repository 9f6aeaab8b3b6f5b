-- ===== src/Poll/Select/Machine.antt =====
-- util-src/poll.c over `select` as a state machine: the calls of `Ladd`, `Lset`, `Ldel` and `Lwait` in
-- any order.
use prosody_trunk.Base.{
  ℕ, zero, suc, ◌+◌, ◌-◌, ◌≡◌, ◌⊎◌, inl, inr, refl, sym, ap, ◌∙◌, Bool, true, Option, none, some,
  Bool-cases, ◌==◌, arith,
}
use prosody_trunk.Base.{List, [], ◌∷◌}
use mathlib.Core.Path.{subst}
use prosody_trunk.Base.Int.{ℤ, pos, negsuc}
use prosody_trunk.Lua.{Value, integer}
use prosody_trunk.Poll.Select.{
  fd_setsize, fd_zero, eintr, State, l_new, is_ready, event_at, taken, next_fd, scan, l_pushevent,
  Answer, ready, timeout, failed, armed, failure, l_add, l_set, l_del, answered, wait_after, l_wait,
}
use prosody_trunk.Poll.Select.Kept.{
  Within, IsKept, Within-clr, l_add-IsKept, l_set-IsKept, l_del-IsKept,
}

-- `select` leaves in each set only descriptors that were in it.
abbrev pub Answers : State → Option Answer → Type 0
Answers st none = Unit {0}
Answers st (some (ready r w e)) = Within r st.wantread × Within w st.wantwrite × Within e st.all
Answers st (some (timeout r w e)) = Within r st.wantread × Within w st.wantwrite × Within e st.all
Answers st (some (failed e)) = Unit {0}

-- What a call leaves is in order, and if it returns an event that is about a watched descriptor.
abbrev Fine : State → List Value × State → Type 0
Fine st (values, st') =
    IsKept st'
    × ((fd : ℕ) (rest : List Value) → values ≡ integer (pos fd) ∷ rest → st.all fd ≡ true)

-- A scan finds nothing, or a descriptor that is ready.
scan-cases :
    (n fd : ℕ) (st : State)
    → (scan n fd st ≡ ([], st))
      ⊎ ((k : ℕ) × (is_ready st k ≡ true) × (scan n fd st ≡ (event_at st k, taken st k)))
unfolding scan
scan-cases zero fd st = inl refl
scan-cases (suc n) fd st = elim (Bool-cases (is_ready st fd)) [
  | inl h ↦ inr (fd, h, rw h refl)
  | inr h ↦ rw h (scan-cases n (fd + 1) st)
]

taken-IsKept : (st : State) (fd : ℕ) → IsKept st → IsKept (taken st fd)
unfolding taken
taken-IsKept st fd i = record {
  wantread = i.wantread;
  wantwrite = i.wantwrite;
  readable = Within-clr fd st.readable st.all i.readable;
  writable = Within-clr fd st.writable st.all i.writable;
  err = Within-clr fd st.err st.all i.err;
}

ready_watched : (st : State) (k : ℕ) → IsKept st → is_ready st k ≡ true → st.all k ≡ true
unfolding is_ready
ready_watched st k i h = ground (arith, i.readable k, i.writable k, i.err k)

event_fd :
    (st : State) (k fd : ℕ) (rest : List Value) → event_at st k ≡ integer (pos fd) ∷ rest → k ≡ fd
unfolding event_at
event_fd st k fd rest e = cc e

event-Fine :
    (st : State) (k : ℕ) → IsKept st → is_ready st k ≡ true → Fine st (event_at st k, taken st k)
event-Fine st k i h = (
  taken-IsKept st k i,
  λ fd rest e. ap st.all (sym (event_fd st k fd rest e)) ∙ ready_watched st k i h,
)

l_pushevent-Fine : (st : State) → IsKept st → Fine st (l_pushevent st)
unfolding l_pushevent
l_pushevent-Fine st i =
    elim (scan-cases (fd_setsize - next_fd st.processed) (next_fd st.processed) st) [
      | inl e ↦ subst (Fine st) (sym e) (i, λ fd rest q. cc q)
      | inr (k, h, e) ↦ subst (Fine st) (sym e) (event-Fine st k i h)
    ]

-- The sets as `select` answers, at any position of the scan.
answer-IsKept :
    (st : State) (r w e : ℕ → Bool) (p : ℤ)
    → IsKept st
    → Within r st.wantread × Within w st.wantwrite × Within e st.all
    → IsKept (record st { readable = r; writable = w; err = e; processed = p })
answer-IsKept st r w e p i (rs, ws, es) = record {
  wantread = i.wantread;
  wantwrite = i.wantwrite;
  readable = λ k h. i.wantread k (rs k h);
  writable = λ k h. i.wantwrite k (ws k h);
  err = es;
}

armed-IsKept : (st : State) → IsKept st → IsKept (armed st)
unfolding armed
armed-IsKept st i = record {
  wantread = i.wantread;
  wantwrite = i.wantwrite;
  readable = i.wantread;
  writable = i.wantwrite;
  err = λ k h. h;
}

module _ (strerror : ℕ → List ℕ) where
  answered-Fine :
      (st : State) (a : Answer)
      → IsKept st
      → Answers st (some a)
      → Fine st (answered strerror a (armed st))
  unfolding answered armed
  answered-Fine st (ready r w e) i a = l_pushevent-Fine _ (answer-IsKept st r w e (negsuc 0) i a)
  answered-Fine st (timeout r w e) i a =
      (answer-IsKept st r w e st.processed i a, λ fd rest q. cc q)
  answered-Fine st (failed e) i a = elim (Bool-cases (e == eintr)) [
    | inl h ↦ rw h (armed-IsKept st i, λ fd rest q. cc q)
    | inr h ↦ rw h (armed-IsKept st i, λ fd rest q. unfold failure in cc q)
  ]

  pub l_wait-Fine :
      (st st' : State) (answer : Option Answer) (values : List Value)
      → IsKept st
      → Answers st answer
      → l_wait strerror st answer ≡ some (values, st')
      → Fine st (values, st')
  unfolding l_wait l_pushevent wait_after
  l_wait-Fine st st' answer values i a e =
      elim (scan-cases (fd_setsize - next_fd st.processed) (next_fd st.processed) st) [
        | inl q ↦ idle answer a (ap (wait_after strerror answer) (sym q) ∙ e)
        | inr (k, h, q) ↦
            returned (event_at st k, taken st k) (event-Fine st k i h)
              (unfold event_at in ap (wait_after strerror answer) (sym q) ∙ e)
      ]
    where
      returned :
          (p : List Value × State) → Fine st p → some p ≡ some (values, st') → Fine st (values, st')
      returned p f e = subst (Fine st) (ap (λ o. elim o [ none ↦ p | some q ↦ q ]) e) f

      idle :
          (answer : Option Answer)
          → Answers st answer
          → wait_after strerror answer ([], st) ≡ some (values, st')
          → Fine st (values, st')
      idle none a e = cc e
      idle (some answer) a e = returned _ (answered-Fine st answer i a) e

  -- The calls, as far as they do not fault. `Lset` is called on what is watched.
  pub data Step : State → State → Type 0 where
    adds :
        {st st' : State} {reply : List Value} (fd : ℤ) (r w : Bool)
        → l_add strerror st fd r w ≡ some (reply, st')
        → Step st st'
    sets :
        {st st' : State} {reply : List Value} (fd : ℕ) (args : List Value)
        → st.all fd ≡ true
        → l_set strerror st (pos fd) args ≡ some (reply, st')
        → Step st st'
    dels :
        {st st' : State} {reply : List Value} (fd : ℤ)
        → l_del strerror st fd ≡ some (reply, st')
        → Step st st'
    waits :
        {st st' : State} {reply : List Value} (answer : Option Answer)
        → Answers st answer
        → l_wait strerror st answer ≡ some (reply, st')
        → Step st st'

  pub data Reach : State → Type 0 where
    new : Reach l_new
    later : {st st' : State} → Reach st → Step st st' → Reach st'

  Step-IsKept : {st st' : State} → Step st st' → IsKept st → IsKept st'
  Step-IsKept {st} {st'} (adds {reply} fd r w e) i = l_add-IsKept strerror st st' fd r w reply i e
  Step-IsKept {st} {st'} (sets {reply} fd args a e) i =
      l_set-IsKept strerror st st' fd args reply i a e
  Step-IsKept {st} {st'} (dels {reply} fd e) i = l_del-IsKept strerror st st' fd reply i e
  Step-IsKept {st} {st'} (waits {reply} answer a e) i = (l_wait-Fine st st' answer reply i a e).0

  pub Reach-IsKept : {st : State} → Reach st → IsKept st
  unfolding l_new fd_zero
  Reach-IsKept new = record {
    wantread = λ k h. cc h;
    wantwrite = λ k h. cc h;
    readable = λ k h. cc h;
    writable = λ k h. cc h;
    err = λ k h. cc h;
  }
  Reach-IsKept (later r s) = Step-IsKept s (Reach-IsKept r)

  -- After any calls of `Ladd`, `Lset`, `Ldel` and `Lwait` on a new object, where `Lset` is called on what is
  -- watched and `select` leaves in its sets only what was in them, also after a wait that was
  -- interrupted: an event that `Lwait` returns is about a descriptor that is watched at that time. So
  -- nothing is returned for a descriptor after `Ldel` until it is added again.
  pub l_wait-watched :
      (st st' : State) (answer : Option Answer) (fd : ℕ) (rest : List Value)
      → Reach st
      → Answers st answer
      → l_wait strerror st answer ≡ some (integer (pos fd) ∷ rest, st')
      → st.all fd ≡ true
  l_wait-watched st st' answer fd rest r a e =
      (l_wait-Fine st st' answer (integer (pos fd) ∷ rest) (Reach-IsKept r) a e).1 fd rest refl
