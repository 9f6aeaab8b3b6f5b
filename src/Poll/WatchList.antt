-- ===== src/Poll/WatchList.antt =====
-- What the two versions of util-src/poll.c promise of the watch list: an interface, and what a client
-- sees of any implementation of it.
use prosody_trunk.Base.{ℕ, ◌≡◌, refl, sym, ap, ◌∙◌, Bool, true, false, Option, none, some, ◌>>=◌}
use prosody_trunk.Base.{List, [], ◌∷◌, ◌==◌, if◌then◌else◌, Option-cases, inl, inr}
use mathlib.Core.Path.{fun_ext, subst}
use prosody_trunk.Lua.{Value, nil, boolean, to_boolean}

-- A descriptor that is watched has what is wanted of it: to read, and to write.
abbrev pub Wants : Type 0
Wants = ℕ → Option (Bool × Bool)

abbrev pub update : Wants → ℕ → Option (Bool × Bool) → Wants
update m fd entry k = if fd == k then entry else m k

-- The reply of a call: true, or nil with an error.
abbrev pub Done : Type 0 → Type 0
Done State = Option (List Value × State)

-- A call replied true and left this watch list.
abbrev pub Accepts :
    {State : Type 0} → (State → Type 0) → (State → Wants) → Done State → Wants → Type 0
Accepts {State} Sane view reply m =
    (st' : State) × (reply ≡ some (boolean true ∷ [], st'))
    × Sane st'
    × ((k : ℕ) → view st' k ≡ m k)

-- A call replied an error and left the watch list alone.
abbrev pub Refuses :
    {State : Type 0} → (State → Type 0) → (State → Wants) → Done State → Wants → Type 0
Refuses {State} Sane view reply m =
    (st' : State) × (rest : List Value) × (reply ≡ some (nil ∷ rest, st'))
    × Sane st'
    × ((k : ℕ) → view st' k ≡ m k)

-- The operations, and their laws in sane states, on the descriptors that can be used.
pub record WatchList : Type 1 where
  pub State : Type 0
  pub view : State → Wants
  pub Sane : State → Type 0
  pub Usable : ℕ → Type 0
  pub add : State → ℕ → Bool → Bool → Done State
  pub set : State → ℕ → Bool → Bool → Done State
  pub del : State → ℕ → Done State
  pub add_new :
      (st : State) (fd : ℕ) (r w : Bool)
      → Sane st
      → Usable fd
      → view st fd ≡ none
      → Accepts Sane view (add st fd r w) (update (view st) fd (some (r, w)))
  pub add_again :
      (st : State) (fd : ℕ) (r w : Bool) (e : Bool × Bool)
      → Sane st
      → Usable fd
      → view st fd ≡ some e
      → Refuses Sane view (add st fd r w) (view st)
  pub set_watched :
      (st : State) (fd : ℕ) (r w : Bool) (e : Bool × Bool)
      → Sane st
      → Usable fd
      → view st fd ≡ some e
      → Accepts Sane view (set st fd r w) (update (view st) fd (some (r, w)))
  pub del_watched :
      (st : State) (fd : ℕ) (e : Bool × Bool)
      → Sane st
      → Usable fd
      → view st fd ≡ some e
      → Accepts Sane view (del st fd) (update (view st) fd none)

pub data Op : Type 0 where
  add set : ℕ → Bool → Bool → Op
  del : ℕ → Op

abbrev pub fd_of : Op → ℕ
fd_of (add fd r w) = fd
fd_of (set fd r w) = fd
fd_of (del fd) = fd

-- The specification of one call: whether it is accepted, and the watch list after it.
unfoldable pub wants_step : Wants → Op → Bool × Wants
wants_step m (add fd r w) = elim (m fd) [
  | none ↦ (true, update m fd (some (r, w)))
  | some e ↦ (false, m)
]
wants_step m (set fd r w) = (true, update m fd (some (r, w)))
wants_step m (del fd) = (true, update m fd none)

unfoldable pub wants_run : Wants → List Op → List Bool × Wants
wants_run m [] = ([], m)
wants_run m (op ∷ ops) =
    let (answer, m') = wants_step m op in
    let (answers, m'') = wants_run m' ops in (answer ∷ answers, m'')

-- What a caller must keep to: it changes and removes only what it watches.
abbrev pub IsProper : Wants → Op → Type 0
IsProper m (add fd r w) = Unit {0}
IsProper m (set fd r w) = (e : Bool × Bool) × (m fd ≡ some e)
IsProper m (del fd) = (e : Bool × Bool) × (m fd ≡ some e)

abbrev pub AllProper : (ℕ → Type 0) → Wants → List Op → Type 0
AllProper U m [] = Unit {0}
AllProper U m (op ∷ ops) = U (fd_of op) × IsProper m op × AllProper U (wants_step m op).1 ops

abbrev pub accepted : List Value → Bool
accepted [] = false
accepted (v ∷ vs) = to_boolean v

module _ (W : WatchList) where
  pub step : W.State → Op → Option (List Value × W.State)
  step st (add fd r w) = W.add st fd r w
  step st (set fd r w) = W.set st fd r w
  step st (del fd) = W.del st fd

  -- The session, with whether each call was accepted.
  pub run : W.State → List Op → Option (List Bool × W.State)
  run st [] = some ([], st)
  run st (op ∷ ops) = do
    (reply, st') ← step st op
    (answers, st'') ← run st' ops
    some (accepted reply ∷ answers, st'')

  abbrev Refines : W.State → Op → Type 0
  Refines st op =
      (reply : List Value) × (st' : W.State) × (step st op ≡ some (reply, st'))
      × W.Sane st'
      × (accepted reply ≡ (wants_step (W.view st) op).0)
      × (W.view st' ≡ (wants_step (W.view st) op).1)

  step-Refines :
      (st : W.State) (op : Op)
      → W.Sane st
      → W.Usable (fd_of op)
      → IsProper (W.view st) op
      → Refines st op
  unfolding step wants_step
  step-Refines st (add fd r w) i u p = elim (Option-cases (W.view st fd)) [
    | inl e ↦
        let (st', q, j, m) = W.add_new st fd r w i u e in
        (_, st', q, j, rw (wants_step, e) refl, rw (wants_step, e) (fun_ext m))
    | inr (old, e) ↦
        let (st', rest, q, j, m) = W.add_again st fd r w old i u e in
        (_, st', q, j, rw (wants_step, e) refl, rw (wants_step, e) (fun_ext m))
  ]
  step-Refines st (set fd r w) i u (e, p) =
      let (st', q, j, m) = W.set_watched st fd r w e i u p in (_, st', q, j, refl, fun_ext m)
  step-Refines st (del fd) i u (e, p) =
      let (st', q, j, m) = W.del_watched st fd e i u p in (_, st', q, j, refl, fun_ext m)

  -- A proper session answers as the specification does and ends with its watch list.
  pub session_refines :
      (ops : List Op) (st : W.State)
      → W.Sane st
      → AllProper W.Usable (W.view st) ops
      → (st' : W.State) × (run st ops ≡ some ((wants_run (W.view st) ops).0, st'))
        × (W.view st' ≡ (wants_run (W.view st) ops).1)
  unfolding run wants_run
  session_refines [] st i p = (st, refl, refl)
  session_refines (op ∷ ops) st i (u, p, ps) =
      let (reply, st', e, j, a, v) = step-Refines st op i u p in
      let (st'', r, k) =
        session_refines ops st' j (subst (λ m. AllProper W.Usable m ops) (sym v) ps) in
      (st'', rw (e, r, a, v) refl, rw v at k)

-- Two implementations that watch the same answer a session alike, and watch the same after it.
pub sessions_agree :
    (V W : WatchList) (ops : List Op) (s : V.State) (t : W.State)
    → V.view s ≡ W.view t
    → V.Sane s
    → W.Sane t
    → AllProper V.Usable (V.view s) ops
    → AllProper W.Usable (W.view t) ops
    → (answers : List Bool) × (s' : V.State) × (t' : W.State) × (run V s ops ≡ some (answers, s'))
      × (run W t ops ≡ some (answers, t'))
      × (V.view s' ≡ W.view t')
sessions_agree V W ops s t e i j p q =
    let (s', r, v) = session_refines V ops s i p in
    let (t', r', v') = session_refines W ops t j q in
    (
      _,
      s',
      t',
      r,
      r' ∙ ap (λ m. some ((wants_run m ops).0, t')) (sym e),
      v ∙ ap (λ m. (wants_run m ops).1) e ∙ sym v',
    )
