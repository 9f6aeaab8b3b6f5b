-- ===== src/Signal/Turns.antt =====
-- `sighook`: the pending signals have their turn in order, those that arrive meanwhile behind them, and
-- each is served by the function that the table has when its turn comes.
use prosody_trunk.Base.{ℕ, zero, suc, ◌≤◌, ◌<◌, ◌≡◌, ◌==◌, ◌⊎◌, refl, true, none, some, arith}
use prosody_trunk.Base.{
  List, [], ◌∷◌, ◌++◌, All, All-append, length, ap, sym, ◌∙◌, inl, inr, Bool-cases, ltb,
}
use prosody_trunk.Base.{append-nil, Bool, Option}
use prosody_trunk.Lua.{Value}
use prosody_trunk.Base.Int.{ℤ}
use mathlib.Core.Path.{subst}
use prosody_trunk.Signal.{
  max_pending_signals, State, hooked, handle, Event, arrived, signalled, happen, happens, nth,
}
use prosody_trunk.Signal.Queue.{Grows, Grows-refl, Grows-trans, Grows-length, handle-Grows}
use prosody_trunk.Signal.Table.{IsFunction, IsValid, l_signal-Untouched, replied-IsValid}

-- Every pending signal has a function.
abbrev pub AllSet : State → Type 0
AllSet st = All (λ sig. IsFunction (st.lua_signal sig)) st.signals

-- A call of `l_signal` spares the queue: no signal in it that has a function is left with none.
abbrev pub Spares : State → (List ℕ → Option ℤ) → (ℤ → Bool) → List Value → Type 0
Spares st lua_signals accepts args =
    All
      (λ sig.
        IsFunction (st.lua_signal sig)
        → IsFunction ((happen st (signalled lua_signals accepts args)).lua_signal sig))
      st.signals

-- What may happen: only signals that the process handles arrive, and calls of `l_signal` spare the
-- queue, in which the signals stay that have had their turn until the run ends.
abbrev pub Allowed : State → Event → Type 0
Allowed st (arrived sig) = st.handled sig ≡ true
Allowed st (signalled lua_signals accepts args) = Spares st lua_signals accepts args

abbrev pub AllAllowed : State → List Event → Type 0
AllAllowed st [] = Unit {0}
AllAllowed st (e ∷ es) = Allowed st e × AllAllowed (happen st e) es

pub record IsReady (st : State) : Type 0 where
  pub fits : length st.signals ≤ max_pending_signals
  pub set : AllSet st
  pub valid : IsValid st

-- A signal changes neither the table nor what is handled.
pub handle_table : (st : State) (sig : ℤ) → (handle st sig).lua_signal ≡ st.lua_signal
unfolding handle hooked
handle_table st sig = ground arith

pub handle_handled : (st : State) (sig : ℤ) → (handle st sig).handled ≡ st.handled
unfolding handle hooked
handle_handled st sig = ground arith

-- A signal enters the queue behind the others, or finds no place.
pub handle-signals :
    (st : State) (sig : ℤ)
    → ((handle st sig).signals ≡ st.signals) ⊎ ((handle st sig).signals ≡ st.signals ++ sig ∷ [])
unfolding handle hooked
handle-signals st sig = elim (Bool-cases (length st.signals == 0)) [
  | inl e ↦ rw e (elim (Bool-cases (ltb (length st.signals) max_pending_signals)) [
    | inl l ↦ rw l (inr refl)
    | inr l ↦ rw l (inl refl)
  ])
  | inr e ↦ rw e (elim (Bool-cases (ltb (length st.signals) max_pending_signals)) [
    | inl l ↦ rw l (inr refl)
    | inr l ↦ rw l (inl refl)
  ])
]

pub handle-AllSet :
    (st : State) (sig : ℤ) → AllSet st → IsFunction (st.lua_signal sig) → AllSet (handle st sig)
handle-AllSet st sig a f =
    subst (λ t. All (λ k. IsFunction (t k)) (handle st sig).signals) (sym (handle_table st sig))
      (elim (handle-signals st sig) [
        | inl e ↦ subst (All (λ k. IsFunction (st.lua_signal k))) (sym e) a
        | inr e ↦
            subst (All (λ k. IsFunction (st.lua_signal k))) (sym e)
              (All-append _ st.signals (sig ∷ []) a (f, tt))
      ])

pub handle-IsValid : (st : State) (sig : ℤ) → IsValid st → IsValid (handle st sig)
handle-IsValid st sig v k h =
    subst (λ t. IsFunction (t k)) (sym (handle_table st sig))
      (v k (ap (λ t. t k) (sym (handle_handled st sig)) ∙ h))

spared : (P Q : ℤ → Type 0) (xs : List ℤ) → All (λ k. P k → Q k) xs → All P xs → All Q xs
spared P Q [] h p = tt
spared P Q (x ∷ xs) (f, h) (a, p) = (f a, spared P Q xs h p)

-- A call that spares the queue leaves every signal in it with a function.
pub happen-AllSet :
    (lua_signals : List ℕ → Option ℤ) (accepts : ℤ → Bool) (st : State) (args : List Value)
    → AllSet st
    → Spares st lua_signals accepts args
    → AllSet (happen st (signalled lua_signals accepts args))
unfolding happen
happen-AllSet lua_signals accepts st args a h =
    let u = l_signal-Untouched lua_signals accepts st args in
    let st' = happen st (signalled lua_signals accepts args) in
    subst (All (λ k. IsFunction (st'.lua_signal k))) (sym u.signals) (
      spared (λ k. IsFunction (st.lua_signal k)) (λ k. IsFunction (st'.lua_signal k)) st.signals h
        a)

happen-Grows :
    (st : State) (e : Event)
    → 0 < length st.signals
    → length st.signals ≤ max_pending_signals
    → Grows st (happen st e)
unfolding happen
happen-Grows st (arrived sig) h b = handle-Grows st sig h b
happen-Grows st (signalled lua_signals accepts args) h b =
    let u = l_signal-Untouched lua_signals accepts st args in
    record {
      more = [];
      signals = u.signals ∙ sym (append-nil st.signals);
      fits = subst (λ s. length s ≤ max_pending_signals) (sym u.signals) b;
      hook = u.hook;
      stored = u.stored;
    }

happen-IsReady :
    (st : State) (e : Event)
    → 0 < length st.signals
    → IsReady st
    → Allowed st e
    → IsReady (happen st e)
happen-IsReady st (arrived sig) h r a = record {
  fits = (happen-Grows st (arrived sig) h r.fits).fits;
  set = unfold happen in handle-AllSet st sig r.set (r.valid sig a);
  valid = unfold happen in handle-IsValid st sig r.valid;
}
happen-IsReady st (signalled lua_signals accepts args) h r a = record {
  fits = (happen-Grows st (signalled lua_signals accepts args) h r.fits).fits;
  set = happen-AllSet lua_signals accepts st args r.set a;
  valid = unfold happen in replied-IsValid lua_signals accepts st args r.valid;
}

pub happens-Grows :
    (es : List Event) (st : State)
    → 0 < length st.signals
    → length st.signals ≤ max_pending_signals
    → Grows st (happens st es)
unfolding happens
happens-Grows [] st h b = Grows-refl st b
happens-Grows (e ∷ es) st h b =
    let g = happen-Grows st e h b in
    let l = Grows-length g in Grows-trans g (happens-Grows es (happen st e) (omega arith) g.fits)

stays-IsReady :
    (es : List Event) (st : State)
    → 0 < length st.signals
    → IsReady st
    → AllAllowed st es
    → IsReady (happens st es)
unfolding happens
stays-IsReady [] st h r a = r
stays-IsReady (e ∷ es) st h r (a, rest) =
    let l = Grows-length (happen-Grows st e h r.fits) in
    stays-IsReady es (happen st e) (omega arith) (happen-IsReady st e h r a) rest

pub happens-IsReady :
    (es : List Event) (st : State)
    → 0 < length st.signals
    → IsReady st
    → AllAllowed st es
    → Grows st (happens st es) × IsReady (happens st es)
happens-IsReady es st h r a = (happens-Grows es st h r.fits, stays-IsReady es st h r a)

pub nth-append : (xs ys : List ℤ) (i : ℕ) (x : ℤ) → nth xs i ≡ some x → nth (xs ++ ys) i ≡ some x
unfolding nth
nth-append [] ys i x e = cc e
nth-append (y ∷ xs) ys zero x e = e
nth-append (y ∷ xs) ys (suc i) x e = nth-append xs ys i x e

pub nth-none : (xs : List ℤ) (i : ℕ) → nth xs i ≡ none → length xs ≤ i
unfolding nth
nth-none [] i e = omega arith
nth-none (y ∷ xs) zero e = cc e
nth-none (y ∷ xs) (suc i) e = omega (arith, nth-none xs i e)

pub nth-some : (xs : List ℤ) (i : ℕ) (x : ℤ) → nth xs i ≡ some x → i < length xs
unfolding nth
nth-some [] i x e = cc e
nth-some (y ∷ xs) zero x e = omega arith
nth-some (y ∷ xs) (suc i) x e = omega (arith, nth-some xs i x e)

pub All-nth : (P : ℤ → Type 0) (xs : List ℤ) (i : ℕ) (x : ℤ) → All P xs → nth xs i ≡ some x → P x
unfolding nth
All-nth P [] i x a e = cc e
All-nth P (y ∷ xs) zero x (p, a) e = subst P (cc e) p
All-nth P (y ∷ xs) (suc i) x (p, a) e = All-nth P xs i x a e
