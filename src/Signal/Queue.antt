-- ===== src/Signal/Queue.antt =====
-- `handle` and `sighook`: which functions a run of the hook calls.
use prosody_trunk.Base.{◌≤◌, ◌<◌, ◌≡◌, refl, arith}
use prosody_trunk.Base.{List, [], ◌∷◌, ◌++◌, length, ltb, ap, sym, ◌∙◌, Bool-cases, inl, inr}
use prosody_trunk.Base.{length-append, append-nil, append_assoc}
use mathlib.Core.Path.{subst}
use prosody_trunk.Base.Int.{ℤ}
use prosody_trunk.Signal.{max_pending_signals, sighook, State, hooked, handle, arrive}

-- The array after some signals: a longer one that still fits, beside an unchanged rest.
pub record Grows (st st' : State) : Type 0 where
  pub more : List ℤ
  pub signals : st'.signals ≡ st.signals ++ more
  pub fits : length st'.signals ≤ max_pending_signals
  pub hook : st'.hook ≡ st.hook
  pub stored : st'.stored ≡ st.stored

pub Grows-refl : (st : State) → length st.signals ≤ max_pending_signals → Grows st st
Grows-refl st b = record {
  more = [];
  signals = sym (append-nil st.signals);
  fits = b;
  hook = refl;
  stored = refl;
}

pub Grows-trans : {a b c : State} → Grows a b → Grows b c → Grows a c
Grows-trans {a = a} g h = record {
  more = g.more ++ h.more;
  signals = h.signals ∙ ap (λ s. s ++ h.more) g.signals ∙ append_assoc a.signals g.more h.more;
  fits = h.fits;
  hook = h.hook ∙ g.hook;
  stored = h.stored ∙ g.stored;
}

pub Grows-length : {a b : State} → Grows a b → length a.signals ≤ length b.signals
Grows-length {a = a} g =
    let e = ap length g.signals in omega (arith, length-append a.signals g.more)

handle_full : (st : State) (sig : ℤ) → length st.signals ≡ max_pending_signals → handle st sig ≡ st
unfolding handle hooked
handle_full st sig e = ground arith

handle_pending :
    (st : State) (sig : ℤ)
    → 0 < length st.signals
    → length st.signals < max_pending_signals
    → handle st sig ≡ record st { signals = st.signals ++ sig ∷ [] }
unfolding handle hooked
handle_pending st sig h b = ground arith

pub handle-Grows :
    (st : State) (sig : ℤ)
    → 0 < length st.signals
    → length st.signals ≤ max_pending_signals
    → Grows st (handle st sig)
handle-Grows st sig h b = elim (Bool-cases (ltb (length st.signals) max_pending_signals)) [
  | inl room ↦ subst (Grows st) (sym (handle_pending st sig h (ground arith))) (record {
    more = sig ∷ [];
    signals = refl;
    fits = ground (arith, length-append st.signals (sig ∷ []));
    hook = refl;
    stored = refl;
  })
  | inr full ↦ subst (Grows st) (sym (handle_full st sig (ground arith))) (Grows-refl st b)
]

pub arrive-Grows :
    (sigs : List ℤ) (st : State)
    → 0 < length st.signals
    → length st.signals ≤ max_pending_signals
    → Grows st (arrive st sigs)
unfolding arrive
arrive-Grows [] st h b = Grows-refl st b
arrive-Grows (sig ∷ sigs) st h b =
    let g = handle-Grows st sig h b in
    let l = Grows-length g in
    let r = arrive-Grows sigs (handle st sig) (omega arith) g.fits in Grows-trans g r

-- The queue holds a first signal and others, and the hook of the program is stored.
abbrev pub Began : State → ℤ → State → Type 0
Began st sig u =
    (more : List ℤ) × (u.signals ≡ sig ∷ more)
    × (length u.signals ≤ max_pending_signals)
    × (u.hook ≡ sighook)
    × (u.stored ≡ st.hook)

-- A signal that finds the queue empty stores the hook of the program and installs this module's, and
-- those that follow at once only queue up behind it, at most 32 in all.
pub arrive_idle :
    (st : State) (sig : ℤ) (sigs : List ℤ) → st.signals ≡ [] → Began st sig (arrive st (sig ∷ sigs))
unfolding arrive
arrive_idle st sig sigs e =
    subst (λ v. Began st sig (arrive v sigs)) (sym handled_idle)
      (let g = arrive-Grows sigs u (omega arith) (omega arith) in
        (g.more, g.signals, g.fits, g.hook, g.stored))
  where
    u : State
    u = record st { stored = st.hook; hook = sighook; signals = sig ∷ [] }

    handled_idle : handle st sig ≡ u
    handled_idle = unfold handle in unfold hooked in simp e refl
