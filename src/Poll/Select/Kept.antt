-- ===== src/Poll/Select/Kept.antt =====
-- util-src/poll.c over `select`: `Ladd`, `Lset` and `Ldel` wait only for what is watched.
use prosody_trunk.Base.{
  ℕ, ◌≡◌, inl, inr, sym, ap, ◌∙◌, Bool, true, false, Option, none, some, Bool-cases, eq_of_==, ltb,
  leb, ◌==◌, arith,
}
use prosody_trunk.Base.{List}
use mathlib.Core.Path.{subst}
use prosody_trunk.Base.Int.{ℤ, pos, negsuc}
use prosody_trunk.Lua.{Value, to_boolean, is_nil}
use prosody_trunk.Poll.Select.{
  FdSet, fd_set, fd_clr, fd_put, fd_setsize, State, l_add, choose, l_set, l_del,
}

-- Every descriptor in one set is in the other.
abbrev pub Within : FdSet → FdSet → Type 0
Within s t = (k : ℕ) → s k ≡ true → t k ≡ true

-- Only watched descriptors are waited for and pending.
pub record IsKept (st : State) : Type 0 where
  pub wantread : Within st.wantread st.all
  pub wantwrite : Within st.wantwrite st.all
  pub readable : Within st.readable st.all
  pub writable : Within st.writable st.all
  pub err : Within st.err st.all

pub Within-clr : (fd : ℕ) (s t : FdSet) → Within s t → Within (fd_clr fd s) t
unfolding fd_clr
Within-clr fd s t w k h = ground (arith, w k)

Within-clr_both : (fd : ℕ) (s t : FdSet) → Within s t → Within (fd_clr fd s) (fd_clr fd t)
unfolding fd_clr
Within-clr_both fd s t w k h = ground (arith, w k)

Within-set : (fd : ℕ) (s t : FdSet) → Within s t → Within s (fd_set fd t)
unfolding fd_set
Within-set fd s t w k h = ground (arith, w k)

Within-insert : (fd : ℕ) (s t : FdSet) → t fd ≡ true → Within s t → Within (fd_set fd s) t
unfolding fd_set
Within-insert fd s t e w k h = elim (Bool-cases (fd == k)) [
  | inl q ↦ ap t (sym (eq_of_== fd k q)) ∙ e
  | inr q ↦ w k (rw q at h)
]

Within-put : (b : Bool) (fd : ℕ) (s t : FdSet) → t fd ≡ true → Within s t → Within (fd_put b fd s) t
unfolding fd_put
Within-put true fd s t e w = Within-insert fd s t e w
Within-put false fd s t e w = Within-clr fd s t w

fd_set_self : (fd : ℕ) (s : FdSet) → fd_set fd s fd ≡ true
unfolding fd_set
fd_set_self fd s = ground arith

Within-choose :
    (strerror : ℕ → List ℕ) (v : Option Value) (fd : ℕ) (s t : FdSet)
    → t fd ≡ true
    → Within s t
    → Within (choose strerror v fd s) t
unfolding choose
Within-choose strerror none fd s t e w = w
Within-choose strerror (some v) fd s t e w = elim (Bool-cases (is_nil v)) [
  | inl q ↦ rw q w
  | inr q ↦ rw q (Within-put (to_boolean v) fd s t e w)
]

-- A state that a reply carries.
pub kept :
    (p : List Value × State) (reply : List Value) (st' : State)
    → IsKept p.1
    → some p ≡ some (reply, st')
    → IsKept st'
kept p reply st' v e = subst IsKept (ap (λ o. elim o [ none ↦ st' | some q ↦ q.1 ]) e) v

module _ (strerror : ℕ → List ℕ) where
  pub l_add-IsKept :
      (st st' : State) (fd : ℤ) (r w : Bool) (reply : List Value)
      → IsKept st
      → l_add strerror st fd r w ≡ some (reply, st')
      → IsKept st'
  unfolding l_add
  l_add-IsKept st st' (negsuc n) r w reply i e = kept _ reply st' i e
  l_add-IsKept st st' (pos fd) r w reply i e = elim (Bool-cases (ltb fd_setsize fd)) [
    | inl a ↦ kept _ reply st' i (rw a at e)
    | inr a ↦ elim (Bool-cases (leb fd_setsize fd)) [
      | inl b ↦ cc (rw (a, b) at e)
      | inr b ↦ elim (Bool-cases (st.all fd)) [
        | inl c ↦ kept _ reply st' i (rw (a, b, c) at e)
        | inr c ↦ kept _ reply st' entered (rw (a, b, c) at e)
      ]
    ]
  ]
    where
      entered : IsKept (record st {
        readable = fd_clr fd st.readable;
        writable = fd_clr fd st.writable;
        err = fd_clr fd st.err;
        all = fd_set fd st.all;
        wantread = fd_put r fd st.wantread;
        wantwrite = fd_put w fd st.wantwrite;
      })
      entered =
          let into = λ (s : FdSet) (w : Within s st.all). Within-set fd s st.all w in
          let put = λ (b : Bool) (s : FdSet) (w : Within s st.all).
            Within-put b fd s (fd_set fd st.all) (fd_set_self fd st.all) (into s w) in
          record {
            wantread = put r st.wantread i.wantread;
            wantwrite = put w st.wantwrite i.wantwrite;
            readable = Within-clr fd st.readable _ (into st.readable i.readable);
            writable = Within-clr fd st.writable _ (into st.writable i.writable);
            err = Within-clr fd st.err _ (into st.err i.err);
          }

  pub l_set-IsKept :
      (st st' : State) (fd : ℕ) (args reply : List Value)
      → IsKept st
      → st.all fd ≡ true
      → l_set strerror st (pos fd) args ≡ some (reply, st')
      → IsKept st'
  unfolding l_set
  l_set-IsKept st st' fd args reply i a e = elim (Bool-cases (leb fd_setsize fd)) [
    | inl b ↦ cc (rw b at e)
    | inr b ↦
        kept _ reply st'
          (record {
            wantread = Within-choose strerror _ fd st.wantread st.all a i.wantread;
            wantwrite = Within-choose strerror _ fd st.wantwrite st.all a i.wantwrite;
            readable = i.readable;
            writable = i.writable;
            err = i.err;
          })
          (rw b at e)
  ]

  pub l_del-IsKept :
      (st st' : State) (fd : ℤ) (reply : List Value)
      → IsKept st
      → l_del strerror st fd ≡ some (reply, st')
      → IsKept st'
  unfolding l_del
  l_del-IsKept st st' (negsuc n) reply i e = cc e
  l_del-IsKept st st' (pos fd) reply i e = elim (Bool-cases (leb fd_setsize fd)) [
    | inl b ↦ cc (rw b at e)
    | inr b ↦
        kept _ reply st'
          (record {
            wantread = Within-clr_both fd st.wantread st.all i.wantread;
            wantwrite = Within-clr_both fd st.wantwrite st.all i.wantwrite;
            readable = Within-clr_both fd st.readable st.all i.readable;
            writable = Within-clr_both fd st.writable st.all i.writable;
            err = Within-clr_both fd st.err st.all i.err;
          })
          (rw b at e)
  ]
