-- ===== src/Poll/Select/Watch.antt =====
-- `Ladd`, `Lset` and `Ldel` over `select`: the watch list that the Lua caller keeps.
use prosody_trunk.Base.{ℕ, ◌<◌, ◌≡◌, refl, Bool, true, false, Option, none, some, arith}
use prosody_trunk.Base.{List, [], ◌∷◌, leb, if◌then◌else◌}
use prosody_trunk.Base.Int.{pos, negsuc}
use prosody_trunk.Lua.{Value, nil, boolean, integer, string, function, index}
use prosody_trunk.Base.{Bool-cases, eq_of_==, inl, inr, sym, ap, ap₂, ◌∙◌, ◌==◌}
use prosody_trunk.Poll.WatchList.{update}
use prosody_trunk.Poll.Select.{
  FdSet, fd_set, fd_clr, fd_put, fd_setsize, enoent, ebadf, eexist, State, is_ready, failure, l_add,
  stack_for, choose, l_set, l_del,
}

-- The watch list: a descriptor that is watched has what is wanted of it.
abbrev pub view : State → ℕ → Option (Bool × Bool)
view st fd = if st.all fd then some (st.wantread fd, st.wantwrite fd) else none

-- The specification of an argument of `Lset`: absent or nil keeps the wish.
pub wish : Option Value → Bool → Bool
wish none old = old
wish (some nil) old = old
wish (some (boolean b)) old = b
wish (some _) old = true

pub wishes : List Value → Bool × Bool → Bool × Bool
wishes args old = (wish (index args 0) old.0, wish (index args 1) old.1)

module _ (strerror : ℕ → List ℕ) where
  -- Watching a descriptor below FD_SETSIZE that is not watched yet enters it with the two wishes,
  -- leaves every other entry alone, and drops what was pending for it.
  pub l_add_new :
      (st : State) (fd : ℕ) (r w : Bool)
      → fd < fd_setsize
      → st.all fd ≡ false
      → (st' : State) × (l_add strerror st (pos fd) r w ≡ some (boolean true ∷ [], st'))
        × ((k : ℕ) → view st' k ≡ update (view st) fd (some (r, w)) k)
        × (is_ready st' fd ≡ false)
  unfolding l_add fd_set fd_clr fd_put is_ready
  l_add_new st fd r w h n = (_, reply, λ k. entry k, ground arith)
    where
      st' : State
      st' = record st {
        readable = fd_clr fd st.readable;
        writable = fd_clr fd st.writable;
        err = fd_clr fd st.err;
        all = fd_set fd st.all;
        wantread = fd_put r fd st.wantread;
        wantwrite = fd_put w fd st.wantwrite;
      }

      reply : l_add strerror st (pos fd) r w ≡ some (boolean true ∷ [], st')
      reply = ground arith

      entry : (k : ℕ) → view st' k ≡ update (view st) fd (some (r, w)) k
      entry k = ground arith

  -- A negative descriptor, one above FD_SETSIZE and one below it that is watched already are refused, each
  -- with its error, and nothing changes.
  pub l_add_refused :
      (st : State) (r w : Bool)
      → ((n : ℕ) → l_add strerror st (negsuc n) r w ≡ some (failure strerror ebadf, st))
        × ((fd : ℕ)
            → fd_setsize < fd
            → l_add strerror st (pos fd) r w ≡ some (failure strerror ebadf, st))
        × ((fd : ℕ)
            → fd < fd_setsize
            → st.all fd ≡ true
            → l_add strerror st (pos fd) r w ≡ some (failure strerror eexist, st))
  unfolding l_add
  l_add_refused st r w = (λ n. refl, λ fd h. ground arith, λ fd h e. ground arith)

  -- Removing a descriptor below FD_SETSIZE, watched or not, leaves it out of the watch list and out of
  -- what is pending, and returns true.
  pub l_del_lem :
      (st : State) (fd : ℕ)
      → fd < fd_setsize
      → (st' : State) × (l_del strerror st (pos fd) ≡ some (boolean true ∷ [], st'))
        × ((k : ℕ) → view st' k ≡ update (view st) fd none k)
        × (is_ready st' fd ≡ false)
  unfolding l_del fd_clr is_ready
  l_del_lem st fd h = (_, reply, λ k. entry k, ground arith)
    where
      st' : State
      st' = record st {
        wantread = fd_clr fd st.wantread;
        wantwrite = fd_clr fd st.wantwrite;
        readable = fd_clr fd st.readable;
        writable = fd_clr fd st.writable;
        all = fd_clr fd st.all;
        err = fd_clr fd st.err;
      }

      reply : l_del strerror st (pos fd) ≡ some (boolean true ∷ [], st')
      reply = ground arith

      entry : (k : ℕ) → view st' k ≡ update (view st) fd none k
      entry k = ground arith

  -- Setting both wishes of a watched descriptor below FD_SETSIZE changes its entry to them, and no other.
  pub l_set_watched :
      (st : State) (fd : ℕ) (r w : Bool)
      → fd < fd_setsize
      → st.all fd ≡ true
      → (st' : State) × (l_set strerror st (pos fd) (boolean r ∷ boolean w ∷ [])
          ≡ some (boolean true ∷ [], st'))
        × ((k : ℕ) → view st' k ≡ update (view st) fd (some (r, w)) k)
  unfolding l_set stack_for choose fd_put
  l_set_watched st fd r w h a = (_, reply, λ k. entry k)
    where
      st' : State
      st' = record st { wantread = fd_put r fd st.wantread; wantwrite = fd_put w fd st.wantwrite }

      reply :
          l_set strerror st (pos fd) (boolean r ∷ boolean w ∷ []) ≡ some (boolean true ∷ [], st')
      reply = ground arith

      entry : (k : ℕ) → view st' k ≡ update (view st) fd (some (r, w)) k
      entry k = ground arith

  read_choice : (o : Option Value) (fd : ℕ) (s : FdSet) → choose strerror o fd s fd ≡ wish o (s fd)
  unfolding choose wish fd_put
  read_choice none fd s = refl
  read_choice (some nil) fd s = refl
  read_choice (some (boolean b)) fd s = ground arith
  read_choice (some (integer n)) fd s = ground arith
  read_choice (some (string t)) fd s = ground arith
  read_choice (some (function f)) fd s = ground arith

  other_choice :
      (o : Option Value) (fd k : ℕ) (s : FdSet) → (fd == k) ≡ false → choose strerror o fd s k ≡ s k
  unfolding choose fd_put
  other_choice none fd k s n = refl
  other_choice (some nil) fd k s n = refl
  other_choice (some (boolean b)) fd k s n = ground arith
  other_choice (some (integer m)) fd k s n = ground arith
  other_choice (some (string t)) fd k s n = ground arith
  other_choice (some (function f)) fd k s n = ground arith

  -- `Lset` of a watched descriptor with any arguments.
  pub l_set-wishes :
      (st : State) (fd : ℕ) (r w : Bool) (args : List Value)
      → fd < fd_setsize
      → view st fd ≡ some (r, w)
      → (st' : State) × (l_set strerror st (pos fd) args ≡ some (boolean true ∷ [], st'))
        × ((k : ℕ) → view st' k ≡ update (view st) fd (some (wishes args (r, w))) k)
  unfolding l_set stack_for wishes
  l_set-wishes st fd r w args h e =
      let a = is_watched (st.all fd) (st.wantread fd, st.wantwrite fd) (r, w) e in
      let l : leb fd_setsize fd ≡ false = ground arith in
      (after, rw (a.0, l) refl, λ k. entry k a.0 a.1)
    where
      is_watched :
          (b : Bool) (p q : Bool × Bool)
          → (if b then some p else none) ≡ some q
          → (b ≡ true) × (p ≡ q)
      is_watched true p q e = (refl, cc e)
      is_watched false p q e = cc e

      after : State
      after = record st {
        wantread = choose strerror (index args 0) fd st.wantread;
        wantwrite = choose strerror (index args 1) fd st.wantwrite;
      }

      entry :
          (k : ℕ)
          → st.all fd ≡ true
          → ◌≡◌ {A = Bool × Bool} (st.wantread fd, st.wantwrite fd) (r, w)
          → view after k ≡ update (view st) fd (some (wishes args (r, w))) k
      entry k a q = elim (Bool-cases (fd == k)) [
        | inl same ↦
            let z : fd ≡ k = eq_of_== fd k same in
            rw (same, sym z, a)
              (ap₂ (λ x y. some (x, y))
                (read_choice (index args 0) fd st.wantread ∙ ap (λ t. wish (index args 0) t.0) q)
                (read_choice (index args 1) fd st.wantwrite ∙ ap (λ t. wish (index args 1) t.1) q))
        | inr other ↦
            rw
              (
                other,
                other_choice (index args 0) fd k st.wantread other,
                other_choice (index args 1) fd k st.wantwrite other,
              )
              refl
      ]

  -- `Lset` of a descriptor below FD_SETSIZE that is not watched reports success, whatever the arguments
  -- behind the descriptor are, and the descriptor is not watched after it. With no wishes given it takes
  -- the error message that it pushed for the second one, and marks the descriptor for writing.
  pub l_set_unwatched :
      (st : State) (fd : ℕ)
      → fd < fd_setsize
      → st.all fd ≡ false
      → ((args : List Value)
          → (st' : State) × (l_set strerror st (pos fd) args ≡ some (boolean true ∷ [], st'))
            × (view st' fd ≡ none))
        × ((st' : State) × (l_set strerror st (pos fd) [] ≡ some (boolean true ∷ [], st'))
            × (st'.wantwrite fd ≡ true)
            × (st'.wantread fd ≡ st.wantread fd))
  unfolding l_set stack_for choose failure fd_put fd_set
  l_set_unwatched st fd h a =
      (λ args. (after args, any_reply args, rw a refl), (st', reply, ground arith, refl))
    where
      after : List Value → State
      after args = record st {
        wantread = choose strerror (index (stack_for strerror st fd args) 0) fd st.wantread;
        wantwrite = choose strerror (index (stack_for strerror st fd args) 1) fd st.wantwrite;
      }

      any_reply :
          (args : List Value)
          → l_set strerror st (pos fd) args ≡ some (boolean true ∷ [], after args)
      any_reply args = let l : leb fd_setsize fd ≡ false = ground arith in rw l refl

      st' : State
      st' = record st { wantwrite = fd_put true fd st.wantwrite }

      reply : l_set strerror st (pos fd) [] ≡ some (boolean true ∷ [], st')
      reply =
          let e : stack_for strerror st fd [] ≡ failure strerror enoent = rw a in
          rw e (ground arith)
