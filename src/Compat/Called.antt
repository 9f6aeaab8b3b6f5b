-- ===== src/Compat/Called.antt =====
-- util-src/compat.c: which call lc_xpcall makes, and what it returns.
use prosody_trunk.Base.{
  ℕ, suc, ◌-◌, ◌≡◌, refl, ap, ap₂, ◌∙◌, Bool, false, some, List, [], ◌∷◌, ◌++◌, length, get_or, set,
  ltb, length-append, arith,
}
use prosody_trunk.Lua.{Value, nil, boolean}
use prosody_trunk.Compat.{Stack, but_last, pushvalue, replace, called, pcall, returns, lc_xpcall}

but_last-append : (stack : Stack) (v : Value) → but_last (stack ++ (v ∷ [])) ≡ stack
unfolding but_last
but_last-append [] v = refl
but_last-append (w ∷ []) v = refl
but_last-append (w ∷ x ∷ stack) v = ap (λ t. w ∷ t) (but_last-append (x ∷ stack) v)

top-append :
    (stack : Stack) (v : Value)
    → get_or (stack ++ (v ∷ [])) (length (stack ++ (v ∷ [])) - 1) nil ≡ v
top-append stack v =
    let e : length (stack ++ (v ∷ [])) - 1 ≡ length stack =
      omega (arith, length-append stack (v ∷ [])) in
    rw e (at_end stack)
  where
    at_end : (stack : Stack) → get_or (stack ++ (v ∷ [])) (length stack) nil ≡ v
    at_end [] = refl
    at_end (w ∷ stack) = at_end stack

-- What was pushed last goes to the place of the index.
replace-append :
    (stack : Stack) (v : Value) (i : ℕ) → replace (stack ++ (v ∷ [])) i ≡ set stack (i - 1) v
unfolding replace
replace-append stack v i =
    ap₂ (λ s t. set s (i - 1) t) (but_last-append stack v) (top-append stack v)

module _ (call : Value → Value → List Value → Bool × List Value) where
  -- The stack that `lua_pcall` finds.
  ordered :
      (f msgh : Value) (args : List Value)
      → replace (replace (pushvalue (pushvalue (f ∷ msgh ∷ args) 1) 2) 1) 2 ≡ msgh ∷ f ∷ args
  unfolding pushvalue
  ordered f msgh args =
      ap (λ s. replace s 2) (replace-append (f ∷ msgh ∷ (args ++ (f ∷ []))) msgh 1)
      ∙ replace-append (msgh ∷ msgh ∷ args) f 2

  pcall-args :
      (f msgh : Value) (args : List Value) (n : ℕ)
      → n ≡ length args
      → pcall call (msgh ∷ f ∷ args) n ≡ called call (msgh ∷ f ∷ args) msgh (call msgh f args)
  unfolding pcall
  pcall-args f msgh args n e =
      let at : suc (suc (length args)) - n - 1 ≡ 1 = omega arith in rw at refl

  returns-called :
      (stack : Stack) (msgh : Value) (out : Bool × List Value)
      → returns call (called call stack msgh out) ≡ boolean out.0 ∷ out.1
  unfolding returns called
  returns-called stack msgh (ok, values) = replace-append (msgh ∷ values) (boolean ok) 1

  -- With a function and a handler, and whatever arguments follow, `lc_xpcall` calls the function on
  -- exactly these arguments with that handler, and returns whether there was no error and, after
  -- that, all of the results or what the handler made of the error.
  pub lc_xpcall-call :
      (f msgh : Value) (args : List Value)
      → lc_xpcall call (f ∷ msgh ∷ args)
        ≡ some (boolean (call msgh f args).0 ∷ (call msgh f args).1)
  unfolding lc_xpcall
  lc_xpcall-call f msgh args =
      let enough : ltb (suc (suc (length args))) 2 ≡ false = ground arith in
      rw
        (
          enough,
          ordered f msgh args,
          pcall-args f msgh args (suc (suc (length args)) - 2) (omega arith),
        )
        (ap some (returns-called _ msgh (call msgh f args)))
