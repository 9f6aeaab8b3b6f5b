-- ===== src/Crand/Drawn.antt =====
-- `Lrandom` over `getrandom` returns as many bytes as were asked for, all of them from the source.
use prosody_trunk.Base.{
  ℕ, zero, suc, ◌+◌, ◌-◌, ◌^◌, ◌%◌, ◌≤◌, ◌<◌, ◌≡◌, refl, sym, ap, ap₂, ◌∙◌, ◌⊎◌, inl, inr, true,
  false, arith,
}
use prosody_trunk.Base.{
  List, [], ◌++◌, length, ltb, length-append, append-nil, append_assoc, drop-length,
}
use mathlib.Core.Path.{subst}
use native.Mathlib.Decide.{dec_lt}
use prosody_trunk.Base.Int.{ℤ, pos, to_int, minus}
use prosody_trunk.Crand.{
  Result, returned, raised, Answer, got, failed, overwrite, go_on, round, rand_loop, l_random,
}

-- What the manual says of `getrandom`: a call for at least one byte fails, or returns between one and
-- as many as were asked for.
abbrev pub Answers : (ℕ → ℕ → Answer) → Type 0
Answers source =
    (i n : ℕ)
    → 0 < n
    → ((bs : List ℕ) × (source i n ≡ got bs) × (0 < length bs) × (length bs ≤ n))
      ⊎ ((e : ℕ) × (source i n ≡ failed e))

-- The bytes that calls from the i-th one on return while `n` are left.
pub data Drawn (source : ℕ → ℕ → Answer) : ℕ → ℕ → List ℕ → Type 0 where
  nothing : (i : ℕ) → Drawn source i 0 []
  more :
      {i n : ℕ} {bs rest : List ℕ}
      → source i n ≡ got bs
      → Drawn source (suc i) (n - length bs) rest
      → Drawn source i n (bs ++ rest)

-- The answers up to a failure.
pub data Fails (source : ℕ → ℕ → Answer) : ℕ → ℕ → ℕ → Type 0 where
  now : {i n e : ℕ} → source i n ≡ failed e → Fails source i n e
  later :
      {i n e : ℕ} {bs : List ℕ}
      → source i n ≡ got bs
      → Fails source (suc i) (n - length bs) e
      → Fails source i n e

minus-eq : (n m k : ℕ) → m + k ≡ n → minus (pos n) m ≡ pos k
minus-eq n m k e =
    let l : ltb n m ≡ false = ground arith in let d : n - m ≡ k = omega arith in rw (l, d) refl

nothing-left : (source : ℕ → ℕ → Answer) (i n : ℕ) → n ≡ 0 → Drawn source i n []
nothing-left source i n e = subst (λ k. Drawn source i k []) (sym e) (nothing i)

overwrite_all : (bs memory : List ℕ) → length memory ≤ length bs → overwrite bs memory ≡ bs
unfolding overwrite
overwrite_all bs memory h = ap (λ t. bs ++ t) (drop-length (length bs) memory h) ∙ append-nil bs

to_int-small : (n : ℕ) → n < 2 ^ 31 → to_int n ≡ pos n
to_int-small n h =
    let w : n % 2 ^ 32 ≡ n = omega arith in
    let l : ltb n (2 ^ 31) ≡ true = ground arith in rw (w, l) refl

module _ (strerror : ℕ → List ℕ) (source : ℕ → ℕ → Answer) where
  -- What the loop does from a state on: it appends `n` drawn bytes, or ends with the error of a call.
  abbrev Ends : List ℕ → ℕ → List ℕ → ℕ → Result → Type 0
  Ends memory i written n result =
      ((bs : List ℕ) × Drawn source i n bs
        × (length bs ≡ n)
        × (result ≡ returned (overwrite (written ++ bs) memory)))
      ⊎ ((e : ℕ) × Fails source i n e × (result ≡ raised (strerror e)))

  round-more :
      (again : ℕ → List ℕ → ℤ → Result) (memory : List ℕ) (i n k : ℕ) (written bs : List ℕ)
      → length bs + suc k ≡ n
      → round strerror source again memory i written (pos n) (got bs)
        ≡ again (suc i) (written ++ bs) (pos (suc k))
  unfolding round go_on
  round-more again memory i n k written bs e =
      let s : i + 1 ≡ suc i = omega arith in
      ap₂ (λ j left. go_on strerror source again memory j (written ++ bs) left) s
        (minus-eq n (length bs) (suc k) e)

  round-last :
      (again : ℕ → List ℕ → ℤ → Result) (memory : List ℕ) (i n : ℕ) (written bs : List ℕ)
      → length bs ≡ n
      → round strerror source again memory i written (pos n) (got bs)
        ≡ returned (overwrite (written ++ bs) memory)
  unfolding round go_on
  round-last again memory i n written bs e =
      ap (go_on strerror source again memory (i + 1) (written ++ bs))
        (minus-eq n (length bs) 0 (omega arith))

  -- One answer in front of what the rest of the loop does.
  Ends-more :
      (memory : List ℕ) (i n m : ℕ) (written bs : List ℕ) (result : Result)
      → source i n ≡ got bs
      → length bs + m ≡ n
      → Ends memory (suc i) (written ++ bs) m result
      → Ends memory i written n result
  Ends-more memory i n m written bs result q e (inl (rest, d, l, r)) =
      let k : m ≡ n - length bs = omega arith in
      inl (
        bs ++ rest,
        more q (subst (λ t. Drawn source (suc i) t rest) k d),
        omega (arith, length-append bs rest),
        r ∙ ap (λ t. returned (overwrite t memory)) (append_assoc written bs rest),
      )
  Ends-more memory i n m written bs result q e (inr (err, fails, r)) =
      let k : m ≡ n - length bs = omega arith in
      inr (err, later q (subst (λ t. Fails source (suc i) t err) k fails), r)

  loop-Ends :
      Answers source
      → (fuel n i : ℕ) (memory written : List ℕ) → 0 < n
      → n < 2 ^ 31
      → n ≤ fuel
      → Ends memory i written n (rand_loop strerror source fuel memory i written (pos n))
  unfolding rand_loop
  loop-Ends a zero n i memory written p b f = absurd (omega arith)
  loop-Ends a (suc fuel) n i memory written p b f =
      let size : n % 2 ^ 64 ≡ n = omega arith in rw size (answered (loop-Ends a fuel) (a i n p))
    where
      again : ℕ → List ℕ → ℤ → Result
      again = rand_loop strerror source fuel memory

      Rest : Type 0
      Rest =
          (n i : ℕ) (memory written : List ℕ)
          → 0 < n
          → n < 2 ^ 31
          → n ≤ fuel
          → Ends memory i written n (rand_loop strerror source fuel memory i written (pos n))

      got_some :
          Rest
          → (bs : List ℕ) → source i n ≡ got bs
          → length bs ≤ n
          → 0 < length bs
          → Ends memory i written n (round strerror source again memory i written (pos n) (got bs))
      got_some rest bs e l s = elim (dec_lt (length bs) n) [
        | yes h ↦
            let k : length bs + suc (n - length bs - 1) ≡ n = omega arith in
            subst (Ends memory i written n) (sym (round-more again memory i n _ written bs k)) (
              Ends-more memory i n _ written bs _ e k (
                rest (suc (n - length bs - 1)) (suc i) memory (written ++ bs) (omega arith)
                  (omega arith) (omega arith)))
        | no h ↦
            let k : length bs ≡ n = omega arith in
            let z : n - length bs ≡ 0 = omega arith in
            inl (
              bs,
              subst (Drawn source i n) (append-nil bs) (more e (nothing-left source (suc i) _ z)),
              k,
              round-last again memory i n written bs k,
            )
      ]

      answered :
          Rest
          → ((bs : List ℕ) × (source i n ≡ got bs) × (0 < length bs) × (length bs ≤ n))
            ⊎ ((e : ℕ) × (source i n ≡ failed e))
          → Ends memory i written n
              (round strerror source again memory i written (pos n) (source i n))
      answered rest (inl (bs, e, s, l)) = rw e (got_some rest bs e l s)
      answered rest (inr (err, e)) = rw e (inr (err, now e, (unfold round in refl)))

  -- Asked for between one and 2 ^ 31 - 1 bytes, `Lrandom` over `getrandom` ends after at most as many
  -- calls as bytes, if each call fails or returns at least one byte: it returns exactly that many
  -- bytes, all of them drawn from the source in order and none of them what was in the memory, or it
  -- raises the error of the first call that fails.
  pub l_random-Drawn :
      (n fuel : ℕ) (memory : List ℕ)
      → Answers source
      → suc n < 2 ^ 31
      → n < fuel
      → length memory ≡ suc n
      → ((bs : List ℕ) × Drawn source 0 (suc n) bs
          × (length bs ≡ suc n)
          × (l_random strerror source fuel memory (pos (suc n)) ≡ returned bs))
        ⊎ ((e : ℕ) × Fails source 0 (suc n) e
            × (l_random strerror source fuel memory (pos (suc n)) ≡ raised (strerror e)))
  unfolding l_random
  l_random-Drawn n fuel memory a h f m =
      rw (to_int-small (suc n) h)
        (ending (loop-Ends a fuel (suc n) 0 memory [] (omega arith) h (omega arith)))
    where
      result : Result
      result = rand_loop strerror source fuel memory 0 [] (pos (suc n))

      ending :
          Ends memory 0 [] (suc n) result
          → ((bs : List ℕ) × Drawn source 0 (suc n) bs
              × (length bs ≡ suc n)
              × (result ≡ returned bs))
            ⊎ ((e : ℕ) × Fails source 0 (suc n) e × (result ≡ raised (strerror e)))
      ending (inr failure) = inr failure
      ending (inl (bs, d, k, r)) =
          inl (bs, d, k, r ∙ ap returned (overwrite_all bs memory (omega arith)))

  -- Asked for a multiple of 2 ^ 32 bytes, which an `int` holds as zero, it asks the source for no byte
  -- and returns what was in the memory.
  pub l_random-memory :
      (n fuel : ℕ) (memory : List ℕ)
      → suc n % 2 ^ 32 ≡ 0
      → source 0 0 ≡ got []
      → 0 < fuel
      → l_random strerror source fuel memory (pos (suc n)) ≡ returned memory
  unfolding l_random rand_loop
  l_random-memory n zero memory h e f = absurd (omega arith)
  l_random-memory n (suc fuel) memory h e f =
      rw (h, e) (unfold round in unfold go_on in unfold overwrite in refl)
