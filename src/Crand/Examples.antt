-- ===== src/Crand/Examples.antt =====
-- `Lrandom` over a source that gives at most two bytes at a time.
use prosody_trunk.Base.{
  ℕ, ◌-◌, ◌^◌, ◌≡◌, refl, ◌⊎◌, inl, List, [], ◌∷◌, length, ltb, if◌then◌else◌, arith,
}
use native.Mathlib.Decide.{dec_lt}
use prosody_trunk.Base.Int.{pos}
use prosody_trunk.Crand.{
  Answer, got, returned, raised, l_random, rand_loop, round, go_on, overwrite,
}
use prosody_trunk.Crand.Drawn.{Answers, Drawn, Fails, l_random-Drawn, l_random-memory}

-- The first byte of a call is its number.
source : ℕ → ℕ → Answer
source i n = if ltb n 1 then got [] else if ltb n 2 then got (i ∷ []) else got (i ∷ 9 ∷ [])

source-Answers : Answers source
unfolding source
source-Answers i n h = elim (dec_lt n 2) [
  | yes l ↦ inl (i ∷ [], ground arith, omega arith, omega arith)
  | no l ↦ inl (i ∷ 9 ∷ [], ground arith, omega arith, omega arith)
]

abbrev quiet : ℕ → List ℕ
quiet = λ e. []

three_bytes : l_random quiet source 5 (7 ∷ 7 ∷ 7 ∷ []) (pos 3) ≡ returned (0 ∷ 9 ∷ 1 ∷ [])
unfolding l_random rand_loop round go_on overwrite source
three_bytes = refl

l_random-Drawn_example :
    ((bs : List ℕ) × Drawn source 0 3 bs
      × (length bs ≡ 3)
      × (l_random quiet source 5 (7 ∷ 7 ∷ 7 ∷ []) (pos 3) ≡ returned bs))
    ⊎ ((e : ℕ) × Fails source 0 3 e
        × (l_random quiet source 5 (7 ∷ 7 ∷ 7 ∷ []) (pos 3) ≡ raised []))
l_random-Drawn_example =
    l_random-Drawn quiet source 2 5 (7 ∷ 7 ∷ 7 ∷ []) source-Answers (omega arith) (omega arith) refl

-- The memory stands for one of 2 ^ 32 bytes.
l_random-memory_example :
    l_random quiet source 1 (1 ∷ 2 ∷ 3 ∷ []) (pos (2 ^ 32)) ≡ returned (1 ∷ 2 ∷ 3 ∷ [])
unfolding source
l_random-memory_example =
    l_random-memory quiet source (2 ^ 32 - 1) 1 (1 ∷ 2 ∷ 3 ∷ []) refl refl (omega arith)
