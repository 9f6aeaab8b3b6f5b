-- ===== src/Time/Forward.antt =====
-- The monotonic clock of util-src/time.c in order.
use prosody_trunk.Base.{ℕ, ◌+◌, ◌^◌, ◌<◌, ◌≤◌, ◌≡◌, ap, ◌⊎◌, inl, inr, [], ◌∷◌, arith}
use prosody_trunk.Base.Int.{pos}
use prosody_trunk.Time.{LuaNumber, Timespec, Clock, clock_monotonic, tv2number, lc_time_monotonic}

-- What rounding keeps of the order of the numbers, as IEEE 754 has it: the conversion of a `long`, the
-- sum and the product with 1e-9 are monotonic, and a second is at least its nanoseconds, as long as the
-- numbers hold all integers.
pub record Rounds (N : LuaNumber) : Type 1 where
  pub le : N.Number → N.Number → Type 0
  pub le-trans : (a b c : N.Number) → le a b → le b c → le a c
  pub plus-le : (a b c d : N.Number) → le a b → le c d → le (N.plus a c) (N.plus b d)
  pub of_long-le : (a b : ℕ) → a ≤ b → le (N.of_long (pos a)) (N.of_long (pos b))
  pub nanos-le :
      (a b : ℕ)
      → a ≤ b
      → le (N.times (N.of_long (pos a)) N.nano) (N.times (N.of_long (pos b)) N.nano)
  pub second-le :
      (s n : ℕ)
      → s < 2 ^ 53
      → n < 10 ^ 9
      → le
          (N.plus (N.of_long (pos s)) (N.times (N.of_long (pos n)) N.nano))
          (N.of_long (pos (s + 1)))
  pub from_second-le :
      (s n : ℕ)
      → le (N.of_long (pos s)) (N.plus (N.of_long (pos s)) (N.times (N.of_long (pos n)) N.nano))

-- A time after 1970 as the system tells it.
abbrev pub at_time : ℕ → ℕ → Timespec
at_time s n = record { tv_sec = pos s; tv_nsec = pos n }

module _ (N : LuaNumber) (R : Rounds N) where
  -- A time that the system puts later is not before it as a number.
  pub tv2number-le :
      (s n s' n' : ℕ)
      → s < 2 ^ 53
      → n < 10 ^ 9
      → (s < s') ⊎ ((s ≡ s') × (n ≤ n'))
      → R.le (tv2number N (at_time s n)) (tv2number N (at_time s' n'))
  unfolding tv2number
  tv2number-le s n s' n' g h (inl l) =
      R.le-trans _ _ _ (R.second-le s n g h)
        (R.le-trans _ _ _ (R.of_long-le (s + 1) s' (omega arith)) (R.from_second-le s' n'))
  tv2number-le s n s' n' g h (inr (e, l)) =
      R.plus-le _ _ _ _ (R.of_long-le s s' (omega arith)) (R.nanos-le n n' l)

  pub lc_time_monotonic-le :
      (before after : Clock → Timespec) (s n s' n' : ℕ)
      → before clock_monotonic ≡ at_time s n
      → after clock_monotonic ≡ at_time s' n'
      → s < 2 ^ 53
      → n < 10 ^ 9
      → (s < s') ⊎ ((s ≡ s') × (n ≤ n'))
      → (a b : N.Number) × (lc_time_monotonic N before ≡ a ∷ [])
        × (lc_time_monotonic N after ≡ b ∷ [])
        × R.le a b
  unfolding lc_time_monotonic
  lc_time_monotonic-le before after s n s' n' p q g h o = (
    _,
    _,
    ap (λ t. tv2number N t ∷ []) p,
    ap (λ t. tv2number N t ∷ []) q,
    tv2number-le s n s' n' g h o,
  )
