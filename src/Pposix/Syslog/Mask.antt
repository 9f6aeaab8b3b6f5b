-- ===== src/Pposix/Syslog/Mask.antt =====
-- Which levels a mask lets through.
use prosody_trunk.Base.{
  ℕ, ◌<◌, ◌^◌, ◌≡◌, refl, bit_and, Bool, true, not, some, ◌==◌, ltb, get_or, [], false, zero, suc,
  arith,
}
use prosody_trunk.Base.Bits.{all_below, all_below_sound}
use prosody_trunk.Pposix.Syslog.{
  level_strings, level_constants, check_option, mask_loop, lc_syslog_setmask,
}

-- The bit of a level in a mask.
abbrev pub passes : ℕ → ℕ → Bool
passes mask level = not (bit_and mask (2 ^ get_or level_constants level 0) == 0)

at_name : (i : ℕ) → i < 5 → lc_syslog_setmask (get_or level_strings i []) ≡ some (mask_loop 5 i 0)
unfolding lc_syslog_setmask check_option level_strings mask_loop
at_name zero h = refl
at_name (suc zero) h = refl
at_name (suc (suc zero)) h = refl
at_name (suc (suc (suc zero))) h = refl
at_name (suc (suc (suc (suc zero)))) h = refl
at_name (suc (suc (suc (suc (suc n))))) h = absurd (omega arith)

agree : Bool → Bool → Bool
agree true b = b
agree false b = not b

eq_of_agree : (a b : Bool) → agree a b ≡ true → a ≡ b
unfolding agree
eq_of_agree true true e = refl
eq_of_agree false false e = refl
eq_of_agree true false e = cc e
eq_of_agree false true e = cc e

row : ℕ → ℕ → Bool
row i j = agree (passes (mask_loop 5 i 0) j) (not (ltb j i))

mask-row : (i j : ℕ) → i < 5 → j < 5 → row i j ≡ true
unfolding row agree all_below mask_loop
mask-row i j h l =
    all_below_sound 5 (row i) j (all_below_sound 5 (λ k. all_below 5 (row k)) i refl h) l

-- Setting the mask to the level of a name lets through that level and those after it in the table,
-- which are the more severe ones, and no level before it.
pub lc_syslog_setmask_lem :
    (i j : ℕ)
    → i < 5
    → j < 5
    → (mask : ℕ) × (lc_syslog_setmask (get_or level_strings i []) ≡ some mask)
      × (passes mask j ≡ not (ltb j i))
lc_syslog_setmask_lem i j h l =
    (mask_loop 5 i 0, at_name i h, eq_of_agree _ _ (unfold row in mask-row i j h l))
