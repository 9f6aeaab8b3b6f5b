-- ===== src/Pposix/Modes/Restored.antt =====
-- util-src/pposix.c: what lc_umask returns, given back to it.
use prosody_trunk.Base.{ℕ, ◌%◌, ◌^◌, ◌<◌, ◌≡◌, refl, ap, ◌∙◌, List}
use prosody_trunk.Base.Bits.{eq_of_table, all_below}
use prosody_trunk.Pposix.Modes.{System, strtoul8, mode_string, lc_umask}

-- What POSIX says of `umask`: the call returns the mask, and sets it to the permission bits of its
-- argument.
pub record HasUmask (sys : System) : Type 0 where
  pub mask : sys.World → ℕ
  pub is_permission : (w : sys.World) → mask w < 512
  pub returned : (w : sys.World) (m : ℕ) → (sys.umask w m).0 ≡ mask w
  pub changed : (w : sys.World) (m : ℕ) → mask (sys.umask w m).1 ≡ m % 512

-- Every mask is read back from its text.
strtoul8-mode_string : (m : ℕ) → m < 512 → strtoul8 (mode_string m) % 2 ^ 32 % 512 ≡ m
unfolding strtoul8 mode_string all_below
strtoul8-mode_string m l =
    eq_of_table 512 (λ k. strtoul8 (mode_string k) % 2 ^ 32 % 512) (λ k. k) m refl l

-- On a system whose `umask` is that of POSIX: after `lc_umask` with any text, the text that it
-- returned, given to it again after whatever else happened, restores the mask of the beginning. The
-- second call returns, as a text that is read back as it, the mask that it replaces.
pub lc_umask-restored :
    (sys : System) (has : HasUmask sys) (w v : sys.World) (s : List ℕ)
    → (has.mask (lc_umask sys v (lc_umask sys w s).0).1 ≡ has.mask w)
      × (strtoul8 (lc_umask sys v (lc_umask sys w s).0).0 % 2 ^ 32 % 512 ≡ has.mask v)
unfolding lc_umask
lc_umask-restored sys has w v s = (
  has.changed v _
      ∙ ap (λ n. strtoul8 (mode_string n) % 2 ^ 32 % 512) (has.returned w _)
      ∙ strtoul8-mode_string _ (has.is_permission w),
  ap (λ n. strtoul8 (mode_string n) % 2 ^ 32 % 512) (has.returned v _)
      ∙ strtoul8-mode_string _ (has.is_permission v),
)
