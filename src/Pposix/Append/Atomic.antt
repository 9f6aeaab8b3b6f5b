-- ===== src/Pposix/Append/Atomic.antt =====
-- `lc_atomic_append` on files whose system calls behave as documented.
use prosody_trunk.Base.{ℕ, ◌≤◌, ◌≡◌, ◌⊎◌, true, none}
use prosody_trunk.Base.{List, [], ◌∷◌, ◌++◌, length, take}
use prosody_trunk.Base.Int.{ℤ, pos}
use prosody_trunk.Lua.{boolean}
use prosody_trunk.Pposix.Append.{System, Reply, reply, raise, problem}

-- The handle stands at the end of the file.
abbrev pub AtEnd : (S : System) → S.World → Type 0
AtEnd S w = S.ftell w ≡ pos (length (S.content w))

-- What the code relies on. `Partly w s v`: the file holds in `v` what it held in `w` and a part of `s`.
-- FALLOC_FL_KEEP_SIZE leaves the content and the position alone; a write at the end that is not
-- complete leaves a part of the data; a flush and a seek may write some of it; a complete write at the
-- end that could be flushed has all of it in the file; and a file that is cut to a size not above its own
-- keeps that many of its bytes.
pub record IsFile (S : System) : Type 1 where
  pub Partly : S.World → List ℕ → S.World → Type 0
  pub part :
      {w : S.World} {s : List ℕ} {v : S.World}
      → Partly w s v
      → (k : ℕ) × (S.content v ≡ S.content w ++ take k s)
  pub after_fallocate :
      (w : S.World) (o : ℤ) (n : ℕ)
      → (S.content (S.fallocate w o n).1 ≡ S.content w)
        × (S.ftell (S.fallocate w o n).1 ≡ S.ftell w)
  pub after_fwrite : (w : S.World) (s : List ℕ) → AtEnd S w → Partly w s (S.fwrite w s).1
  pub after_fflush :
      {w : S.World} {s : List ℕ} {v : S.World} → Partly w s v → Partly w s (S.fflush v).1
  pub after_fseek :
      {w : S.World} {s : List ℕ} {v : S.World} (o : ℕ)
      → Partly w s v
      → Partly w s (S.fseek v (pos o))
  pub complete :
      (w : S.World) (s : List ℕ)
      → AtEnd S w
      → (S.fwrite w s).0 ≡ length s
      → (S.fflush (S.fwrite w s).1).0 ≡ none
      → S.content (S.fflush (S.fwrite w s).1).1 ≡ S.content w ++ s
  pub after_ftruncate :
      (w : S.World) (n : ℕ)
      → n ≤ length (S.content w)
      → (S.ftruncate w (pos n)).0 ≡ none
      → S.content (S.ftruncate w (pos n)).1 ≡ take n (S.content w)

module _ (S : System) (F : IsFile S) where
  -- All of the data and true, none of it and an error, or a Lua error.
  abbrev pub Atomic : List ℕ → List ℕ → Reply × S.World → Type 0
  Atomic old s p =
      ((p.0 ≡ reply (boolean true ∷ [])) × (S.content p.1 ≡ old ++ s))
      ⊎ (((err : ℤ) × (p.0 ≡ problem S err)) × (S.content p.1 ≡ old)
          ⊎ ((message : List ℕ) × (p.0 ≡ raise message)))
