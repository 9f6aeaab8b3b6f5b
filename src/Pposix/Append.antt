-- ===== src/Pposix/Append.antt =====
-- `lc_atomic_append`: either all of the data stands at the end of the file, or none of it.
pub mod Atomic
use prosody_trunk.Base.{ℕ, ◌+◌, ◌≡◌, Bool, true, false, ◌||◌, Option, none, some}
use prosody_trunk.Base.{List, [], ◌∷◌, ◌++◌, length, take, ltb, ◌==◌, if◌then◌else◌}
use prosody_trunk.Base.Int.{ℤ, pos, negsuc}
use prosody_trunk.Lua.{Value, nil, boolean, integer, string}

abbrev pub enosys : ℕ
enosys = 38

abbrev pub eopnotsupp : ℕ
eopnotsupp = 95

-- The calls of the system on a file. Each answers `none` or the error, beside the new world;
-- `ftell` answers with the position, or -1; `fallocate` answers with its result and `errno`, `fwrite` with the number of bytes that it took.
pub record System : Type 1 where
  pub World : Type 0
  pub content : World → List ℕ
  pub ftell : World → ℤ
  pub fallocate : World → ℤ → ℕ → Option (ℤ × ℕ) × World
  pub fwrite : World → List ℕ → ℕ × World
  pub fflush : World → Option ℕ × World
  pub ferror : World → ℕ
  pub fseek : World → ℤ → World
  pub ftruncate : World → ℤ → Option ℕ × World
  pub strerror : ℤ → List ℕ

-- The values for Lua, or a Lua error.
pub data Reply : Type 0 where
  reply : List Value → Reply
  raise : List ℕ → Reply

-- `err` after a failure of `fallocate`, and whether the code goes on all the same.
pub allocation_error : ℤ → ℕ → ℤ
allocation_error ret errno = if errno == 0 then ret else pos errno

pub is_ignored : ℤ → Bool
is_ignored (pos e) = (e == enosys) || (e == eopnotsupp)
is_ignored (negsuc e) = false

module _ (S : System) where
  pub problem : ℤ → Reply
  problem err = reply (nil ∷ string (S.strerror err) ∷ integer err ∷ [])

  -- What follows a failed write: back to the old end, and the rest is cut off. The first argument is
  -- what `ftruncate` answered.
  pub cut : Option ℕ × S.World → ℕ → Reply × S.World
  cut (some e, w) err = (raise (S.strerror (pos e)), w)
  cut (none, w) err = (problem (pos err), w)

  pub undo : S.World → ℤ → ℕ → Reply × S.World
  undo w offset err = cut (S.ftruncate (S.fseek w offset) offset) err

  -- What follows the answer of `fflush`.
  pub flushed : Option ℕ × S.World → ℤ → Reply × S.World
  flushed (none, w) offset = (reply (boolean true ∷ []), w)
  flushed (some e, w) offset = undo w offset e

  -- What follows the answer of `fwrite`, and the write itself.
  pub written : ℕ × S.World → ℤ → List ℕ → Reply × S.World
  written (n, w) offset s =
      if n == length s then flushed (S.fflush w) offset else undo w offset (S.ferror w)

  pub write : S.World → ℤ → List ℕ → Reply × S.World
  write w offset s = written (S.fwrite w s) offset s

  -- What follows the answer of `fallocate`.
  pub allocated : Option (ℤ × ℕ) × S.World → ℤ → List ℕ → Reply × S.World
  allocated (none, w) offset s = write w offset s
  allocated (some (ret, errno), w) offset s =
      let err = allocation_error ret errno in
      if is_ignored err then write w offset s else (problem err, w)

  pub lc_atomic_append : S.World → List ℕ → Reply × S.World
  lc_atomic_append w s =
      let offset = S.ftell w in allocated (S.fallocate w offset (length s)) offset s
