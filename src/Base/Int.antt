-- ===== src/Base/Int.antt =====
-- Signed integers over the native numbers, and the conversions of C between integer types.
use Prim.Native.Nat.{ℕ, ◌+◌, ◌-◌, ◌%◌, ◌^◌}
use prosody_trunk.Base.Tests.{ltb, if◌then◌else◌}

-- `negsuc n` is -(n + 1).
pub data ℤ : Type 0 where
  pos : ℕ → ℤ
  negsuc : ℕ → ℤ

-- `size_t` arithmetic, modulo 2 ^ 64. The second operand of `sub_size` is below 2 ^ 64.
abbrev pub add_size : ℕ → ℕ → ℕ
add_size a b = (a + b) % 2 ^ 64

abbrev pub sub_size : ℕ → ℕ → ℕ
sub_size a b = (a + 2 ^ 64 - b) % 2 ^ 64

-- A signed integer converted to `size_t`: the value modulo 2 ^ 64.
abbrev pub to_size : ℤ → ℕ
to_size (pos n) = n % 2 ^ 64
to_size (negsuc n) = 2 ^ 64 - 1 - n % 2 ^ 64

-- A `size_t` converted to the 64-bit `lua_Integer`.
abbrev pub of_size : ℕ → ℤ
of_size n = if ltb n (2 ^ 63) then pos n else negsuc (2 ^ 64 - 1 - n)

-- A `size_t` returned as a 32-bit `int` and converted back to `size_t`.
abbrev pub through_int : ℕ → ℕ
through_int n = let w = n % 2 ^ 32 in if ltb w (2 ^ 31) then w else w + (2 ^ 64 - 2 ^ 32)

-- A `size_t` converted to `int`.
abbrev pub to_int : ℕ → ℤ
to_int n = let w = n % 2 ^ 32 in if ltb w (2 ^ 31) then pos w else negsuc (2 ^ 32 - 1 - w)

-- A number taken off a signed one.
abbrev pub minus : ℤ → ℕ → ℤ
minus (pos n) m = if ltb n m then negsuc (m - n - 1) else pos (n - m)
minus (negsuc n) m = negsuc (n + m)
