-- ===== src/Crand.antt =====
-- util-src/crand.c: random bytes from one of three sources, which are parameters.
-- Drawn, below this module, proves what the version over `getrandom` returns.
pub mod Drawn
pub mod Opened
mod Examples
use prosody_trunk.Base.{ℕ, zero, suc, ◌+◌, Bool, true, false, not, ◌==◌, Option, none, some}
use prosody_trunk.Base.{List, [], ◌∷◌, ◌++◌, length, take, drop, ltb, if◌then◌else◌}
use prosody_trunk.Base.Int.{ℤ, pos, negsuc, to_size, to_int, minus}
use prosody_trunk.Base.Text.{bytes}

-- The string that is returned, or the message of the Lua error; `running` means that the fuel ran out.
pub data Result : Type 0 where
  returned : List ℕ → Result
  raised : List ℕ → Result
  running : Result

-- An answer of `getrandom`: the bytes that it wrote, whose number it returns, or an `errno`.
pub data Answer : Type 0 where
  got : List ℕ → Answer
  failed : ℕ → Answer

-- The buffer after its first bytes have been written.
pub overwrite : List ℕ → List ℕ → List ℕ
overwrite written buf = written ++ drop (length written) buf

-- The version over `getrandom`: `source i n` is the answer to the i-th call, for `n` bytes. `memory` is
-- what the new buffer of `len` bytes holds.
module _ (strerror : ℕ → List ℕ) (source : ℕ → ℕ → Answer) where
  -- The test of the loop on what is left, and a round: the bytes so far, what is left, the answer.
  pub go_on : (ℕ → List ℕ → ℤ → Result) → List ℕ → ℕ → List ℕ → ℤ → Result
  go_on again memory i written (pos (suc n)) = again i written (pos (suc n))
  go_on again memory i written (pos zero) = returned (overwrite written memory)
  go_on again memory i written (negsuc n) = returned (overwrite written memory)

  pub round : (ℕ → List ℕ → ℤ → Result) → List ℕ → ℕ → List ℕ → ℤ → Answer → Result
  round again memory i written left (failed e) = raised (strerror e)
  round again memory i written left (got bs) =
      go_on again memory (i + 1) (written ++ bs) (minus left (length bs))

  pub rand_loop : ℕ → List ℕ → ℕ → List ℕ → ℤ → Result
  rand_loop zero memory i written left = running
  rand_loop (suc fuel) memory i written left =
      round (rand_loop fuel memory) memory i written left (source i (to_size left))

  -- `luaL_argcheck` refuses a negative number.
  pub l_random : ℕ → List ℕ → ℤ → Result
  l_random fuel memory (negsuc n) = raised (bytes "must be > 0")
  l_random fuel memory (pos zero) = returned []
  l_random fuel memory (pos (suc n)) = rand_loop fuel memory 0 [] (to_int (suc n))

-- The version over `arc4random_buf`, which always fills the buffer.
pub l_random_arc4 : (ℕ → List ℕ) → ℤ → Result
l_random_arc4 arc4random_buf (negsuc n) = raised (bytes "must be > 0")
l_random_arc4 arc4random_buf (pos zero) = returned []
l_random_arc4 arc4random_buf (pos (suc n)) = returned (arc4random_buf (suc n))

-- The version over OpenSSL: `RAND_bytes` takes an `int`, and fills the buffer or fails.
pub filled : List ℕ → Option (List ℕ) → Result
filled memory none = raised (bytes "RAND_bytes() failed")
filled memory (some bs) = returned (overwrite bs memory)

pub l_random_openssl : Bool → (ℤ → Option (List ℕ)) → List ℕ → ℤ → Result
l_random_openssl rand_status rand_bytes memory (negsuc n) = raised (bytes "must be > 0")
l_random_openssl rand_status rand_bytes memory (pos zero) = returned []
l_random_openssl rand_status rand_bytes memory (pos (suc n)) =
    if rand_status
    then filled memory (rand_bytes (to_int (suc n)))
    else raised (bytes "OpenSSL PRNG not seeded")
