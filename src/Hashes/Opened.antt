-- ===== src/Hashes/Opened.antt =====
-- util-src/hashes.c: the functions made by MAKE_HASH_FUNCTION and MAKE_HMAC_FUNCTION, and
-- luaopen_util_hashes. A function is called with the list of its arguments; `none` is a Lua error.
-- Served, below this module, proves what Lua gets from the functions in the table.
pub mod Served
use prosody_trunk.Base.{ℕ, Bool, false, Option, none, some, List, [], ◌∷◌, ◌>>=◌}
use prosody_trunk.Base.Int.{ℤ}
use prosody_trunk.Base.Text.{bytes}
use prosody_trunk.Lua.{Value, integer, string, to_boolean, index, text_of}
use prosody_trunk.Hashes.{HashDesc, l_hash, l_hmac, l_scram_hi}
use prosody_trunk.Exports.{text, Table, Reg, new_table, setfield, setfuncs}

abbrev pub CFunction : Type 0
CFunction = List Value → Option (List Value)

-- What the module calls of OpenSSL: the digests in one piece, and those in pieces.
pub record OpenSsl : Type 1 where
  pub sha1 : List ℕ → List ℕ
  pub sha224 : List ℕ → List ℕ
  pub sha256 : List ℕ → List ℕ
  pub sha384 : List ℕ → List ℕ
  pub sha512 : List ℕ → List ℕ
  pub md5 : List ℕ → List ℕ
  pub sha1_desc : HashDesc
  pub sha256_desc : HashDesc
  pub sha512_desc : HashDesc
  pub md5_desc : HashDesc

-- `lua_toboolean` of an argument that need not be there.
pub flag_at : List Value → ℕ → Bool
flag_at args i = elim (index args i) [ none ↦ false | some v ↦ to_boolean v ]

-- `luaL_checkinteger`; `numeral` is how Lua reads a string as an integer.
pub integer_of : (List ℕ → Option ℤ) → Option Value → Option ℤ
integer_of numeral (some (integer n)) = some n
integer_of numeral (some (string s)) = numeral s
integer_of numeral _ = none

-- `decimal` writes a number that is given for a string, and `allocated` is whether `malloc` has memory.
module _ (decimal : ℤ → List ℕ) (numeral : List ℕ → Option ℤ) where
  pub scram_hi_function : Bool → HashDesc → CFunction
  scram_hi_function allocated desc args = do
    str ← text_of decimal (index args 0)
    salt ← text_of decimal (index args 1)
    iter ← integer_of numeral (index args 2)
    l_scram_hi desc allocated str salt iter

  pub hash_function : (List ℕ → List ℕ) → CFunction
  hash_function func args = do
    s ← text_of decimal (index args 0)
    some (l_hash func s (flag_at args 1))

  pub hmac_function : HashDesc → CFunction
  hmac_function desc args = do
    key ← text_of decimal (index args 0)
    msg ← text_of decimal (index args 1)
    some (l_hmac desc key msg (flag_at args 2))

  pub reg : Bool → OpenSsl → Reg CFunction
  reg allocated S =
      (bytes "sha1", hash_function S.sha1)
      ∷ (bytes "sha224", hash_function S.sha224)
      ∷ (bytes "sha256", hash_function S.sha256)
      ∷ (bytes "sha384", hash_function S.sha384)
      ∷ (bytes "sha512", hash_function S.sha512)
      ∷ (bytes "md5", hash_function S.md5)
      ∷ (bytes "hmac_sha1", hmac_function S.sha1_desc)
      ∷ (bytes "hmac_sha256", hmac_function S.sha256_desc)
      ∷ (bytes "hmac_sha512", hmac_function S.sha512_desc)
      ∷ (bytes "hmac_md5", hmac_function S.md5_desc)
      ∷ (bytes "scram_Hi_sha1", scram_hi_function allocated S.sha1_desc)
      ∷ []

  pub luaopen_util_hashes : Bool → OpenSsl → Table CFunction
  luaopen_util_hashes allocated S =
      setfield (setfuncs (reg allocated S) new_table) (bytes "version") (text (bytes "-3.14"))
