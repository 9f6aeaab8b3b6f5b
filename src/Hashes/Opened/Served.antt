-- ===== src/Hashes/Opened/Served.antt =====
-- What Lua gets from the functions of util.hashes under their names.
use prosody_trunk.Base.{
  ℕ, ◌≡◌, refl, ap, ◌∙◌, Bool, true, Option, none, some, List, [], ◌∷◌, ◌++◌, All,
}
use prosody_trunk.Base.Int.{ℤ}
use prosody_trunk.Base.Text.{bytes}
use prosody_trunk.Lua.{Value, boolean, string, text_of}
use prosody_trunk.Exports.{Field, function}
use prosody_trunk.Hashes.{HashDesc, to_hex, l_digest, l_hash, l_hmac}
use prosody_trunk.Hashes.Words.{IsByte}
use prosody_trunk.Hashes.Hmac.{IsDigest, digest, rfc2104, hmac-rfc2104}
use prosody_trunk.Hashes.Opened.{
  CFunction, OpenSsl, flag_at, hash_function, hmac_function, reg, luaopen_util_hashes,
}

-- A call of what a field of a table holds; a value that is no function raises a Lua error.
unfoldable pub call_field : Field CFunction → List Value → Option (List Value)
call_field (function f) args = f args
call_field _ args = none

-- The digests that the module offers with an HMAC.
pub data Algorithm : Type 0 where
  sha1 sha256 sha512 md5 : Algorithm

unfoldable pub name_of : Algorithm → List ℕ
name_of sha1 = bytes "sha1"
name_of sha256 = bytes "sha256"
name_of sha512 = bytes "sha512"
name_of md5 = bytes "md5"

abbrev pub desc_of : OpenSsl → Algorithm → HashDesc
desc_of S sha1 = S.sha1_desc
desc_of S sha256 = S.sha256_desc
desc_of S sha512 = S.sha512_desc
desc_of S md5 = S.md5_desc

abbrev pub one_piece : OpenSsl → Algorithm → List ℕ → List ℕ
one_piece S sha1 = S.sha1
one_piece S sha256 = S.sha256
one_piece S sha512 = S.sha512
one_piece S md5 = S.md5

-- OpenSSL documents that a digest in one piece is that of a context which is fed the message.
pub record Documented (S : OpenSsl) (a : Algorithm) : Type 1 where
  pub desc : IsDigest (desc_of S a)
  pub agrees : (s : List ℕ) → one_piece S a s ≡ digest (desc_of S a) s

module _ (decimal : ℤ → List ℕ) (numeral : List ℕ → Option ℤ) (allocated : Bool) (S : OpenSsl) where
  abbrev pub call : List ℕ → List Value → Option (List Value)
  call name args = call_field (luaopen_util_hashes decimal numeral allocated S name) args

  hash_called :
      (a : Algorithm) (args : List Value)
      → call (name_of a) args ≡ hash_function decimal numeral (one_piece S a) args
  unfolding luaopen_util_hashes reg name_of call_field
  hash_called sha1 args = refl
  hash_called sha256 args = refl
  hash_called sha512 args = refl
  hash_called md5 args = refl

  hmac_called :
      (a : Algorithm) (args : List Value)
      → call (bytes "hmac_" ++ name_of a) args ≡ hmac_function decimal numeral (desc_of S a) args
  unfolding luaopen_util_hashes reg name_of call_field
  hmac_called sha1 args = refl
  hmac_called sha256 args = refl
  hmac_called sha512 args = refl
  hmac_called md5 args = refl

  -- Of SHA-1, SHA-256, SHA-512 and MD5, Lua finds under the name of the digest a function that returns
  -- the digest of a string, and under `hmac_` and that name one that returns the HMAC of RFC 2104 over
  -- the same digest, in blocks of 64 bytes for each of the four, for a key of bytes; both in
  -- hexadecimal if a last argument says so. The digest is one as OpenSSL documents it.
  pub hashes-rfc2104 :
      (a : Algorithm)
      → Documented S a
      → (key msg : List ℕ) → All IsByte key
      → (call (name_of a) (string msg ∷ []) ≡ some (string (digest (desc_of S a) msg) ∷ []))
        × (call (name_of a) (string msg ∷ boolean true ∷ [])
            ≡ some (string (to_hex (digest (desc_of S a) msg)) ∷ []))
        × (call (bytes "hmac_" ++ name_of a) (string key ∷ string msg ∷ [])
            ≡ some (string (rfc2104 (desc_of S a) key msg) ∷ []))
        × (call (bytes "hmac_" ++ name_of a) (string key ∷ string msg ∷ boolean true ∷ [])
            ≡ some (string (to_hex (rfc2104 (desc_of S a) key msg)) ∷ []))
  unfolding hash_function hmac_function flag_at text_of l_hash l_hmac l_digest
  hashes-rfc2104 a laws key msg b =
      let h = laws.agrees msg in
      let m = hmac-rfc2104 (desc_of S a) laws.desc key msg b in
      (
        hash_called a _ ∙ ap (λ d. some (string d ∷ [])) h,
        hash_called a _ ∙ ap (λ d. some (string (to_hex d) ∷ [])) h,
        hmac_called a _ ∙ ap (λ d. some (string d ∷ [])) m,
        hmac_called a _ ∙ ap (λ d. some (string (to_hex d) ∷ [])) m,
      )
