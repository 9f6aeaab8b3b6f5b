-- ===== src/Hashes.antt =====
-- util-src/hashes.c: digests in binary or hexadecimal, HMAC, and the key derivation of SCRAM. The
-- digest functions are those of OpenSSL, and a parameter here.
-- Words, Hmac, Scram and Hex, below this module, prove what the functions do.
pub mod Words
pub mod Hmac
pub mod Scram
pub mod Hex
pub mod Opened
mod Examples
use prosody_trunk.Base.{ℕ, zero, suc, ◌+◌, ◌-◌, ◌*◌, ◌/◌, ◌%◌, Bool, true, false}
use prosody_trunk.Base.{
  Option, none, some, List, [], ◌∷◌, ◌++◌, ltb, if◌then◌else◌, bit_and, bit_xor,
}
use prosody_trunk.Base.{length, get_or, take, replicate}
use prosody_trunk.Base.Int.{ℤ, pos, negsuc, to_int, to_size}
use prosody_trunk.Base.Text.{bytes}
use prosody_trunk.Lua.{Value, string}

-- `hex_tab[n]`
pub hex_digit : ℕ → ℕ
hex_digit n = get_or (bytes "0123456789abcdef") n 0

pub to_hex : List ℕ → List ℕ
to_hex [] = []
to_hex (b ∷ s) = hex_digit (bit_and (b / 16) 0xF) ∷ hex_digit (bit_and b 0xF) ∷ to_hex s

-- What the functions made by MAKE_HASH_FUNCTION and MAKE_HMAC_FUNCTION return of a digest.
pub l_digest : List ℕ → Bool → List Value
l_digest hash hex_out = string (if hex_out then to_hex hash else hash) ∷ []

-- MAKE_HASH_FUNCTION, of a digest function such as `SHA1`.
pub l_hash : (List ℕ → List ℕ) → List ℕ → Bool → List Value
l_hash func s hex_out = l_digest (func s) hex_out

-- `struct hash_desc`: a context is made by `init`, fed by `update` and read by `final`.
pub record HashDesc : Type 1 where
  pub Ctx : Type 0
  pub init : Ctx
  pub update : Ctx → List ℕ → Ctx
  pub final : Ctx → List ℕ
  pub digest_length : ℕ

-- A `uint32_t` that shares its storage with four bytes, the first one the lowest.
pub word : ℕ → ℕ → ℕ → ℕ → ℕ
word a b c d = ((d * 256 + c) * 256 + b) * 256 + a

pub word_bytes : ℕ → List ℕ
word_bytes w = w % 256 ∷ w / 256 % 256 ∷ w / 256 / 256 % 256 ∷ w / 256 / 256 / 256 % 256 ∷ []

-- `n` rounds of `quadbytes[i] ^= mask`.
pub xor_mask : ℕ → ℕ → List ℕ → List ℕ
xor_mask (suc n) mask (a ∷ b ∷ c ∷ d ∷ s) =
    word_bytes (bit_xor (word a b c d) mask) ++ xor_mask n mask s
xor_mask _ mask s = s

-- `n` rounds of `res.quadbytes[j] ^= Und.quadbytes[j]`.
pub xor_quads : ℕ → List ℕ → List ℕ → List ℕ
xor_quads (suc n) (a ∷ b ∷ c ∷ d ∷ s) (e ∷ f ∷ g ∷ h ∷ t) =
    word_bytes (bit_xor (word a b c d) (word e f g h)) ++ xor_quads n s t
xor_quads _ s t = s

abbrev pub hmac_ipad : ℕ
hmac_ipad = 0x36363636

abbrev pub hmac_opad : ℕ
hmac_opad = 0x5c5c5c5c

module _ (desc : HashDesc) where
  open desc use {init, update, final, digest_length}

  -- The key of at most 64 bytes that is used.
  pub hmac_key : List ℕ → List ℕ
  hmac_key key = if ltb 64 (length key) then take digest_length (final (update init key)) else key

  pub hmac : List ℕ → List ℕ → List ℕ
  hmac key msg =
      let k = hmac_key key in
      let padded = k ++ replicate (64 - length k) 0 in
      let k_ipad = xor_mask 16 hmac_ipad padded in
      let k_opad = xor_mask 16 hmac_opad padded in
      let result = final (update (update init k_ipad) msg) in
      final (update (update init k_opad) (take digest_length result))

  -- MAKE_HMAC_FUNCTION
  pub l_hmac : List ℕ → List ℕ → Bool → List Value
  l_hmac key msg hex_out = l_digest (hmac key msg) hex_out

  -- The loop of `LscramHi`, over the rounds that are left; `Ust` and `res` are its variables.
  pub hi_loop : ℕ → List ℕ → List ℕ → List ℕ → List ℕ
  hi_loop zero str ust res = res
  hi_loop (suc n) str ust res = let und = hmac str ust in hi_loop n str und (xor_quads 5 res und)

  -- `for(i = 1; i < iter; i++)`
  pub hi_rounds : ℤ → ℕ
  hi_rounds (pos n) = n - 1
  hi_rounds (negsuc n) = 0

  -- `none` is the Lua error raised where `malloc` fails. In the source `desc` is that of SHA-1.
  -- The count that Lua gives is cut to an `int`.
  pub l_scram_hi : Bool → List ℕ → List ℕ → ℤ → Option (List Value)
  l_scram_hi allocated str salt iter =
      let ust = hmac str (salt ++ (0 ∷ 0 ∷ 0 ∷ 1 ∷ [])) in
      let i = to_int (to_size iter) in
      if allocated then some (string (hi_loop (hi_rounds i) str ust ust) ∷ []) else none
