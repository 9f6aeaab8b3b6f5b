-- ===== src/Hashes/Hmac.antt =====
-- `hmac` of hashes.c against RFC 2104.
use prosody_trunk.Base.{ℕ, ◌-◌, ◌≤◌, ◌≡◌, ap, ap₂, ◌∙◌, arith}
use prosody_trunk.Base.{List, ◌++◌, All, length, map, bit_xor, replicate, take-length}
use prosody_trunk.Base.{
  length-append, length-replicate, All-append, All-replicate, ltb, if◌then◌else◌,
}
use prosody_trunk.Base.{Bool-cases, inl, inr}
use prosody_trunk.Hashes.{HashDesc, hmac_key, hmac, xor_mask, hmac_ipad}
use prosody_trunk.Hashes.Words.{IsByte, xor_ipad, xor_opad}

-- What OpenSSL documents of its digest functions: contexts take a message in pieces, and the digest
-- has its length. No digest is longer than 64 bytes.
pub record IsDigest (desc : HashDesc) : Type 1 where
  pub pieces :
      (s t : List ℕ)
      → desc.final (desc.update (desc.update desc.init s) t)
        ≡ desc.final (desc.update desc.init (s ++ t))
  pub sized : (c : desc.Ctx) → length (desc.final c) ≡ desc.digest_length
  pub bytes : (c : desc.Ctx) → All IsByte (desc.final c)
  pub at_most : desc.digest_length ≤ 64

module _ (desc : HashDesc) where
  -- The digest of a message in one piece.
  unfoldable pub digest : List ℕ → List ℕ
  digest s = desc.final (desc.update desc.init s)

  -- RFC 2104, section 2, for blocks of 64 bytes: a key that is longer than a block is hashed first.
  unfoldable pub block_key : List ℕ → List ℕ
  block_key key =
      let k = (if ltb 64 (length key) then digest key else key) in k ++ replicate (64 - length k) 0

  unfoldable pub rfc2104 : List ℕ → List ℕ → List ℕ
  rfc2104 key text = digest (
      map (λ b. bit_xor b 0x5c) (block_key key)
      ++ digest (map (λ b. bit_xor b 0x36) (block_key key) ++ text))

module _ (desc : HashDesc) (laws : IsDigest desc) where
  hmac_key_lem :
      (key : List ℕ) → hmac_key desc key ≡ (if ltb 64 (length key) then digest desc key else key)
  unfolding hmac_key digest
  hmac_key_lem key =
      ap (λ t. if ltb 64 (length key) then t else key)
        (take-length desc.digest_length _ (omega (arith, laws.sized _)))

  hmac_key-fits :
      (key : List ℕ)
      → All IsByte key
      → (length (hmac_key desc key) ≤ 64) × All IsByte (hmac_key desc key)
  unfolding digest
  hmac_key-fits key k = elim (Bool-cases (ltb 64 (length key))) [
    | inl long ↦
        rw (hmac_key_lem key, long)
          (omega (arith, laws.sized (desc.update desc.init key), laws.at_most), laws.bytes _)
    | inr short ↦ rw (hmac_key_lem key, short) (ground arith, k)
  ]

  abbrev padded : List ℕ → List ℕ
  padded k = k ++ replicate (64 - length k) 0

  padded-fits :
      (k : List ℕ) → length k ≤ 64 → All IsByte k → (length (padded k) ≡ 64) × All IsByte (padded k)
  padded-fits k h b = (
    omega (
      arith,
      length-append k (replicate (64 - length k) 0),
      length-replicate {A = ℕ} (64 - length k) 0,
    ),
    All-append IsByte k _ b (All-replicate IsByte (64 - length k) 0 (omega arith)),
  )

  -- For every key and message the function computes the HMAC of RFC 2104: of a digest as OpenSSL
  -- documents it, and on a key of bytes.
  pub hmac-rfc2104 : (key msg : List ℕ) → All IsByte key → hmac desc key msg ≡ rfc2104 desc key msg
  unfolding hmac rfc2104 block_key digest
  hmac-rfc2104 key msg b =
      let k = hmac_key desc key in
      let (short, kb) = hmac_key-fits key b in
      let (full, pb) = padded-fits k short kb in
      let result =
        desc.final (desc.update (desc.update desc.init (xor_mask 16 hmac_ipad (padded k))) msg) in
      let inner : result ≡ inner_of k =
        ap (λ t. desc.final (desc.update (desc.update desc.init t) msg))
          (xor_ipad (padded k) pb full)
        ∙ laws.pieces _ msg in
      ap₂ (λ t u. desc.final (desc.update (desc.update desc.init t) u))
        (xor_opad (padded k) pb full)
        (take-length desc.digest_length result (omega (arith, laws.sized _)) ∙ inner)
      ∙ laws.pieces _ _
      ∙ ap
          (λ t.
            desc.final (desc.update desc.init (map (λ x. bit_xor x 0x5c) (padded t) ++ inner_of t)))
          (hmac_key_lem key)
    where
      inner_of : List ℕ → List ℕ
      inner_of t = desc.final (desc.update desc.init (map (λ x. bit_xor x 0x36) (padded t) ++ msg))
