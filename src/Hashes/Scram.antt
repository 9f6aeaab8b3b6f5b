-- ===== src/Hashes/Scram.antt =====
-- `LscramHi` of hashes.c against `Hi` of RFC 5802.
use prosody_trunk.Base.{ℕ, zero, suc, ◌+◌, ◌-◌, ◌^◌, ◌<◌, ◌≡◌, ap, ◌∙◌, sym, arith}
use prosody_trunk.Base.{List, [], ◌∷◌, ◌++◌, All, length, true, some}
use prosody_trunk.Base.Int.{pos, to_int, to_size}
use prosody_trunk.Lua.{string}
use prosody_trunk.Hashes.{HashDesc, hmac, hi_loop, hi_rounds, l_scram_hi}
use prosody_trunk.Hashes.Words.{
  IsByte, xor_bytes, xor_quads-xor_bytes, xor_bytes-IsByte, length-xor_bytes,
}
use prosody_trunk.Hashes.Hmac.{IsDigest}

module _ (desc : HashDesc) (str salt : List ℕ) where
  -- RFC 5802, section 2.2: U1 is the HMAC of the salt and INT(1), and each other the HMAC of the one
  -- before it; `hi k` is the exclusive or of the first `k + 1` of them.
  unfoldable pub u : ℕ → List ℕ
  u zero = hmac desc str (salt ++ (0 ∷ 0 ∷ 0 ∷ 1 ∷ []))
  u (suc k) = hmac desc str (u k)

  unfoldable pub hi : ℕ → List ℕ
  unfolding u
  hi zero = u zero
  hi (suc k) = xor_bytes (hi k) (u (suc k))

module _ (desc : HashDesc) (laws : IsDigest desc) (sha1 : desc.digest_length ≡ 20)
    (str salt : List ℕ) where
  hmac-sized : (msg : List ℕ) → (length (hmac desc str msg) ≡ 20) × All IsByte (hmac desc str msg)
  unfolding hmac
  hmac-sized msg = (laws.sized _ ∙ sha1, laws.bytes _)

  u-sized : (k : ℕ) → (length (u desc str salt k) ≡ 20) × All IsByte (u desc str salt k)
  unfolding u
  u-sized zero = hmac-sized _
  u-sized (suc k) = hmac-sized _

  hi-sized : (k : ℕ) → (length (hi desc str salt k) ≡ 20) × All IsByte (hi desc str salt k)
  unfolding hi
  hi-sized zero = u-sized zero
  hi-sized (suc k) =
      let (l, b) = hi-sized k in
      let (m, c) = u-sized (suc k) in
      (length-xor_bytes _ _ (l ∙ sym m) ∙ l, xor_bytes-IsByte _ _ b c)

  hi_loop-hi :
      (n k : ℕ)
      → hi_loop desc n str (u desc str salt k) (hi desc str salt k) ≡ hi desc str salt (n + k)
  unfolding hi_loop hi
  hi_loop-hi zero k = ap (hi desc str salt) (omega arith)
  hi_loop-hi (suc n) k =
      let (l, b) = hi-sized k in
      let (m, c) = u-sized (suc k) in
      ap (hi_loop desc n str (u desc str salt (suc k))) (xor_quads-xor_bytes 5 _ _ b c l m)
      ∙ hi_loop-hi n (suc k)
      ∙ ap (hi desc str salt) (omega arith)

  -- With memory for the salt and a digest of 20 bytes, `LscramHi` returns `Hi(str, salt, i)` of
  -- RFC 5802 for every iteration count `i` above zero and below 2 ^ 31.
  pub l_scram_hi-hi :
      (i : ℕ)
      → suc i < 2 ^ 31
      → l_scram_hi desc true str salt (pos (suc i)) ≡ some (string (hi desc str salt i) ∷ [])
  unfolding l_scram_hi hi_rounds
  l_scram_hi-hi i small =
      let kept : to_int (to_size (pos (suc i))) ≡ pos (suc i) = ground arith in
      rw kept (
        ap (λ t. some (string t ∷ []))
          (unfold hi in
            (let e : suc i - 1 ≡ i = omega arith in
              rw e (hi_loop-hi i 0 ∙ ap (hi desc str salt) (omega arith)))))
