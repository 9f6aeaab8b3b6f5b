-- ===== src/Hashes/Examples.antt =====
-- The theorems at a digest that is simple enough to follow: the sum of the bytes, written on twenty.
use prosody_trunk.Base.{
  ℕ, ◌+◌, ◌%◌, ◌≡◌, refl, ap, List, [], ◌∷◌, ◌++◌, true, Option, none, some, arith,
}
use prosody_trunk.Base.{All-replicate, replicate}
use prosody_trunk.Base.Int.{pos}
use prosody_trunk.Base.Text.{bytes}
use prosody_trunk.Lua.{string, boolean}
use prosody_trunk.Base.Int.{ℤ}
use prosody_trunk.Hashes.Opened.{OpenSsl}
use prosody_trunk.Hashes.Opened.Served.{Documented, name_of, sha256, call, hashes-rfc2104}
use prosody_trunk.Hashes.{HashDesc, hex_digit, to_hex, l_scram_hi}
use prosody_trunk.Hashes.Words.{IsByte}
use prosody_trunk.Hashes.Hmac.{IsDigest, digest, rfc2104}
use prosody_trunk.Hashes.Scram.{hi, l_scram_hi-hi}

sum_from : ℕ → List ℕ → ℕ
sum_from n [] = n
sum_from n (b ∷ s) = sum_from (n + b) s

sum_from-append : (n : ℕ) (s t : List ℕ) → sum_from (sum_from n s) t ≡ sum_from n (s ++ t)
unfolding sum_from
sum_from-append n [] t = refl
sum_from-append n (b ∷ s) t = sum_from-append (n + b) s t

abbrev checksum : HashDesc
checksum = record {
  Ctx = ℕ;
  init = 0;
  update = sum_from;
  final = λ n. replicate 20 (n % 256);
  digest_length = 20;
}

checksum-IsDigest : IsDigest checksum
checksum-IsDigest = record {
  pieces = λ s t. ap (λ n. replicate 20 (n % 256)) (sum_from-append 0 s t);
  sized = λ c. refl;
  bytes = λ c. All-replicate IsByte 20 (c % 256) (omega arith);
  at_most = omega arith;
}

abbrev message : List ℕ
message = 1 ∷ 2 ∷ []

abbrev checksums : OpenSsl
checksums = record {
  sha1 = digest checksum;
  sha224 = digest checksum;
  sha256 = digest checksum;
  sha384 = digest checksum;
  sha512 = digest checksum;
  md5 = digest checksum;
  sha1_desc = checksum;
  sha256_desc = checksum;
  sha512_desc = checksum;
  md5_desc = checksum;
}

checksums-Documented : Documented checksums sha256
checksums-Documented = record { desc = checksum-IsDigest; agrees = λ s. refl }

abbrev no_numbers : ℤ → List ℕ
no_numbers = λ n. []

abbrev no_integers : List ℕ → Option ℤ
no_integers = λ s. none

abbrev key : List ℕ
key = 7 ∷ 8 ∷ []

hashes-rfc2104_example :
    (call no_numbers no_integers true checksums (name_of sha256) (string message ∷ [])
      ≡ some (string (digest checksum message) ∷ []))
    × (call no_numbers no_integers true checksums
          (name_of sha256)
          (string message ∷ boolean true ∷ [])
        ≡ some (string (to_hex (digest checksum message)) ∷ []))
    × (call no_numbers no_integers true checksums
          (bytes "hmac_" ++ name_of sha256)
          (string key ∷ string message ∷ [])
        ≡ some (string (rfc2104 checksum key message) ∷ []))
    × (call no_numbers no_integers true checksums
          (bytes "hmac_" ++ name_of sha256)
          (string key ∷ string message ∷ boolean true ∷ [])
        ≡ some (string (to_hex (rfc2104 checksum key message)) ∷ []))
hashes-rfc2104_example =
    hashes-rfc2104 no_numbers no_integers true checksums sha256 checksums-Documented key message
      (omega arith)

l_scram_hi-hi_example :
    l_scram_hi checksum true (7 ∷ []) message (pos 3)
    ≡ some (string (hi checksum (7 ∷ []) message 2) ∷ [])
l_scram_hi-hi_example =
    l_scram_hi-hi checksum checksum-IsDigest refl (7 ∷ []) message 2 (omega arith)

hex_of_bytes : to_hex (0x0f ∷ 0xa0 ∷ []) ≡ bytes "0fa0"
unfolding to_hex hex_digit
hex_of_bytes = refl
