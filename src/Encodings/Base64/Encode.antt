-- ===== src/Encodings/Base64/Encode.antt =====
-- `Lbase64_encode` against RFC 4648.
use prosody_trunk.Base.{
  ℕ, zero, suc, ◌+◌, ◌*◌, ◌/◌, ◌%◌, ◌^◌, ◌<◌, ◌≡◌, refl, sym, some, ap, ◌∙◌, arith,
}
use prosody_trunk.Base.{List, [], ◌∷◌, ◌++◌, All, length, append_assoc}
use prosody_trunk.Base.Int.{pos, to_int}
use prosody_trunk.Encodings.Base64.{base64_encode, encode_loop, encode_rest, encode_from, encode}
use prosody_trunk.Encodings.Base64.Quantum.{
  digit, base64_encode-digits, base64_encode-one, base64_encode-two,
}

abbrev pub IsByte : ℕ → Type 0
IsByte b = b < 256

-- The encoding of RFC 4648, section 4: six bits to a digit, three bytes to four digits.
unfoldable pub rfc4648 : List ℕ → List ℕ
rfc4648 [] = []
rfc4648 (a ∷ []) = digit (a / 4) ∷ digit (a % 4 * 16) ∷ b'=' ∷ b'=' ∷ []
rfc4648 (a ∷ b ∷ []) = digit (a / 4) ∷ digit (a % 4 * 16 + b / 16) ∷ digit (b % 16 * 4) ∷ b'=' ∷ []
rfc4648 (a ∷ b ∷ c ∷ s) =
    digit (a / 4)
    ∷ digit (a % 4 * 16 + b / 16)
    ∷ digit (b % 16 * 4 + c / 64)
    ∷ digit (c % 64)
    ∷ rfc4648 s

-- What `Lbase64_encode` returns from the string `s` on, with `out` in its buffer.
abbrev loop_from : ℕ → ℕ → List ℕ → List ℕ → List ℕ
loop_from n r s out = let (rest, out') = encode_loop n s out in out' ++ encode_rest r rest

loop_from-rfc4648 :
    (s out : List ℕ) (n r : ℕ)
    → length s ≡ 3 * n + r
    → r < 3
    → All IsByte s
    → loop_from n r s out ≡ out ++ rfc4648 s
unfolding encode_loop encode_rest rfc4648
loop_from-rfc4648 [] out n r e h k =
    let n0 : n ≡ 0 = omega arith in let r0 : r ≡ 0 = omega arith in rw (n0, r0)
loop_from-rfc4648 (a ∷ []) out n r e h k =
    let n0 : n ≡ 0 = omega arith in
    let r1 : r ≡ 1 = omega arith in rw (n0, r1, base64_encode-one a k.0)
loop_from-rfc4648 (a ∷ b ∷ []) out n r e h k =
    let n0 : n ≡ 0 = omega arith in
    let r2 : r ≡ 2 = omega arith in rw (n0, r2, base64_encode-two a b k.0 k.1.0)
loop_from-rfc4648 (a ∷ b ∷ c ∷ s) out zero r e h k = absurd (omega arith)
loop_from-rfc4648 (a ∷ b ∷ c ∷ s) out (suc n) r e h (ka, (kb, (kc, k))) =
    loop_from-rfc4648 s (out ++ base64_encode a b c 3) n r (omega arith) h k
    ∙ append_assoc out (base64_encode a b c 3) (rfc4648 s)
    ∙ ap (λ t. out ++ (t ++ rfc4648 s)) (base64_encode-digits a b c ka kb kc)

-- The number of triples of such a string fits an `int`.
abbrev pub IsShort : List ℕ → Type 0
IsShort s = length s < 3 * 2 ^ 31

pub encode-rfc4648 : (s : List ℕ) → IsShort s → All IsByte s → encode s ≡ some (rfc4648 s)
unfolding encode encode_from
encode-rfc4648 s h k =
    let kept : to_int (length s / 3) ≡ pos (length s / 3) = ground arith in
    rw kept
      (ap some (loop_from-rfc4648 s [] (length s / 3) (length s % 3) (omega arith) (omega arith) k))

length-rfc4648 : (s : List ℕ) → length (rfc4648 s) ≡ 4 * ((length s + 2) / 3)
unfolding rfc4648
length-rfc4648 [] = refl
length-rfc4648 (a ∷ []) = refl
length-rfc4648 (a ∷ b ∷ []) = refl
length-rfc4648 (a ∷ b ∷ c ∷ s) = omega (arith, length-rfc4648 s)

-- The encoding of a string of bytes has four characters for each three bytes begun.
pub length-encode :
    (s t : List ℕ)
    → IsShort s
    → All IsByte s
    → encode s ≡ some t
    → length t ≡ 4 * ((length s + 2) / 3)
length-encode s t h k e =
    let q : rfc4648 s ≡ t = cc (sym (encode-rfc4648 s h k) ∙ e) in
    ap length (sym q) ∙ length-rfc4648 s
