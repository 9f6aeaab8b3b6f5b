-- ===== src/Encodings/Base64/Quantum.antt =====
-- Three bytes and their four digits: what `base64_encode` writes, and what `decode_loop` makes of it.
use prosody_trunk.Base.{ℕ, ◌+◌, ◌*◌, ◌/◌, ◌%◌, ◌^◌, ◌<◌, ◌≡◌, refl, arith, Bool, true, false}
use prosody_trunk.Base.{not, ◌&&◌, some, none, List, [], ◌∷◌, ◌==◌, get_or, get_or-All}
use prosody_trunk.Base.Bits.{all_below, all_below_sound}
use prosody_trunk.Encodings.Base64.{
  code, base64_encode, base64_decode, position, is_space, flush, add_digit, decode_round,
}

pub digit : ℕ → ℕ
digit d = get_or code d 0

pub digit-byte : (d : ℕ) → digit d < 256
unfolding digit code
digit-byte d = get_or-All (λ b. b < 256) code d 0 (omega arith) (omega arith)

-- The decoder takes the byte `x` for the digit `d`.
is_digit : ℕ → ℕ → Bool
is_digit x d =
    not (x == 0)
    && not (x == b'=')
    && not (is_space x)
    && (elim (position x code) [ none ↦ false | some p ↦ p == d ])

decode_round-is_digit :
    (x d : ℕ) (t out : List ℕ) → is_digit x d ≡ true → decode_round x t out ≡ add_digit d t out
unfolding is_digit decode_round
decode_round-is_digit x d t out h = ground arith

digit_table : all_below 64 (λ d. is_digit (digit d) d) ≡ true
unfolding all_below is_digit is_space position digit code
digit_table = refl

pub decode_round-digit :
    (d : ℕ) (t out : List ℕ) → d < 64 → decode_round (digit d) t out ≡ add_digit d t out
decode_round-digit d t out h =
    decode_round-is_digit (digit d) d t out (all_below_sound 64 _ d digit_table h)

-- The digits of three bytes, the last ones of them padding where `n` is less than 3.
pub base64_encode-digits :
    (a b c : ℕ)
    → a < 256
    → b < 256
    → c < 256
    → base64_encode a b c 3
      ≡ digit (a / 4)
        ∷ digit (a % 4 * 16 + b / 16)
        ∷ digit (b % 16 * 4 + c / 64)
        ∷ digit (c % 64)
        ∷ []
unfolding base64_encode digit
base64_encode-digits a b c ha hb hc =
    let t = c + 256 * (b + 256 * a) in
    let p : t / 64 / 64 / 64 % 64 ≡ a / 4 = omega arith in
    let q : t / 64 / 64 % 64 ≡ a % 4 * 16 + b / 16 = omega arith in
    let r : t / 64 % 64 ≡ b % 16 * 4 + c / 64 = omega arith in
    let s : t % 64 ≡ c % 64 = omega arith in rw (p, q, r, s)

pub base64_decode-bytes :
    (a b c : ℕ)
    → a < 256
    → b < 256
    → c < 256
    → base64_decode (a / 4) (a % 4 * 16 + b / 16) (b % 16 * 4 + c / 64) (c % 64) 4 ≡ a ∷ b ∷ c ∷ []
unfolding base64_decode
base64_decode-bytes a b c ha hb hc =
    let t = c % 64 + 64 * (b % 16 * 4 + c / 64 + 64 * (a % 4 * 16 + b / 16 + 64 * (a / 4))) in
    let e : t ≡ c + 256 * (b + 256 * a) = omega arith in
    let p : (c + 256 * (b + 256 * a)) / 2 ^ 16 % 256 ≡ a = omega arith in
    let q : (c + 256 * (b + 256 * a)) / 2 ^ 8 % 256 ≡ b = omega arith in
    let r : (c + 256 * (b + 256 * a)) % 256 ≡ c = omega arith in rw (e, p, q, r)

-- One byte or two, with padding for the digits that are missing.
pub base64_encode-one :
    (a : ℕ)
    → a < 256
    → base64_encode a 0 0 1 ≡ digit (a / 4) ∷ digit (a % 4 * 16) ∷ b'=' ∷ b'=' ∷ []
unfolding base64_encode digit
base64_encode-one a ha =
    let t = 0 + 256 * (0 + 256 * a) in
    let p : t / 64 / 64 / 64 % 64 ≡ a / 4 = omega arith in
    let q : t / 64 / 64 % 64 ≡ a % 4 * 16 = omega arith in rw (p, q)

pub base64_encode-two :
    (a b : ℕ)
    → a < 256
    → b < 256
    → base64_encode a b 0 2
      ≡ digit (a / 4) ∷ digit (a % 4 * 16 + b / 16) ∷ digit (b % 16 * 4) ∷ b'=' ∷ []
unfolding base64_encode digit
base64_encode-two a b ha hb =
    let t = 0 + 256 * (b + 256 * a) in
    let p : t / 64 / 64 / 64 % 64 ≡ a / 4 = omega arith in
    let q : t / 64 / 64 % 64 ≡ a % 4 * 16 + b / 16 = omega arith in
    let r : t / 64 % 64 ≡ b % 16 * 4 = omega arith in rw (p, q, r)

pub flush-one : (a : ℕ) → a < 256 → flush ((a / 4) ∷ (a % 4 * 16) ∷ []) ≡ a ∷ []
unfolding flush base64_decode
flush-one a ha =
    let p : (0 + 64 * (0 + 64 * (a % 4 * 16 + 64 * (a / 4)))) / 2 ^ 16 % 256 ≡ a = omega arith in
    rw p

pub flush-two :
    (a b : ℕ)
    → a < 256
    → b < 256
    → flush ((a / 4) ∷ (a % 4 * 16 + b / 16) ∷ (b % 16 * 4) ∷ []) ≡ a ∷ b ∷ []
unfolding flush base64_decode
flush-two a b ha hb =
    let t = 0 + 64 * (b % 16 * 4 + 64 * (a % 4 * 16 + b / 16 + 64 * (a / 4))) in
    let p : t / 2 ^ 16 % 256 ≡ a = omega arith in
    let q : t / 2 ^ 8 % 256 ≡ b = omega arith in rw (p, q)
