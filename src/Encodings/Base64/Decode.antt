-- ===== src/Encodings/Base64/Decode.antt =====
-- `Lbase64_decode`: it reads back what the encoder writes, passes over white space, and fails
-- exactly at a byte that it does not know.
use prosody_trunk.Base.{ℕ, ◌+◌, ◌*◌, ◌/◌, ◌%◌, ◌<◌, ◌≡◌, refl, ap, ◌∙◌, sym, arith}
use prosody_trunk.Base.{List, [], ◌∷◌, ◌++◌, All, append_assoc, append-nil}
use prosody_trunk.Base.{
  Option, some, none, Bool, true, false, if◌then◌else◌, ◌==◌, ◌||◌, ◌&&◌, not, leb,
}
use prosody_trunk.Base.{Bool-cases, Option-cases, eq_of_==, inl, inr}
use prosody_trunk.Base.Bits.{all_below, all_below_sound}
use prosody_trunk.Encodings.Base64.{
  code, position, is_space, Round, finish, fail, go_on, flush, add_digit, decode_round, decode_loop,
  decode, encode,
}
use prosody_trunk.Encodings.Base64.Quantum.{
  digit, decode_round-digit, base64_decode-bytes, flush-one, flush-two,
}
use prosody_trunk.Encodings.Base64.Encode.{IsByte, IsShort, rfc4648, encode-rfc4648}

-- The loop after each of the three outcomes of a round.
decode_loop-go_on :
    (c : ℕ) (s t out : List ℕ) {t' out' : List ℕ}
    → decode_round c t out ≡ go_on t' out'
    → decode_loop (c ∷ s) t out ≡ decode_loop s t' out'
unfolding decode_loop
decode_loop-go_on c s t out e = rw (e, decode_loop)

decode_loop-nil : (t out : List ℕ) → decode_loop [] t out ≡ some out
unfolding decode_loop
decode_loop-nil t out = refl

decode_loop-finish :
    (c : ℕ) (s t out : List ℕ)
    → decode_round c t out ≡ finish
    → decode_loop (c ∷ s) t out ≡ some out
unfolding decode_loop
decode_loop-finish c s t out e = rw (e, decode_loop)

decode_loop-fail :
    (c : ℕ) (s t out : List ℕ) → decode_round c t out ≡ fail → decode_loop (c ∷ s) t out ≡ none
unfolding decode_loop
decode_loop-fail c s t out e = rw (e, decode_loop)

-- One digit, and a padding byte.
decode_loop-digit :
    (d : ℕ) (s t out : List ℕ) {t' out' : List ℕ}
    → d < 64
    → add_digit d t out ≡ go_on t' out'
    → decode_loop (digit d ∷ s) t out ≡ decode_loop s t' out'
decode_loop-digit d s t out h e =
    decode_loop-go_on (digit d) s t out (decode_round-digit d t out h ∙ e)

decode_loop-pad :
    (s t out : List ℕ) → decode_loop (b'=' ∷ s) t out ≡ decode_loop s [] (out ++ flush t)
unfolding decode_round
decode_loop-pad s t out = decode_loop-go_on b'=' s t out refl

decode_loop-rfc4648 :
    (s rest out : List ℕ)
    → All IsByte s
    → decode_loop (rfc4648 s ++ rest) [] out ≡ decode_loop rest [] (out ++ s)
unfolding rfc4648 add_digit flush
decode_loop-rfc4648 [] rest out k = rw append-nil
decode_loop-rfc4648 (a ∷ []) rest out (ka, k) =
    decode_loop-digit (a / 4) _ [] out (omega arith) refl
    ∙ decode_loop-digit (a % 4 * 16) _ _ out (omega arith) refl
    ∙ decode_loop-pad _ _ out
    ∙ decode_loop-pad rest [] _
    ∙ ap (decode_loop rest []) (append-nil (out ++ _))
    ∙ ap (λ t. decode_loop rest [] (out ++ t)) (flush-one a ka)
decode_loop-rfc4648 (a ∷ b ∷ []) rest out (ka, (kb, k)) =
    decode_loop-digit (a / 4) _ [] out (omega arith) refl
    ∙ decode_loop-digit (a % 4 * 16 + b / 16) _ _ out (omega arith) refl
    ∙ decode_loop-digit (b % 16 * 4) _ _ out (omega arith) refl
    ∙ decode_loop-pad rest _ out
    ∙ ap (λ t. decode_loop rest [] (out ++ t)) (flush-two a b ka kb)
decode_loop-rfc4648 (a ∷ b ∷ c ∷ s) rest out (ka, (kb, (kc, k))) =
    decode_loop-digit (a / 4) _ [] out (omega arith) refl
    ∙ decode_loop-digit (a % 4 * 16 + b / 16) _ _ out (omega arith) refl
    ∙ decode_loop-digit (b % 16 * 4 + c / 64) _ _ out (omega arith) refl
    ∙ decode_loop-digit (c % 64) _ _ out (omega arith) refl
    ∙ decode_loop-rfc4648 s rest _ k
    ∙ ap (λ t. decode_loop rest [] (out ++ t ++ s)) (base64_decode-bytes a b c ka kb kc)
    ∙ ap (decode_loop rest []) (append_assoc out (a ∷ b ∷ c ∷ []) s)

-- Decoding gives back the bytes that were encoded, also where encodings stand one behind another, of
-- strings of fewer than 3 * 2 ^ 31 bytes: on those the encoder returns.
pub decode-encode :
    (s u : List ℕ)
    → IsShort s
    → IsShort u
    → All IsByte s
    → All IsByte u
    → (t v : List ℕ) × (encode s ≡ some t) × (encode u ≡ some v) × (decode (t ++ v) ≡ some (s ++ u))
unfolding decode
decode-encode s u hs hu ks ku = (
  rfc4648 s,
  rfc4648 u,
  encode-rfc4648 s hs ks,
  encode-rfc4648 u hu ku,
  decode_loop-rfc4648 s (rfc4648 u) [] ks
      ∙ ap (λ t. decode_loop t [] s) (sym (append-nil (rfc4648 u)))
      ∙ decode_loop-rfc4648 u [] s ku
      ∙ decode_loop-nil [] (s ++ u),
)

-- White space may stand anywhere.
pub strip : List ℕ → List ℕ
strip [] = []
strip (c ∷ s) = let rest = strip s in if is_space c then rest else c ∷ rest

decode_round-space :
    (c : ℕ) (t out : List ℕ) → is_space c ≡ true → decode_round c t out ≡ go_on t out
unfolding is_space decode_round
decode_round-space c t out e = ground arith

-- Rounds that go on equally from any state make equal loops.
decode_loop-congr :
    (c : ℕ) (s u t out : List ℕ)
    → ((t' out' : List ℕ) → decode_loop s t' out' ≡ decode_loop u t' out')
    → decode_loop (c ∷ s) t out ≡ decode_loop (c ∷ u) t out
unfolding decode_loop
decode_loop-congr c s u t out ih = split (decode_round c t out) refl
  where
    split :
        (r : Round)
        → decode_round c t out ≡ r
        → decode_loop (c ∷ s) t out ≡ decode_loop (c ∷ u) t out
    split finish e = rw (e, decode_loop)
    split fail e = rw (e, decode_loop)
    split (go_on t' out') e = rw (e, decode_loop) (ih t' out')

decode_loop-strip : (s t out : List ℕ) → decode_loop (strip s) t out ≡ decode_loop s t out
unfolding strip
decode_loop-strip [] t out = refl
decode_loop-strip (c ∷ s) t out = elim (Bool-cases (is_space c)) [
  | inl space ↦ rw space (
      decode_loop-strip s t out
      ∙ sym (decode_loop-go_on c s t out (decode_round-space c t out space)))
  | inr other ↦ rw other (decode_loop-congr c (strip s) s t out (decode_loop-strip s))
]

-- White space in the input changes nothing.
pub decode-strip : (s : List ℕ) → decode (strip s) ≡ decode s
unfolding decode
decode-strip s = decode_loop-strip s [] []

-- The bytes that the decoder knows; a zero byte ends the string.
known_so_far : List ℕ → Bool
known_so_far [] = true
known_so_far (c ∷ s) =
    let rest = known_so_far s in
    if c == 0
    then true
    else if c == b'=' || is_space c
    then rest
    else elim (position c code) [ none ↦ false | some p ↦ rest ]

pub is_some : Option (List ℕ) → Bool
is_some none = false
is_some (some x) = true

add_digit-go_on :
    (p : ℕ) (t out : List ℕ) → (t' : List ℕ) × (out' : List ℕ) × (add_digit p t out ≡ go_on t' out')
unfolding add_digit
add_digit-go_on p [] out = (_, _, refl)
add_digit-go_on p (a ∷ []) out = (_, _, refl)
add_digit-go_on p (a ∷ b ∷ []) out = (_, _, refl)
add_digit-go_on p (a ∷ b ∷ c ∷ []) out = (_, _, refl)
add_digit-go_on p (a ∷ b ∷ c ∷ d ∷ t) out = (_, _, refl)

-- A round, by what the byte is.
decode_round-other :
    (c : ℕ) (t out : List ℕ)
    → (c == 0) ≡ false
    → (c == b'=') ≡ false
    → is_space c ≡ false
    → decode_round c t out ≡ (elim (position c code) [ none ↦ fail | some p ↦ add_digit p t out ])
unfolding decode_round
decode_round-other c t out z e w = ground arith

-- The body of the loop for `decode_loop-known`, which has the result for the rest.
decode_loop-known_step :
    (c : ℕ) (s t out : List ℕ)
    → ((t' out' : List ℕ) → is_some (decode_loop s t' out') ≡ known_so_far s)
    → is_some (decode_loop (c ∷ s) t out) ≡ known_so_far (c ∷ s)
unfolding known_so_far
decode_loop-known_step c s t out ih = elim (Bool-cases (c == 0)) [
  | inl z ↦
      rw (decode_loop-finish c s t out (unfold decode_round in rw z), z) (unfold is_some in refl)
  | inr z ↦ elim (Bool-cases (c == b'=')) [
    | inl e ↦ rw (at_pad e, z, e) (ih _ _)
    | inr e ↦ elim (Bool-cases (is_space c)) [
      | inl w ↦ rw (decode_loop-go_on c s t out (decode_round-space c t out w), z, e, w) (ih _ _)
      | inr w ↦ other z e w
    ]
  ]
]
  where
    at_pad : (c == b'=') ≡ true → decode_loop (c ∷ s) t out ≡ decode_loop s [] (out ++ flush t)
    at_pad e = let p : c ≡ b'=' = eq_of_== c b'=' e in rw p (decode_loop-pad s t out)

    other :
        (c == 0) ≡ false
        → (c == b'=') ≡ false
        → is_space c ≡ false
        → is_some (decode_loop (c ∷ s) t out) ≡ known_so_far (c ∷ s)
    other z e w = elim (Option-cases (position c code)) [
      | inl n ↦
          rw (decode_loop-fail c s t out (decode_round-other c t out z e w ∙ rw n), z, e, w, n)
            (unfold is_some in refl)
      | inr (p, y) ↦
          let (t', out', g) = add_digit-go_on p t out in
          rw
            (
              decode_loop-go_on c s t out {t' = t'} {out' = out'}
                  (decode_round-other c t out z e w ∙ rw y g),
              z,
              e,
              w,
              y,
            )
            (ih t' out')
    ]

decode_loop-known : (s t out : List ℕ) → is_some (decode_loop s t out) ≡ known_so_far s
unfolding known_so_far
decode_loop-known [] t out = rw decode_loop-nil (unfold is_some in refl)
decode_loop-known (c ∷ s) t out = decode_loop-known_step c s t out (decode_loop-known s)

decode-known : (s : List ℕ) → is_some (decode s) ≡ known_so_far s
unfolding decode
decode-known s = decode_loop-known s [] []

-- The 64 digits of RFC 4648 and the padding.
pub is_digit : ℕ → Bool
is_digit c =
    (leb 65 c && leb c 90)
    || (leb 97 c && leb c 122)
    || (leb 48 c && leb c 57)
    || (c == 43)
    || (c == 47)
    || (c == 61)

-- Backspace, tab, newline, form feed, carriage return and space.
pub is_blank : ℕ → Bool
is_blank c = (leb 8 c && leb c 10) || (c == 12) || (c == 13) || (c == 32)

-- The specification: every byte before the first zero byte is one of these.
pub readable : List ℕ → Bool
readable [] = true
readable (c ∷ s) = let rest = readable s in (c == 0) || ((is_digit c || is_blank c) && rest)

-- A byte by the tables of the code.
known : ℕ → Bool
known c =
    if c == b'=' || is_space c
    then true
    else elim (position c code) [ none ↦ false | some p ↦ true ]

agree : Bool → Bool → Bool
agree true b = b
agree false b = not b

agree-eq : (a b : Bool) → agree a b ≡ true → a ≡ b
unfolding agree
agree-eq true true e = refl
agree-eq true false e = cc e
agree-eq false true e = cc e
agree-eq false false e = refl

known_table : all_below 256 (λ c. agree (known c) (is_digit c || is_blank c)) ≡ true
unfolding all_below agree known is_digit is_blank is_space position code
known_table = refl

known_lem : (c : ℕ) → c < 256 → known c ≡ (is_digit c || is_blank c)
known_lem c h = agree-eq _ _ (all_below_sound 256 _ c known_table h)

known_so_far_lem : (s : List ℕ) → All IsByte s → known_so_far s ≡ readable s
unfolding known_so_far readable known
known_so_far_lem [] h = refl
known_so_far_lem (c ∷ s) (b, h) = elim (Bool-cases (c == 0)) [
  | inl z ↦ rw z refl
  | inr z ↦ rw z (
      step (c == b'=' || is_space c) (position c code) (known_so_far s)
      ∙ ap (λ k. k && known_so_far s) (known_lem c b)
      ∙ ap (λ r. (is_digit c || is_blank c) && r) (known_so_far_lem s h))
]
  where
    step :
        (a : Bool) (o : Option ℕ) (rest : Bool)
        → (if a then rest else elim o [ none ↦ false | some p ↦ rest ])
          ≡ ((if a then true else elim o [ none ↦ false | some p ↦ true ]) && rest)
    step true o rest = refl
    step false none rest = refl
    step false (some p) rest = refl

-- On a string of bytes the decoder returns a string exactly if every byte before the first zero byte
-- is a digit of RFC 4648, the padding, or one of backspace, tab, newline, form feed, carriage return and
-- space, and returns nothing otherwise.
pub decode-readable : (s : List ℕ) → All IsByte s → is_some (decode s) ≡ readable s
decode-readable s h = decode-known s ∙ known_so_far_lem s h
