-- ===== src/Encodings/Utf8/Sequences.antt =====
-- One UTF-8 sequence: `utf8_decode` reads back the encoding of every Unicode scalar value.
use prosody_trunk.Base.{ℕ, ◌+◌, ◌-◌, ◌*◌, ◌/◌, ◌%◌, ◌≤◌, ◌<◌, ◌≡◌, ap, ◌∙◌}
use prosody_trunk.Base.{none, some, List, [], ◌∷◌, ◌++◌, ltb, get_or}
use prosody_trunk.Base.{if◌then◌else◌, arith, ◌⊎◌, inl, inr, lt→ltb, le→ltb}
use prosody_trunk.Encodings.Utf8.{Reading, cont_loop, finish, limits, utf8_decode}
use prosody_trunk.Encodings.Utf8.Reader.{
  IsTail, cont_loop-stop, cont_loop-more, continue_lem, checked, finish_lem,
}
use native.Mathlib.Decide.{dec_lt}

-- RFC 3629: a scalar value, and its encoding in one to four bytes.
abbrev pub IsScalar : ℕ → Type 0
IsScalar v = (v < 0xd800) ⊎ ((0xe000 ≤ v) × (v ≤ 0x10FFFF))

unfoldable pub utf8_encode : ℕ → List ℕ
utf8_encode v =
    if ltb v 0x80
    then v ∷ []
    else if ltb v 0x800
    then (192 + v / 64) ∷ (128 + v % 64) ∷ []
    else if ltb v 0x10000
    then (224 + v / 64 / 64) ∷ (128 + v / 64 % 64) ∷ (128 + v % 64) ∷ []
    else (240 + v / 64 / 64 / 64)
      ∷ (128 + v / 64 / 64 % 64)
      ∷ (128 + v / 64 % 64)
      ∷ (128 + v % 64)
      ∷ []

abbrev pub start : ℕ → Reading
start c = record { c = c; count = 0; res = 0 }

pub decode_lem :
    (c : ℕ) (s rest : List ℕ) (r : Reading)
    → 128 ≤ c
    → cont_loop s (start c) ≡ some (r, rest)
    → utf8_decode (c ∷ s) ≡ finish r rest
unfolding utf8_decode
decode_lem c s rest r h e = rw (le→ltb c 0x80 h, e)

decode_none :
    (c : ℕ) (s : List ℕ) → 128 ≤ c → cont_loop s (start c) ≡ none → utf8_decode (c ∷ s) ≡ none
unfolding utf8_decode
decode_none c s h e = rw (le→ltb c 0x80 h, e)

-- The first byte asks for a continuation byte, and gets one.
one_tail :
    (c a : ℕ) (s : List ℕ)
    → 192 ≤ c
    → c < 256
    → IsTail a
    → cont_loop (a ∷ s) (start c) ≡ cont_loop s (record { c = c * 2; count = 1; res = a - 128 })
one_tail c a s h l t =
    cont_loop-more a s (start c) (omega arith) (omega arith) t
    ∙ ap (cont_loop s) (continue_lem (start c) a (omega arith) (omega arith) t)
    ∙ ap (λ n. cont_loop s (record { c = c * 2; count = 1; res = n })) (omega arith)

two_tails :
    (c a b : ℕ) (s : List ℕ)
    → 224 ≤ c
    → c < 256
    → IsTail a
    → IsTail b
    → cont_loop (a ∷ b ∷ s) (start c)
      ≡ cont_loop s (record { c = c * 2 * 2; count = 2; res = (a - 128) * 64 + (b - 128) })
two_tails c a b s h l t u =
    let r : Reading = record { c = c * 2; count = 1; res = a - 128 } in
    one_tail c a (b ∷ s) (omega arith) l t
    ∙ cont_loop-more b s r (omega arith) (omega arith) u
    ∙ ap (cont_loop s) (continue_lem r b (omega arith) (omega arith) u)

three_tails :
    (c a b d : ℕ) (s : List ℕ)
    → 240 ≤ c
    → c < 256
    → IsTail a
    → IsTail b
    → IsTail d
    → cont_loop (a ∷ b ∷ d ∷ s) (start c)
      ≡ cont_loop s (record {
        c = c * 2 * 2 * 2;
        count = 3;
        res = ((a - 128) * 64 + (b - 128)) * 64 + (d - 128);
      })
three_tails c a b d s h l t u w =
    let r : Reading = record { c = c * 2 * 2; count = 2; res = (a - 128) * 64 + (b - 128) } in
    two_tails c a b (d ∷ s) (omega arith) l t u
    ∙ cont_loop-more d s r (omega arith) (omega arith) w
    ∙ ap (cont_loop s) (continue_lem r d (omega arith) (omega arith) w)

pub decode_two :
    (c a : ℕ) (s : List ℕ)
    → 192 ≤ c
    → c < 224
    → IsTail a
    → utf8_decode (c ∷ a ∷ s) ≡ checked 1 ((c - 192) * 64 + (a - 128)) s
decode_two c a s h l t =
    let r : Reading = record { c = c * 2; count = 1; res = a - 128 } in
    decode_lem c (a ∷ s) s r (omega arith)
      (one_tail c a s h (omega arith) t ∙ cont_loop-stop s r (omega arith) (omega arith))
    ∙ finish_lem 1 (c - 192) (c * 2) (a - 128) s (omega arith) (omega arith) (omega arith)
        (omega arith) (omega arith)
    ∙ ap (λ v. checked 1 v s) (omega arith)

pub decode_three :
    (c a b : ℕ) (s : List ℕ)
    → 224 ≤ c
    → c < 240
    → IsTail a
    → IsTail b
    → utf8_decode (c ∷ a ∷ b ∷ s) ≡ checked 2 (((c - 224) * 64 + (a - 128)) * 64 + (b - 128)) s
decode_three c a b s h l t u =
    let r : Reading = record { c = c * 2 * 2; count = 2; res = (a - 128) * 64 + (b - 128) } in
    decode_lem c (a ∷ b ∷ s) s r (omega arith)
      (two_tails c a b s h (omega arith) t u ∙ cont_loop-stop s r (omega arith) (omega arith))
    ∙ finish_lem 2 (c - 224) (c * 2 * 2) ((a - 128) * 64 + (b - 128)) s (omega arith) (omega arith)
        (omega arith) (omega arith) (omega arith)
    ∙ ap (λ v. checked 2 v s) (omega arith)

pub decode_four :
    (c a b d : ℕ) (s : List ℕ)
    → 240 ≤ c
    → c < 248
    → IsTail a
    → IsTail b
    → IsTail d
    → utf8_decode (c ∷ a ∷ b ∷ d ∷ s)
      ≡ checked 3 ((((c - 240) * 64 + (a - 128)) * 64 + (b - 128)) * 64 + (d - 128)) s
decode_four c a b d s h l t u w =
    let v = ((a - 128) * 64 + (b - 128)) * 64 + (d - 128) in
    let r : Reading = record { c = c * 2 * 2 * 2; count = 3; res = v } in
    decode_lem c (a ∷ b ∷ d ∷ s) s r (omega arith)
      (three_tails c a b d s h (omega arith) t u w ∙ cont_loop-stop s r (omega arith) (omega arith))
    ∙ finish_lem 3 (c - 240) (c * 2 * 2 * 2) v s (omega arith) (omega arith) (omega arith)
        (omega arith) (omega arith)
    ∙ ap (λ x. checked 3 x s) (omega arith)

checked_ok :
    (n v : ℕ) (s : List ℕ) → IsScalar v → get_or limits n 0 < v → checked n v s ≡ some (v, s)
unfolding checked
checked_ok n v s (inl h) l = ground arith
checked_ok n v s (inr h) l = ground arith

-- `utf8_decode` reads back every scalar value from its encoding, and leaves what follows it.
pub utf8_decode-encode :
    (v : ℕ) (rest : List ℕ) → IsScalar v → utf8_decode (utf8_encode v ++ rest) ≡ some (v, rest)
unfolding utf8_encode
utf8_decode-encode v rest h = elim (dec_lt v 0x80) [
  | yes a ↦ rw (lt→ltb v 0x80 a) (unfold utf8_decode in rw (lt→ltb v 0x80 a))
  | no a ↦ elim (dec_lt v 0x800) [
    | yes b ↦
        rw (le→ltb v 0x80 (omega arith), lt→ltb v 0x800 b)
          (decode_two (192 + v / 64) (128 + v % 64) rest (omega arith) (omega arith) (omega arith)
            ∙ ap (λ x. checked 1 x rest) (omega arith)
            ∙ checked_ok 1 v rest h (omega arith))
    | no b ↦ elim (dec_lt v 0x10000) [
      | yes d ↦
          rw (le→ltb v 0x80 (omega arith), le→ltb v 0x800 (omega arith), lt→ltb v 0x10000 d)
            (decode_three (224 + v / 64 / 64) (128 + v / 64 % 64) (128 + v % 64) rest (omega arith)
                (omega arith) (omega arith) (omega arith)
              ∙ ap (λ x. checked 2 x rest) (omega arith)
              ∙ checked_ok 2 v rest h (omega arith))
      | no d ↦
          let top : v ≤ 0x10FFFF = omega arith in
          rw
            (
              le→ltb v 0x80 (omega arith),
              le→ltb v 0x800 (omega arith),
              le→ltb v 0x10000 (omega arith),
            )
            (decode_four (240 + v / 64 / 64 / 64) (128 + v / 64 / 64 % 64) (128 + v / 64 % 64)
                (128 + v % 64) rest (omega arith) (omega arith) (omega arith) (omega arith)
                (omega arith)
              ∙ ap (λ x. checked 3 x rest) (omega arith)
              ∙ checked_ok 3 v rest h (omega arith))
    ]
  ]
]
