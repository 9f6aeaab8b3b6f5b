-- ===== src/Encodings/Utf8/Sound.antt =====
-- `utf8_decode` accepts nothing but the encodings of scalar values: no overlong form, no surrogate,
-- no value out of range, no sequence that is cut short.
use prosody_trunk.Base.{ℕ, ◌/◌, ◌%◌, ◌≤◌, ◌<◌, ◌≡◌, refl, ap, ◌∙◌, sym}
use prosody_trunk.Base.{Option, none, some, List, [], ◌∷◌, ◌++◌, Option-cases}
use prosody_trunk.Base.{All, arith, ◌⊎◌, inl, inr, lt→ltb, le→ltb}
use prosody_trunk.Encodings.Utf8.{Reading, continue, cont_loop, finish, utf8_decode}
use prosody_trunk.Encodings.Utf8.Reader.{
  IsTail, cont_loop-stop, cont_loop-more, cont_loop-end, cont_loop-bad, checked, finish_many,
  finish_lem,
}
use prosody_trunk.Encodings.Utf8.Sequences.{IsScalar, utf8_encode, start, decode_lem}
use prosody_trunk.Encodings.Utf8.Lengths.{none-ne-some, Sound, close_two, close_three, close_four}
use native.Mathlib.Decide.{dec_lt, dec_le}

abbrev pub IsByte : ℕ → Type 0
IsByte b = b < 256

IsTail-dec : (b : ℕ) → IsTail b ⊎ (¬ (IsTail b))
IsTail-dec b = elim (dec_le 128 b) [
  | yes h ↦ elim (dec_lt b 192) [ yes l ↦ inl (h, l) | no l ↦ inr (λ t. l t.1) ]
  | no h ↦ inr (λ t. h t.0)
]

-- If the loop succeeds while the bit of the first byte is set, it has read a continuation byte.
peel {ℓ} :
    {P : Type ℓ} (s : List ℕ) (r : Reading) (o : Reading × List ℕ)
    → r.c < 4096
    → r.c / 64 % 2 ≡ 1
    → All IsByte s
    → cont_loop s r ≡ some o
    → ((cc : ℕ) (t : List ℕ)
        → s ≡ cc ∷ t
        → IsTail cc
        → All IsByte t
        → cont_loop t (continue r cc) ≡ some o
        → P)
    → P
peel [] r o h e b k f = absurd (none-ne-some (sym (cont_loop-end r h e) ∙ k))
peel (cc ∷ s) r o h e (b, bs) k f = elim (IsTail-dec cc) [
  | inl t ↦ f cc s refl t bs (sym (cont_loop-more cc s r h e t) ∙ k)
  | inr t ↦ absurd (none-ne-some (sym (cont_loop-bad cc s r h e b t) ∙ k))
]

-- The loop only counts up.
count-le :
    (s : List ℕ) (r : Reading) {o : Reading × List ℕ} → cont_loop s r ≡ some o → r.count ≤ o.0.count
unfolding cont_loop
count-le [] r {o} k = ground arith
count-le (cc ∷ s) r {o} k = ground (arith, count-le s (continue r cc) {o = o})

-- A multi-byte sequence that is accepted went through the loop and the check.
pub decode_inv :
    (c : ℕ) (s : List ℕ) {p : ℕ × List ℕ}
    → 128 ≤ c
    → utf8_decode (c ∷ s) ≡ some p
    → (o : Reading × List ℕ) × (cont_loop s (start c) ≡ some o) × (finish o.0 o.1 ≡ some p)
unfolding utf8_decode
decode_inv c s h k = elim (Option-cases (cont_loop s (start c))) [
  | inl e ↦ absurd (none-ne-some (rw (le→ltb c 0x80 h, e) at k))
  | inr (o, e) ↦ (o, e, rw (le→ltb c 0x80 h, e) at k)
]

-- A continuation byte in the first place is refused.
decode_tail : (c : ℕ) (s : List ℕ) → 128 ≤ c → c < 192 → utf8_decode (c ∷ s) ≡ none
decode_tail c s h l =
    decode_lem c s s (start c) h (cont_loop-stop s (start c) (omega arith) (omega arith))
    ∙ finish_lem 0 (c % 128) c 0 s (omega arith) (omega arith) (omega arith) (omega arith)
        (omega arith)
    ∙ (unfold checked in ground arith)

-- A first byte that asks for four continuation bytes, or more, has them counted.
many_tails :
    (c : ℕ) (s : List ℕ) (o : Reading × List ℕ)
    → 248 ≤ c
    → c < 256
    → All IsByte s
    → cont_loop s (start c) ≡ some o
    → 3 < o.0.count
many_tails c s o h l bs k = peel s (start c) o (omega arith) (omega arith) bs k λ x1 s1 _ _ b1 k1.
    peel s1 _ o (omega arith) (omega arith) b1 k1 λ x2 s2 _ _ b2 k2.
      peel s2 _ o (omega arith) (omega arith) b2 k2 λ x3 s3 _ _ b3 k3.
        peel s3 _ o (omega arith) (omega arith) b3 k3
          λ x4 s4 _ _ b4 k4. omega (arith, count-le s4 _ k4)

-- By the number of continuation bytes that the first byte asks for.
module _ (c : ℕ) (s : List ℕ) (v : ℕ) (rest : List ℕ) (o : Reading × List ℕ) (bytes : All IsByte s)
    (accepted : utf8_decode (c ∷ s) ≡ some (v, rest))
    (looped : cont_loop s (start c) ≡ some o) where
  of_two : 192 ≤ c → c < 224 → Sound (c ∷ s) v rest
  of_two h l =
      peel s (start c) o (omega arith) (omega arith) bytes looped
        λ a t e ta bt kt. rw e (close_two c a t v rest h l ta (rw e at accepted))

  of_three : 224 ≤ c → c < 240 → Sound (c ∷ s) v rest
  of_three h l = peel s (start c) o (omega arith) (omega arith) bytes looped λ a t e ta bt kt.
      peel t _ o (omega arith) (omega arith) bt kt λ b u f tb bu ku.
        let g : s ≡ a ∷ b ∷ u = e ∙ ap (λ x. a ∷ x) f in
        rw g (close_three c a b u v rest h l ta tb (rw g at accepted))

  of_four : 240 ≤ c → c < 248 → Sound (c ∷ s) v rest
  of_four h l = peel s (start c) o (omega arith) (omega arith) bytes looped λ a t e ta bt kt.
      peel t _ o (omega arith) (omega arith) bt kt λ b u f tb bu ku.
        peel u _ o (omega arith) (omega arith) bu ku λ d w q td bw kw.
          let g : s ≡ a ∷ b ∷ d ∷ w = e ∙ ap (λ x. a ∷ x) (f ∙ ap (λ x. b ∷ x) q) in
          rw g (close_four c a b d w v rest h l ta tb td (rw g at accepted))

of_multi :
    (c : ℕ) (s : List ℕ) (v : ℕ) (rest : List ℕ) (o : Reading × List ℕ)
    → 192 ≤ c
    → c < 256
    → All IsByte s
    → utf8_decode (c ∷ s) ≡ some (v, rest)
    → cont_loop s (start c) ≡ some o
    → finish o.0 o.1 ≡ some (v, rest)
    → Sound (c ∷ s) v rest
of_multi c s v rest o h l bs k e f = elim (dec_lt c 224) [
  | yes a ↦ of_two c s v rest o bs k e h a
  | no a ↦ elim (dec_lt c 240) [
    | yes b ↦ of_three c s v rest o bs k e (omega arith) b
    | no b ↦ elim (dec_lt c 248) [
      | yes d ↦ of_four c s v rest o bs k e (omega arith) d
      | no d ↦
          absurd
            (none-ne-some (sym (finish_many o.0 o.1 (many_tails c s o (omega arith) l bs e)) ∙ f))
    ]
  ]
]

of_one :
    (c : ℕ) (s : List ℕ) (v : ℕ) (rest : List ℕ)
    → c < 128
    → utf8_decode (c ∷ s) ≡ some (v, rest)
    → Sound (c ∷ s) v rest
unfolding utf8_decode utf8_encode
of_one c s v rest h k = last (rw (lt→ltb c 0x80 h) at k)
  where
    last : ◌≡◌ {A = Option (ℕ × List ℕ)} (some (c, s)) (some (v, rest)) → Sound (c ∷ s) v rest
    last e =
        let cv : c ≡ v = ground arith in
        let sr : s ≡ rest = ground arith in
        rw (← cv, ← sr, lt→ltb c 0x80 h) (inl (omega arith), refl)

-- On bytes, whatever `utf8_decode` accepts is the encoding of a scalar value, which it returns with
-- the bytes that follow.
pub utf8_decode_sound :
    (c : ℕ) (s : List ℕ) (v : ℕ) (rest : List ℕ)
    → All IsByte (c ∷ s)
    → utf8_decode (c ∷ s) ≡ some (v, rest)
    → IsScalar v × (c ∷ s ≡ utf8_encode v ++ rest)
utf8_decode_sound c s v rest (b, bs) k = elim (dec_lt c 128) [
  | yes a ↦ of_one c s v rest a k
  | no a ↦ elim (dec_lt c 192) [
    | yes d ↦ absurd (none-ne-some (sym (decode_tail c s (omega arith) d) ∙ k))
    | no d ↦ multi (decode_inv c s (omega arith) k) (omega arith)
  ]
]
  where
    multi :
        (o : Reading × List ℕ) × (cont_loop s (start c) ≡ some o)
          × (finish o.0 o.1 ≡ some (v, rest))
        → 192 ≤ c
        → Sound (c ∷ s) v rest
    multi (o, e, f) h = of_multi c s v rest o h b bs k e f
