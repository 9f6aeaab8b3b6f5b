-- ===== src/Encodings/Utf8/Valid.antt =====
-- `check_utf8` on whole strings: it accepts exactly the strings that encode scalar values.
use prosody_trunk.Base.{ℕ, zero, suc, ◌+◌, ◌≤◌, ◌<◌, ◌≡◌, ◌≢◌, refl, ap, ◌∙◌, sym, arith, ◌↔◌}
use prosody_trunk.Base.{
  Option, none, some, List, [], ◌∷◌, ◌++◌, All, length, length-append, Option-cases,
}
use prosody_trunk.Base.{◌⊎◌, inl, inr, lt→ltb}
use prosody_trunk.Encodings.Utf8.{
  Reading, Verdict, continue, cont_loop, finish, utf8_decode, valid, invalid, running, check_loop,
  check_utf8,
}
use prosody_trunk.Encodings.Utf8.Sequences.{IsScalar, utf8_encode, utf8_decode-encode}
use prosody_trunk.Encodings.Utf8.Sound.{IsByte, decode_inv, utf8_decode_sound}
use native.Mathlib.Decide.{dec_lt}
use mathlib.Core.Path.{subst}

-- The encodings of a list of values, one behind another.
pub encode_all : List ℕ → List ℕ
encode_all [] = []
encode_all (v ∷ vs) = utf8_encode v ++ encode_all vs

-- An encoding is not empty.
length_pos-encode : (v : ℕ) → 0 < length (utf8_encode v)
unfolding utf8_encode
length_pos-encode v = ground arith

uncons : (xs : List ℕ) → 0 < length xs → (c : ℕ) × (s : List ℕ) × (xs ≡ c ∷ s)
uncons [] h = absurd (omega arith)
uncons (c ∷ s) h = (c, s, refl)

check_loop_step :
    (fuel c : ℕ) (s : List ℕ) {v : ℕ} {rest : List ℕ}
    → utf8_decode (c ∷ s) ≡ some (v, rest)
    → check_loop (suc fuel) (c ∷ s) ≡ check_loop fuel rest
unfolding check_loop
check_loop_step fuel c s e = rw (e, check_loop)

check_loop_bad :
    (fuel c : ℕ) (s : List ℕ) → utf8_decode (c ∷ s) ≡ none → check_loop (suc fuel) (c ∷ s) ≡ invalid
unfolding check_loop
check_loop_bad fuel c s e = rw (e, check_loop)

check_loop-encode_all :
    (vs : List ℕ) (fuel : ℕ)
    → All IsScalar vs
    → length (encode_all vs) < fuel
    → check_loop fuel (encode_all vs) ≡ valid
check_loop-encode_all vs zero h f = absurd (omega arith)
check_loop-encode_all [] (suc fuel) h f = unfold check_loop encode_all in refl
check_loop-encode_all (v ∷ vs) (suc fuel) (h, hs) f =
    step (uncons (utf8_encode v) (length_pos-encode v)) (check_loop-encode_all vs fuel hs)
  where
    step :
        (c : ℕ) × (s : List ℕ) × (utf8_encode v ≡ c ∷ s)
        → (length (encode_all vs) < fuel → check_loop fuel (encode_all vs) ≡ valid)
        → check_loop (suc fuel) (encode_all (v ∷ vs)) ≡ valid
    step (c, s, e) ih =
        let whole : encode_all (v ∷ vs) ≡ c ∷ (s ++ encode_all vs) =
          (unfold encode_all in ap (λ t. t ++ encode_all vs) e) in
        let read : utf8_decode (c ∷ (s ++ encode_all vs)) ≡ some (v, encode_all vs) =
          ap (λ t. utf8_decode (t ++ encode_all vs)) (sym e)
          ∙ utf8_decode-encode v (encode_all vs) h in
        ap (check_loop (suc fuel)) whole
        ∙ check_loop_step fuel c (s ++ encode_all vs) read
        ∙ ih (omega (arith, f, ap length whole, length-append s (encode_all vs)))

-- A string that is accepted, taken apart.
abbrev Encodes : List ℕ → Type 0
Encodes s = (vs : List ℕ) × All IsScalar vs × (s ≡ encode_all vs)

All-drop_left : (P : ℕ → Type 0) (xs ys : List ℕ) → All P (xs ++ ys) → All P ys
All-drop_left P [] ys h = h
All-drop_left P (x ∷ xs) ys (p, h) = All-drop_left P xs ys h

check_loop_inv : (fuel : ℕ) (s : List ℕ) → All IsByte s → check_loop fuel s ≡ valid → Encodes s
unfolding check_loop
check_loop_inv zero s b k = cc
check_loop_inv (suc fuel) [] b k = ([], tt, unfold encode_all in refl)
check_loop_inv (suc fuel) (c ∷ s) b k = elim (Option-cases (utf8_decode (c ∷ s))) [
  | inl e ↦ absurd (invalid-ne-valid (sym (check_loop_bad fuel c s e) ∙ k))
  | inr ((v, rest), e) ↦ step v rest e (utf8_decode_sound c s v rest b e) (check_loop_inv fuel rest)
]
  where
    invalid-ne-valid : invalid ≢ valid
    invalid-ne-valid q = cc

    step :
        (v : ℕ) (rest : List ℕ)
        → utf8_decode (c ∷ s) ≡ some (v, rest)
        → IsScalar v × (c ∷ s ≡ utf8_encode v ++ rest)
        → (All IsByte rest → check_loop fuel rest ≡ valid → Encodes rest)
        → Encodes (c ∷ s)
    step v rest e (h, w) ih = more (
        ih (All-drop_left IsByte (utf8_encode v) rest (subst (All IsByte) w b))
          (sym (check_loop_step fuel c s e) ∙ k))
      where
        more : Encodes rest → Encodes (c ∷ s)
        more (vs, hs, q) =
            (v ∷ vs, (h, hs), w ∙ (unfold encode_all in ap (λ t. utf8_encode v ++ t) q))

-- On a string of bytes `check_utf8` answers `valid` exactly if the string is the UTF-8 of some
-- scalar values.
pub check_utf8_iff :
    (s : List ℕ)
    → All IsByte s
    → (check_utf8 s ≡ valid) ↔ ((vs : List ℕ) × All IsScalar vs × (s ≡ encode_all vs))
unfolding check_utf8
check_utf8_iff s b = (check_loop_inv (length s + 1) s b, back)
  where
    back : Encodes s → check_loop (length s + 1) s ≡ valid
    back (vs, hs, e) =
        ap (check_loop (length s + 1)) e
        ∙ check_loop-encode_all vs (length s + 1) hs (omega (arith, ap length e))

-- The bytes left by a sequence are fewer.
length-cont_loop :
    (s : List ℕ) (r : Reading) {o : Reading × List ℕ}
    → cont_loop s r ≡ some o
    → length o.1 ≤ length s
unfolding cont_loop
length-cont_loop [] r {o} k = ground arith
length-cont_loop (cc ∷ s) r {o} k = ground (arith, length-cont_loop s (continue r cc) {o = o})

length-finish :
    (r : Reading) (s : List ℕ) {v : ℕ} {rest : List ℕ} → finish r s ≡ some (v, rest) → rest ≡ s
unfolding finish
length-finish r s k = ground arith

length-utf8_decode :
    (c : ℕ) (s : List ℕ) (v : ℕ) (rest : List ℕ)
    → utf8_decode (c ∷ s) ≡ some (v, rest)
    → length rest ≤ length s
unfolding utf8_decode
length-utf8_decode c s v rest k = elim (dec_lt c 128) [
  | yes h ↦ plain (rw (lt→ltb c 0x80 h) at k)
  | no h ↦ multi (decode_inv c s (omega arith) k)
]
  where
    plain : ◌≡◌ {A = Option (ℕ × List ℕ)} (some (c, s)) (some (v, rest)) → length rest ≤ length s
    plain e = ground arith

    multi :
        (o : Reading × List ℕ) × (cont_loop s (record { c = c; count = 0; res = 0 }) ≡ some o)
          × (finish o.0 o.1 ≡ some (v, rest))
        → length rest ≤ length s
    multi (o, e, f) = omega (arith, length-cont_loop s _ e, ap length (length-finish o.0 o.1 f))

check_loop-ne-running : (fuel : ℕ) (s : List ℕ) → length s < fuel → check_loop fuel s ≢ running
unfolding check_loop
check_loop-ne-running zero s h = absurd (omega arith)
check_loop-ne-running (suc fuel) [] h = λ q. cc
check_loop-ne-running (suc fuel) (c ∷ s) h = elim (Option-cases (utf8_decode (c ∷ s))) [
  | inl e ↦ rw (e, check_loop) (λ q. cc)
  | inr ((v, rest), e) ↦
      rw (e, check_loop)
        (check_loop-ne-running fuel rest (omega (arith, length-utf8_decode c s v rest e)))
]

-- The check ends on every string: its loop takes no more rounds than the string has bytes, and one.
pub check_utf8-ne-running : (s : List ℕ) → check_utf8 s ≢ running
unfolding check_utf8
check_utf8-ne-running s = check_loop-ne-running (length s + 1) s (omega arith)

-- On every string of bytes the check ends: its answer is `valid` where the string is the UTF-8 of some
-- scalar values, and `invalid` where it is not.
pub check_utf8_lem :
    (s : List ℕ)
    → All IsByte s
    → ((check_utf8 s ≡ valid) × ((vs : List ℕ) × All IsScalar vs × (s ≡ encode_all vs)))
      ⊎ ((check_utf8 s ≡ invalid) × ¬ ((vs : List ℕ) × All IsScalar vs × (s ≡ encode_all vs)))
check_utf8_lem s b = answer (check_utf8 s) refl
  where
    answer :
        (v : Verdict)
        → check_utf8 s ≡ v
        → ((check_utf8 s ≡ valid) × Encodes s) ⊎ ((check_utf8 s ≡ invalid) × ¬ Encodes s)
    answer valid e = inl (e, (check_utf8_iff s b).0 e)
    answer invalid e = inr (e, λ u. cc (sym e ∙ (check_utf8_iff s b).1 u))
    answer running e = absurd (check_utf8-ne-running s e)
