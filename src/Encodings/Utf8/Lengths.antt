-- ===== src/Encodings/Utf8/Lengths.antt =====
-- The sequences of two, three and four bytes that `utf8_decode` accepts are encodings.
use prosody_trunk.Base.{ℕ, ◌+◌, ◌-◌, ◌*◌, ◌/◌, ◌%◌, ◌≤◌, ◌<◌, ◌≡◌, ◌≢◌, refl, ap₂, ◌∙◌, sym}
use prosody_trunk.Base.{none, some, List, [], ◌∷◌, ◌++◌, get_or}
use prosody_trunk.Base.{arith, lt→ltb, le→ltb}
use prosody_trunk.Encodings.Utf8.{limits, utf8_decode}
use prosody_trunk.Encodings.Utf8.Reader.{IsTail, checked}
use prosody_trunk.Encodings.Utf8.Sequences.{
  IsScalar, utf8_encode, decode_two, decode_three, decode_four,
}
use mathlib.Core.Path.{subst}

pub none-ne-some {ℓ} : {A : Type ℓ} {a : A} → none ≢ some a
none-ne-some e = cc

checked_inv :
    (n x : ℕ) (s : List ℕ) {v : ℕ} {rest : List ℕ}
    → checked n x s ≡ some (v, rest)
    → (x ≡ v) × (s ≡ rest) × (get_or limits n 0 < x) × IsScalar x
unfolding checked
checked_inv n x s k = ground arith

-- What a sequence that is accepted is.
abbrev pub Sound : List ℕ → ℕ → List ℕ → Type 0
Sound s v rest = IsScalar v × (s ≡ utf8_encode v ++ rest)

encode_two :
    (c a v : ℕ)
    → 192 ≤ c
    → c < 224
    → IsTail a
    → (c - 192) * 64 + (a - 128) ≡ v
    → 0x7F < v
    → utf8_encode v ≡ c ∷ a ∷ []
unfolding utf8_encode
encode_two c a v h l t e m =
    rw (le→ltb v 0x80 m, lt→ltb v 0x800 (omega arith))
      (ap₂ (λ x y. x ∷ y ∷ []) (omega arith) (omega arith))

encode_three :
    (c a b v : ℕ)
    → 224 ≤ c
    → c < 240
    → IsTail a
    → IsTail b
    → ((c - 224) * 64 + (a - 128)) * 64 + (b - 128) ≡ v
    → 0x7FF < v
    → utf8_encode v ≡ c ∷ a ∷ b ∷ []
unfolding utf8_encode
encode_three c a b v h l t u e m =
    let x : 224 + v / 64 / 64 ≡ c = omega arith in
    let y : 128 + v / 64 % 64 ≡ a = omega arith in
    let z : 128 + v % 64 ≡ b = omega arith in
    rw (le→ltb v 0x80 (omega arith), le→ltb v 0x800 m, lt→ltb v 0x10000 (omega arith), x, y, z)

encode_four :
    (c a b d v : ℕ)
    → 240 ≤ c
    → IsTail a
    → IsTail b
    → IsTail d
    → (((c - 240) * 64 + (a - 128)) * 64 + (b - 128)) * 64 + (d - 128) ≡ v
    → 0xFFFF < v
    → utf8_encode v ≡ c ∷ a ∷ b ∷ d ∷ []
unfolding utf8_encode
encode_four c a b d v h t u w e m =
    let x : 240 + v / 64 / 64 / 64 ≡ c = omega arith in
    let y : 128 + v / 64 / 64 % 64 ≡ a = omega arith in
    let z : 128 + v / 64 % 64 ≡ b = omega arith in
    let q : 128 + v % 64 ≡ d = omega arith in
    rw (le→ltb v 0x80 (omega arith), le→ltb v 0x800 (omega arith), le→ltb v 0x10000 m, x, y, z, q)

-- The three lengths, on the bytes of the sequence.
pub close_two :
    (c a : ℕ) (t : List ℕ) (v : ℕ) (rest : List ℕ)
    → 192 ≤ c
    → c < 224
    → IsTail a
    → utf8_decode (c ∷ a ∷ t) ≡ some (v, rest)
    → Sound (c ∷ a ∷ t) v rest
close_two c a t v rest h l ta k = last (checked_inv 1 _ t (sym (decode_two c a t h l ta) ∙ k))
  where
    last :
        ((c - 192) * 64 + (a - 128) ≡ v)
          × (t ≡ rest)
          × (0x7F < (c - 192) * 64 + (a - 128))
          × IsScalar ((c - 192) * 64 + (a - 128))
        → Sound (c ∷ a ∷ t) v rest
    last (x, y, m, z) =
        (subst IsScalar x z, ap₂ ◌++◌ (sym (encode_two c a v h l ta x (omega arith))) y)

pub close_three :
    (c a b : ℕ) (t : List ℕ) (v : ℕ) (rest : List ℕ)
    → 224 ≤ c
    → c < 240
    → IsTail a
    → IsTail b
    → utf8_decode (c ∷ a ∷ b ∷ t) ≡ some (v, rest)
    → Sound (c ∷ a ∷ b ∷ t) v rest
close_three c a b t v rest h l ta tb k =
    last _ refl (checked_inv 2 _ t (sym (decode_three c a b t h l ta tb) ∙ k))
  where
    last :
        (n : ℕ)
        → n ≡ ((c - 224) * 64 + (a - 128)) * 64 + (b - 128)
        → (n ≡ v) × (t ≡ rest) × (0x7FF < n) × IsScalar n
        → Sound (c ∷ a ∷ b ∷ t) v rest
    last n e (x, y, m, z) = (
      subst IsScalar x z,
      ap₂ ◌++◌ (sym (encode_three c a b v h l ta tb (sym e ∙ x) (omega arith))) y,
    )

pub close_four :
    (c a b d : ℕ) (t : List ℕ) (v : ℕ) (rest : List ℕ)
    → 240 ≤ c
    → c < 248
    → IsTail a
    → IsTail b
    → IsTail d
    → utf8_decode (c ∷ a ∷ b ∷ d ∷ t) ≡ some (v, rest)
    → Sound (c ∷ a ∷ b ∷ d ∷ t) v rest
close_four c a b d t v rest h l ta tb td k =
    last _ refl (checked_inv 3 _ t (sym (decode_four c a b d t h l ta tb td) ∙ k))
  where
    last :
        (n : ℕ)
        → n ≡ (((c - 240) * 64 + (a - 128)) * 64 + (b - 128)) * 64 + (d - 128)
        → (n ≡ v) × (t ≡ rest) × (0xFFFF < n) × IsScalar n
        → Sound (c ∷ a ∷ b ∷ d ∷ t) v rest
    last n e (x, y, m, z) = (
      subst IsScalar x z,
      ap₂ ◌++◌ (sym (encode_four c a b d v h ta tb td (sym e ∙ x) (omega arith))) y,
    )
