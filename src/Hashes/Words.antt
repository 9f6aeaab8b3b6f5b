-- ===== src/Hashes/Words.antt =====
-- The exclusive or of 32-bit words in hashes.c is that of the bytes that share their storage.
use prosody_trunk.Base.{ℕ, zero, suc, ◌+◌, ◌*◌, ◌/◌, ◌%◌, ◌<◌, ◌≡◌, refl, ap, ap₂, ◌∙◌, sym, arith}
use prosody_trunk.Base.{List, [], ◌∷◌, ◌++◌, All, length, map, bit_xor}
use prosody_trunk.Base.Bits.{bit_xor_bytes, bit_xor-lt}
use prosody_trunk.Hashes.{word, word_bytes, xor_mask, xor_quads, hmac_ipad, hmac_opad}

abbrev pub IsByte : ℕ → Type 0
IsByte b = b < 256

pub bit_xor-IsByte : (a b : ℕ) → IsByte a → IsByte b → IsByte (bit_xor a b)
bit_xor-IsByte a b h l = bit_xor-lt 8 a b h l

bit_xor-word :
    (a b c d e f g h : ℕ)
    → IsByte a
    → IsByte b
    → IsByte c
    → IsByte d
    → IsByte e
    → IsByte f
    → IsByte g
    → IsByte h
    → bit_xor (word a b c d) (word e f g h)
      ≡ word (bit_xor a e) (bit_xor b f) (bit_xor c g) (bit_xor d h)
unfolding word
bit_xor-word a b c d e f g h ha hb hc hd he hf hg hh =
    bit_xor_bytes _ _ a e ha he
    ∙ ap (λ t. t * 256 + bit_xor a e)
        (bit_xor_bytes _ _ b f hb hf
          ∙ ap (λ t. t * 256 + bit_xor b f) (bit_xor_bytes d h c g hc hg))

word_bytes-word :
    (a b c d : ℕ)
    → IsByte a
    → IsByte b
    → IsByte c
    → IsByte d
    → word_bytes (word a b c d) ≡ a ∷ b ∷ c ∷ d ∷ []
unfolding word_bytes word
word_bytes-word a b c d ha hb hc hd =
    let w = ((d * 256 + c) * 256 + b) * 256 + a in
    let e : w % 256 ≡ a = omega arith in
    let f : w / 256 % 256 ≡ b = omega arith in
    let g : w / 256 / 256 % 256 ≡ c = omega arith in
    let h : w / 256 / 256 / 256 % 256 ≡ d = omega arith in rw (e, f, g, h)

bit_xor-word_bytes :
    (a b c d e f g h : ℕ)
    → IsByte a
    → IsByte b
    → IsByte c
    → IsByte d
    → IsByte e
    → IsByte f
    → IsByte g
    → IsByte h
    → word_bytes (bit_xor (word a b c d) (word e f g h))
      ≡ bit_xor a e ∷ bit_xor b f ∷ bit_xor c g ∷ bit_xor d h ∷ []
bit_xor-word_bytes a b c d e f g h ha hb hc hd he hf hg hh =
    ap word_bytes (bit_xor-word a b c d e f g h ha hb hc hd he hf hg hh)
    ∙ word_bytes-word (bit_xor a e) (bit_xor b f) (bit_xor c g) (bit_xor d h)
        (bit_xor-IsByte a e ha he) (bit_xor-IsByte b f hb hf) (bit_xor-IsByte c g hc hg)
        (bit_xor-IsByte d h hd hh)

-- A mask of four equal bytes.
xor_mask-map :
    (n m : ℕ) (s : List ℕ)
    → IsByte m
    → All IsByte s
    → length s ≡ 4 * n
    → xor_mask n (word m m m m) s ≡ map (λ b. bit_xor b m) s
unfolding xor_mask
xor_mask-map zero m [] h k e = refl
xor_mask-map zero m (a ∷ s) h k e = absurd (omega arith)
xor_mask-map (suc n) m [] h k e = absurd (omega arith)
xor_mask-map (suc n) m (a ∷ []) h k e = absurd (omega arith)
xor_mask-map (suc n) m (a ∷ b ∷ []) h k e = absurd (omega arith)
xor_mask-map (suc n) m (a ∷ b ∷ c ∷ []) h k e = absurd (omega arith)
xor_mask-map (suc n) m (a ∷ b ∷ c ∷ d ∷ s) h (ka, (kb, (kc, (kd, k)))) e =
    ap₂ ◌++◌ (bit_xor-word_bytes a b c d m m m m ka kb kc kd h h h h)
      (xor_mask-map n m s h k (omega arith))

ipad_word : word 0x36 0x36 0x36 0x36 ≡ hmac_ipad
unfolding word
ipad_word = refl

opad_word : word 0x5c 0x5c 0x5c 0x5c ≡ hmac_opad
unfolding word
opad_word = refl

pub xor_ipad :
    (s : List ℕ)
    → All IsByte s
    → length s ≡ 64
    → xor_mask 16 hmac_ipad s ≡ map (λ b. bit_xor b 0x36) s
xor_ipad s k e =
    ap (λ m. xor_mask 16 m s) (sym ipad_word) ∙ xor_mask-map 16 0x36 s (omega arith) k e

pub xor_opad :
    (s : List ℕ)
    → All IsByte s
    → length s ≡ 64
    → xor_mask 16 hmac_opad s ≡ map (λ b. bit_xor b 0x5c) s
xor_opad s k e =
    ap (λ m. xor_mask 16 m s) (sym opad_word) ∙ xor_mask-map 16 0x5c s (omega arith) k e

-- Two strings byte by byte, as long as both last.
unfoldable pub xor_bytes : List ℕ → List ℕ → List ℕ
xor_bytes (a ∷ s) (b ∷ t) = bit_xor a b ∷ xor_bytes s t
xor_bytes _ _ = []

pub xor_quads-xor_bytes :
    (n : ℕ) (s t : List ℕ)
    → All IsByte s
    → All IsByte t
    → length s ≡ 4 * n
    → length t ≡ 4 * n
    → xor_quads n s t ≡ xor_bytes s t
unfolding xor_quads xor_bytes
xor_quads-xor_bytes zero [] t k l p q = refl
xor_quads-xor_bytes zero (a ∷ s) t k l p q = absurd (omega arith)
xor_quads-xor_bytes (suc n) (a ∷ b ∷ c ∷ d ∷ s) (e ∷ f ∷ g ∷ h ∷ t) (ka, (kb, (kc, (kd, k))))
      (le, (lf, (lg, (lh, l)))) p q =
    ap₂ ◌++◌ (bit_xor-word_bytes a b c d e f g h ka kb kc kd le lf lg lh)
      (xor_quads-xor_bytes n s t k l (omega arith) (omega arith))
xor_quads-xor_bytes (suc n) [] t k l p q = absurd (omega arith)
xor_quads-xor_bytes (suc n) (a ∷ []) t k l p q = absurd (omega arith)
xor_quads-xor_bytes (suc n) (a ∷ b ∷ []) t k l p q = absurd (omega arith)
xor_quads-xor_bytes (suc n) (a ∷ b ∷ c ∷ []) t k l p q = absurd (omega arith)
xor_quads-xor_bytes (suc n) s t k l p q = absurd (omega arith)

pub xor_bytes-IsByte : (s t : List ℕ) → All IsByte s → All IsByte t → All IsByte (xor_bytes s t)
unfolding xor_bytes
xor_bytes-IsByte [] t k l = tt
xor_bytes-IsByte (a ∷ s) [] k l = tt
xor_bytes-IsByte (a ∷ s) (b ∷ t) (ka, k) (lb, l) =
    (bit_xor-IsByte a b ka lb, xor_bytes-IsByte s t k l)

pub length-xor_bytes : (s t : List ℕ) → length s ≡ length t → length (xor_bytes s t) ≡ length s
unfolding xor_bytes
length-xor_bytes [] t e = refl
length-xor_bytes (a ∷ s) [] e = absurd (omega arith)
length-xor_bytes (a ∷ s) (b ∷ t) e = omega (arith, length-xor_bytes s t (omega arith))
