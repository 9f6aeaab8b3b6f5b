-- ===== src/Encodings/Utf8/Reader.antt =====
-- The rounds of `utf8_decode` in arithmetic, without masks.
use prosody_trunk.Base.{ℕ, ◌+◌, ◌-◌, ◌*◌, ◌/◌, ◌%◌, ◌^◌, ◌≤◌, ◌<◌, ◌≡◌, ◌≢◌, refl}
use prosody_trunk.Base.{false, Option, none, some, List, [], ◌∷◌, ◌==◌, ltb, leb, get_or}
use prosody_trunk.Base.{◌||◌, ◌&&◌, if◌then◌else◌, bit_and, arith}
use prosody_trunk.Base.Bits.{all_below, eq_of_table, bit_or_above, bit_or_below}
use prosody_trunk.Encodings.Utf8.{Reading, continue, cont_loop, finish, limits, max_unicode}

more_bit : (a : ℕ) → a < 4096 → bit_and a 0x40 ≡ a / 64 % 2 * 64
unfolding all_below
more_bit a h = eq_of_table 4096 (λ x. bit_and x 0x40) (λ x. x / 64 % 2 * 64) a refl h

low_seven : (a : ℕ) → a < 4096 → bit_and a 0x7F ≡ a % 128
unfolding all_below
low_seven a h = eq_of_table 4096 (λ x. bit_and x 0x7F) (λ x. x % 128) a refl h

top_two : (a : ℕ) → a < 256 → bit_and a 0xC0 ≡ a / 64 * 64
unfolding all_below
top_two a h = eq_of_table 256 (λ x. bit_and x 0xC0) (λ x. x / 64 * 64) a refl h

low_six : (a : ℕ) → a < 256 → bit_and a 0x3F ≡ a % 64
unfolding all_below
low_six a h = eq_of_table 256 (λ x. bit_and x 0x3F) (λ x. x % 64) a refl h

-- A continuation byte.
abbrev pub IsTail : ℕ → Type 0
IsTail b = (128 ≤ b) × (b < 192)

-- The loop ends where the bit of the first byte is clear.
pub cont_loop-stop :
    (s : List ℕ) (r : Reading) → r.c < 4096 → r.c / 64 % 2 ≡ 0 → cont_loop s r ≡ some (r, s)
unfolding cont_loop
cont_loop-stop [] r h e = rw (more_bit r.c h, e)
cont_loop-stop (cc ∷ s) r h e = rw (more_bit r.c h, e)

-- Where it is set, a continuation byte is read.
pub cont_loop-more :
    (cc : ℕ) (s : List ℕ) (r : Reading)
    → r.c < 4096
    → r.c / 64 % 2 ≡ 1
    → IsTail cc
    → cont_loop (cc ∷ s) r ≡ cont_loop s (continue r cc)
unfolding cont_loop
cont_loop-more cc s r h e t =
    let w : cc / 64 * 64 ≡ 128 = omega arith in rw (more_bit r.c h, e, top_two cc (omega arith), w)

-- The end of the string, or any other byte, makes the sequence invalid.
pub cont_loop-end : (r : Reading) → r.c < 4096 → r.c / 64 % 2 ≡ 1 → cont_loop [] r ≡ none
unfolding cont_loop
cont_loop-end r h e = rw (more_bit r.c h, e)

pub cont_loop-bad :
    (cc : ℕ) (s : List ℕ) (r : Reading)
    → r.c < 4096
    → r.c / 64 % 2 ≡ 1
    → cc < 256
    → ¬ (IsTail cc)
    → cont_loop (cc ∷ s) r ≡ none
unfolding cont_loop
cont_loop-bad cc s r h e b t =
    let w : (cc / 64 * 64 == 128) ≡ false = ground (arith, not_tail) in
    rw (more_bit r.c h, e, top_two cc b, w)
  where
    not_tail : cc / 64 * 64 ≢ 128
    not_tail q = t (omega arith)

-- What a round does to the variables, while they are small.
pub continue_lem :
    (r : Reading) (cc : ℕ)
    → r.c < 2 ^ 31
    → r.res < 2 ^ 26
    → IsTail cc
    → continue r cc ≡ record { c = r.c * 2; count = r.count + 1; res = r.res * 64 + (cc - 128) }
continue_lem r cc h k t =
    let a : r.c * 2 % 2 ^ 32 ≡ r.c * 2 = omega arith in
    let b : r.res * 2 ^ 6 % 2 ^ 32 ≡ r.res * 2 ^ 6 = omega arith in
    let d : cc % 64 ≡ cc - 128 = omega arith in
    rw (a, b, low_six cc (omega arith), bit_or_above 6 r.res (cc % 64) (omega arith), d)

-- The check at the end of a sequence of `n` continuation bytes that stands for `v`.
unfoldable pub checked : ℕ → ℕ → List ℕ → Option (ℕ × List ℕ)
checked n v s =
    if ltb max_unicode v || leb v (get_or limits n 0) || (leb 0xd800 v && leb v 0xdfff)
    then none
    else some (v, s)

pub finish_many : (r : Reading) (s : List ℕ) → 3 < r.count → finish r s ≡ none
unfolding finish
finish_many r s h = ground arith

-- The bits of the first byte, above those of `n` continuation bytes.
pub finish_lem :
    (n h c res : ℕ) (s : List ℕ)
    → n ≤ 3
    → c < 4096
    → c % 128 * 2 ^ (n * 5) ≡ h * 2 ^ (n * 6)
    → res < 2 ^ (n * 6)
    → h * 2 ^ (n * 6) < 2 ^ 32
    → finish (record { c = c; count = n; res = res }) s ≡ checked n (h * 2 ^ (n * 6) + res) s
unfolding finish checked
finish_lem n h c res s k l e w m =
    let f : (h * 2 ^ (n * 6)) % 2 ^ 32 ≡ h * 2 ^ (n * 6) = omega arith in
    let g : ltb 3 n ≡ false = ground arith in
    rw (low_seven c l, e, f, bit_or_below (n * 6) h res w, g)
