-- ===== src/Ringbuffer/Scan.antt =====
-- The loop of `find` in ringbuffer.c, beside a search in the list of the contents.
use prosody_trunk.Base.{ℕ, zero, suc, ◌+◌, ◌-◌, ◌%◌, ◌^◌, ◌≤◌, ◌<◌, ◌≡◌, ◌≢◌, refl, ap, ◌∙◌}
use prosody_trunk.Base.{List, [], ◌∷◌, ◌++◌, length, get_or, take, true, false, Bool, some, none}
use prosody_trunk.Base.{Option, Bool-cases, inl, inr, leb, ◌==◌, ◌&&◌, if◌then◌else◌, arith}
use prosody_trunk.Base.Int.{add_size, sub_size, through_int}
use prosody_trunk.Ringbuffer.{Ringbuffer, Search, found, absent, byte_at, match_rest, find_loop}
use prosody_trunk.Ringbuffer.Contents.{IsOpen, ring_bytes, length-ring_bytes}
use mathlib.Core.Option

-- Whether a list begins with `s`, and the first place from which it does.
unfoldable pub is_prefix : List ℕ → List ℕ → Bool
is_prefix [] q = true
is_prefix (c ∷ s) [] = false
is_prefix (c ∷ s) (x ∷ q) = if x == c then is_prefix s q else false

unfoldable pub index_of : List ℕ → List ℕ → Option ℕ
index_of s [] = none
index_of s (x ∷ q) =
    let rest = index_of s q in if is_prefix s (x ∷ q) then some 0 else Option.map suc rest

is_prefix-short : (s q : List ℕ) → length q < length s → is_prefix s q ≡ false
unfolding is_prefix
is_prefix-short [] q h = absurd (omega arith)
is_prefix-short (c ∷ s) [] h = refl
is_prefix-short (c ∷ s) (x ∷ q) h = ground (arith, is_prefix-short s q (omega arith))

index_of-short : (s q : List ℕ) → length q < length s → index_of s q ≡ none
unfolding index_of
index_of-short s [] h = refl
index_of-short s (x ∷ q) h = rw (is_prefix-short s (x ∷ q) h, index_of-short s q (omega arith))

-- The comparison of the source, on bytes of the ring that the search may look at.
byte_at_lem :
    (b : Ringbuffer) (i : ℕ)
    → b.rpos < 2 ^ 62
    → i ≤ 2 ^ 62
    → byte_at b i ≡ get_or b.buffer ((b.rpos + i) % b.alen) 0
unfolding byte_at
byte_at_lem b i h k = let e : add_size b.rpos i ≡ b.rpos + i = omega arith in rw e

match_rest_lem :
    (b : Ringbuffer) (i : ℕ) (s : List ℕ) (j n : ℕ)
    → b.rpos < 2 ^ 62
    → i + j + n ≤ 2 ^ 62
    → length s ≤ n
    → match_rest b i s j ≡ is_prefix s (ring_bytes b.buffer b.alen (b.rpos + (i + j)) n)
unfolding match_rest is_prefix
match_rest_lem b i [] j n h k l = refl
match_rest_lem b i (c ∷ s) j zero h k l = absurd (omega arith)
match_rest_lem b i (c ∷ s) j (suc n) h k l =
    let e : add_size i j ≡ i + j = omega arith in
    let f : add_size j 1 ≡ j + 1 = omega arith in
    let g : b.rpos + (i + j) + 1 ≡ b.rpos + (i + (j + 1)) = omega arith in
    rw (
      e,
      f,
      g,
      byte_at_lem b (i + j) h (omega arith),
      match_rest_lem b i s (j + 1) n h (omega arith) (omega arith),
    )

test_lem :
    (b : Ringbuffer) (c : ℕ) (s : List ℕ) (i n : ℕ)
    → b.rpos < 2 ^ 62
    → i + suc n ≤ 2 ^ 62
    → length s ≤ n
    → (byte_at b i == c && match_rest b i s 1)
      ≡ is_prefix (c ∷ s) (ring_bytes b.buffer b.alen (b.rpos + i) (suc n))
unfolding is_prefix
test_lem b c s i n h k l =
    let g : b.rpos + i + 1 ≡ b.rpos + (i + 1) = omega arith in
    rw (g, byte_at_lem b i h (omega arith), match_rest_lem b i s 1 n h (omega arith) l)
      (ground arith)

-- What the search from the place `base - l` on returns, given where the string is from there.
unfoldable pub outcome : ℕ → Option ℕ → Search
outcome base none = absent
outcome base (some k) = found (k + base)

outcome_shift : (base : ℕ) (o : Option ℕ) → outcome (base + 1) o ≡ outcome base (Option.map suc o)
unfolding outcome
outcome_shift base none = refl
outcome_shift base (some k) = ap found (omega arith)

-- One round of the outer loop at a place where the string fits, given what the rest returns.
find_step :
    (b : Ringbuffer) (c : ℕ) (s : List ℕ) (i n : ℕ)
    → IsOpen b
    → b.blen < 2 ^ 31
    → length (c ∷ s) ≤ b.blen
    → i + n ≡ b.blen
    → i ≤ b.blen - length (c ∷ s)
    → (next : Search)
    → ((m : ℕ)
        → n ≡ suc m
        → next
          ≡ outcome
              (i + length (c ∷ s) + 1)
              (index_of (c ∷ s) (ring_bytes b.buffer b.alen (b.rpos + i + 1) m)))
    → (if byte_at b i == c && match_rest b i s 1
        then found (through_int (add_size i (length (c ∷ s))))
        else next)
      ≡ outcome (i + length (c ∷ s)) (index_of (c ∷ s) (ring_bytes b.buffer b.alen (b.rpos + i) n))
unfolding index_of
find_step b c s i zero v z l e h next ih = absurd (omega arith)
find_step b c s i (suc n) v z l e h next ih =
    let q = ring_bytes b.buffer b.alen (b.rpos + i) (suc n) in
    let small : through_int (add_size i (suc (length s))) ≡ i + suc (length s) =
      ground (arith, v.blen_in, v.small) in
    rw (test_lem b c s i n (omega (arith, v)) (omega (arith, v)) (omega arith))
      (elim (Bool-cases (is_prefix (c ∷ s) q)) [
        | inl t ↦ rw (t, small) (unfold outcome in ap found (omega arith))
        | inr t ↦ rw t (ih n refl ∙ outcome_shift _ _)
      ])

pub find_loop_lem :
    (b : Ringbuffer) (c : ℕ) (s : List ℕ) (fuel i n : ℕ)
    → IsOpen b
    → b.blen < 2 ^ 31
    → length (c ∷ s) ≤ b.blen
    → i + n ≡ b.blen
    → n + 1 < fuel
    → find_loop b (c ∷ s) fuel i
      ≡ outcome (i + length (c ∷ s)) (index_of (c ∷ s) (ring_bytes b.buffer b.alen (b.rpos + i) n))
unfolding find_loop outcome
find_loop_lem b c s zero i n v z l e f = absurd (omega arith)
find_loop_lem b c s (suc fuel) i n v z l e f =
    let lim : sub_size b.blen (suc (length s)) ≡ b.blen - suc (length s) = omega (arith, v) in
    elim (Bool-cases (leb i (b.blen - suc (length s)))) [
      | inl go_on ↦
          rw (lim, go_on)
            (find_step b c s i n v z l e (ground arith) (find_loop b (c ∷ s) fuel (add_size i 1))
              (λ m d.
                let g : b.rpos + i + 1 ≡ b.rpos + (i + 1) = omega arith in
                let k : i + suc (length s) + 1 ≡ i + 1 + suc (length s) = omega arith in
                let a : add_size i 1 ≡ i + 1 = omega (arith, v) in
                rw (g, a)
                  (find_loop_lem b c s fuel (i + 1) m v z l (omega arith) (omega arith)
                    ∙ rw (← k) refl)))
      | inr stop ↦
          let short : length (ring_bytes b.buffer b.alen (b.rpos + i) n) < suc (length s) =
            rw length-ring_bytes (ground arith) in
          rw (lim, stop, index_of-short (c ∷ s) (ring_bytes b.buffer b.alen (b.rpos + i) n) short)
            refl
    ]

is_prefix-take :
    (s q : List ℕ) → is_prefix s q ≡ true → (length s ≤ length q) × (take (length s) q ≡ s)
unfolding is_prefix
is_prefix-take [] q e = (omega arith, refl)
is_prefix-take (c ∷ s) [] e = cc
is_prefix-take (c ∷ s) (x ∷ q) e = ground (arith, is_prefix-take s q)

map-suc-ne-some_zero : (o : Option ℕ) → Option.map suc o ≢ some 0
map-suc-ne-some_zero none e = cc
map-suc-ne-some_zero (some k) e = ground arith

map-suc-eq-some-suc : (o : Option ℕ) (k : ℕ) → Option.map suc o ≡ some (suc k) → o ≡ some k
map-suc-eq-some-suc none k e = cc
map-suc-eq-some-suc (some j) k e = ground arith

-- An index that `index_of` gives is one where the string stands.
pub index_of-some :
    (s q : List ℕ) (k : ℕ)
    → index_of s q ≡ some k
    → (k + length s ≤ length q) × (take (k + length s) q ≡ take k q ++ s)
unfolding index_of
index_of-some s [] k e = cc
index_of-some s (x ∷ q) zero e = elim (Bool-cases (is_prefix s (x ∷ q))) [
  | inl t ↦ let z : zero + length s ≡ length s = omega arith in rw z (is_prefix-take s (x ∷ q) t)
  | inr t ↦ absurd (map-suc-ne-some_zero (index_of s q) (rw t at e))
]
index_of-some s (x ∷ q) (suc k) e = elim (Bool-cases (is_prefix s (x ∷ q))) [
  | inl t ↦ absurd (zero_not (rw t at e))
  | inr t ↦
      let z : suc k + length s ≡ suc (k + length s) = omega arith in
      let (fits, at_k) = index_of-some s q k (map-suc-eq-some-suc (index_of s q) k (rw t at e)) in
      (omega (arith, fits), rw z (ap (λ r. x ∷ r) at_k))
]
  where
    zero_not : some 0 ≢ some (suc k)
    zero_not e' = ground arith
