-- ===== src/Ringbuffer/Contents.antt =====
-- The bytes that a ring buffer holds, oldest first, and what holds of a buffer between two calls.
use prosody_trunk.Base.{ℕ, zero, suc, ◌+◌, ◌-◌, ◌%◌, ◌^◌, ◌≤◌, ◌<◌, ◌≡◌, refl, ap, ap₂, ◌∙◌, sym}
use prosody_trunk.Base.{◌≢◌, List, [], ◌∷◌, ◌++◌, length, get_or, set, take, drop, arith}
use prosody_trunk.Base.{get_or-set_ne, drop-cons}
use prosody_trunk.Ringbuffer.{Ringbuffer, slice}
use native.Mathlib.Nat.{mod-add-mod, mod-eq_of_lt, mod-eq-sub-mod, mod-lt}
use native.Mathlib.Decide.{dec_lt}

-- What every operation keeps, also while bytes are being written: `wpos` may then lie beyond the
-- allocation.
pub record IsOpen (b : Ringbuffer) : Type 0 where
  pub nonzero : 0 < b.alen
  pub small : b.alen ≤ 2 ^ 62
  pub storage : length b.buffer ≡ b.alen
  pub rpos_in : b.rpos < b.alen
  pub blen_in : b.blen ≤ b.alen
  pub wpos_at : b.wpos % b.alen ≡ (b.rpos + b.blen) % b.alen

-- A buffer between two calls.
pub record IsValid (b : Ringbuffer) : Type 0 where
  pub is_open : IsOpen b
  pub wpos_in : b.wpos < b.alen

pub mod-add-congr : (a x y k : ℕ) → x % a ≡ y % a → (x + k) % a ≡ (y + k) % a
mod-add-congr a x y k e = sym (mod-add-mod x a k) ∙ ap (λ t. (t + k) % a) e ∙ mod-add-mod y a k

module _ (buf : List ℕ) (a : ℕ) where
  -- The `n` bytes from the position `p` on, round an allocation of `a` bytes.
  abbrev pub ring_bytes : ℕ → ℕ → List ℕ
  ring_bytes p zero = []
  ring_bytes p (suc n) = get_or buf (p % a) 0 ∷ ring_bytes (p + 1) n

  pub length-ring_bytes : (p n : ℕ) → length (ring_bytes p n) ≡ n
  length-ring_bytes p zero = refl
  length-ring_bytes p (suc n) = ap suc (length-ring_bytes (p + 1) n)

  pub ring_bytes-add : (p n m : ℕ) → ring_bytes p (n + m) ≡ ring_bytes p n ++ ring_bytes (p + n) m
  ring_bytes-add p zero m =
      let e : p + zero ≡ p = omega arith in let k : zero + m ≡ m = omega arith in rw (e, k)
  ring_bytes-add p (suc n) m =
      let e : suc n + m ≡ suc (n + m) = omega arith in
      let k : p + suc n ≡ p + 1 + n = omega arith in
      rw (e, k) (ap (λ t. get_or buf (p % a) 0 ∷ t) (ring_bytes-add (p + 1) n m))

  pub ring_bytes-congr : (p q n : ℕ) → p % a ≡ q % a → ring_bytes p n ≡ ring_bytes q n
  ring_bytes-congr p q zero e = refl
  ring_bytes-congr p q (suc n) e =
      ap₂ (λ i t. get_or buf i 0 ∷ t) e
        (ring_bytes-congr (p + 1) (q + 1) n (mod-add-congr a p q 1 e))

  pub get_or-ring_bytes :
      (p n i : ℕ) → i < n → get_or (ring_bytes p n) i 0 ≡ get_or buf ((p + i) % a) 0
  get_or-ring_bytes p zero i h = absurd (omega arith)
  get_or-ring_bytes p (suc n) zero h = let e : p + zero ≡ p = omega arith in rw e
  get_or-ring_bytes p (suc n) (suc i) h =
      let e : p + suc i ≡ p + 1 + i = omega arith in
      rw e (get_or-ring_bytes (p + 1) n i (omega arith))

  pub take-ring_bytes : (p n k : ℕ) → k ≤ n → take k (ring_bytes p n) ≡ ring_bytes p k
  take-ring_bytes p n zero h = refl
  take-ring_bytes p zero (suc k) h = absurd (omega arith)
  take-ring_bytes p (suc n) (suc k) h =
      ap (λ t. get_or buf (p % a) 0 ∷ t) (take-ring_bytes (p + 1) n k (omega arith))

  pub drop-ring_bytes : (p n k : ℕ) → k ≤ n → drop k (ring_bytes p n) ≡ ring_bytes (p + k) (n - k)
  drop-ring_bytes p n zero h =
      let e : p + zero ≡ p = omega arith in let k : n - zero ≡ n = omega arith in rw (e, k)
  drop-ring_bytes p zero (suc k) h = absurd (omega arith)
  drop-ring_bytes p (suc n) (suc k) h =
      let e : p + suc k ≡ p + 1 + k = omega arith in
      let m : suc n - suc k ≡ n - k = omega arith in
      rw (e, m) (drop-ring_bytes (p + 1) n k (omega arith))

-- Fewer than `a` steps round an allocation of `a` bytes do not come back to the start.
pub add-mod-ne : (a p k : ℕ) → 0 < k → k < a → (p + k) % a ≢ p % a
add-mod-ne a p k hk ha = elim (dec_lt (p % a + k) a) [
  | yes h ↦ omega (arith, mod-add-mod p a k, mod-eq_of_lt h)
  | no h ↦ omega (
    arith,
    mod-add-mod p a k,
    mod-lt p {m = a} (omega arith),
    mod-eq-sub-mod {n = p % a + k} {m = a} (omega arith),
    mod-eq_of_lt {n = p % a + k - a} {m = a} (omega arith),
  )
]

-- A write at the position after a window that does not fill the allocation leaves it alone.
pub ring_bytes-set :
    (buf : List ℕ) (a p n i v : ℕ)
    → n < a
    → i ≡ (p + n) % a
    → ring_bytes (set buf i v) a p n ≡ ring_bytes buf a p n
ring_bytes-set buf a p zero i v h e = refl
ring_bytes-set buf a p (suc n) i v h e =
    ap₂ ◌∷◌ (get_or-set_ne buf v 0 ne)
      (ring_bytes-set buf a (p + 1) n i v (omega arith) (e ∙ ap (λ t. t % a) shift))
  where
    shift : p + suc n ≡ p + 1 + n
    shift = omega arith

    ne : i ≢ p % a
    ne h' = add-mod-ne a p (suc n) (omega arith) h (sym e ∙ h')

-- A range that does not go round is a slice of the allocation.
pub ring_bytes-slice :
    (buf : List ℕ) (a p n : ℕ) → length buf ≡ a → p + n ≤ a → ring_bytes buf a p n ≡ slice buf p n
ring_bytes-slice buf a p zero e h = refl
ring_bytes-slice buf a p (suc n) e h =
    let m : p % a ≡ p = mod-eq_of_lt (omega arith) in
    rw (m, drop-cons buf p 0 (omega arith))
      (ap (λ t. get_or buf p 0 ∷ t) (ring_bytes-slice buf a (p + 1) n e (omega arith)))

abbrev pub contents : Ringbuffer → List ℕ
contents b = ring_bytes b.buffer b.alen b.rpos b.blen

pub length-contents : (b : Ringbuffer) → length (contents b) ≡ b.blen
length-contents b = length-ring_bytes b.buffer b.alen b.rpos b.blen
