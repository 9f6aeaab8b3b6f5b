-- ===== src/Base/Bits.antt =====
-- Laws of `|`, `&` and `^` on words, as arithmetic. The native operations recur on binary digits.
use Prim.Native.Nat.{ℕ, zero, suc, ◌+◌, ◌*◌, ◌/◌, ◌%◌, ◌^◌, ◌≤◌, ◌<◌, max}
use Prim.Native.Nat.{bit_or, bit_xor, digits, differ, bit_or-bitwise, bit_xor-bitwise}
use mathlib.Core.Path.{◌≡◌, refl, ap, ap₂, sym, ◌∙◌}
use mathlib.Core.Bool.{Bool, true, ◌&&◌}
use native.Mathlib.Omega.{arith}
use native.Mathlib.Nat.{pow-suc}
use prosody_trunk.Base.Tests.{◌==◌, eq_of_==}

-- A statement about the numbers below a bound, checked by evaluation.
unfoldable pub all_below : ℕ → (ℕ → Bool) → Bool
all_below zero p = true
all_below (suc n) p = p n && all_below n p

pub all_below_sound : (n : ℕ) (p : ℕ → Bool) (x : ℕ) → all_below n p ≡ true → x < n → p x ≡ true
unfolding all_below
all_below_sound zero p x h l = absurd (omega arith)
all_below_sound (suc n) p x h l = ground (arith, all_below_sound n p x)

-- Two functions that agree in a table of their values are equal there.
pub eq_of_table :
    (n : ℕ) (f g : ℕ → ℕ) (x : ℕ) → all_below n (λ k. f k == g k) ≡ true → x < n → f x ≡ g x
eq_of_table n f g x h l = eq_of_== (f x) (g x) (all_below_sound n (λ k. f k == g k) x h l)

-- An operation by digits, with as much fuel as it takes, as an equation for the lowest digit.
module _ (f : ℕ → ℕ → ℕ) where
  enough_fuel : (n m a b : ℕ) → a ≤ n → a ≤ m → digits (λ y. y) f n a b ≡ digits (λ y. y) f m a b
  enough_fuel zero zero a b h k = refl
  enough_fuel zero (suc m) zero b h k = refl
  enough_fuel zero (suc m) (suc a) b h k = absurd (omega arith)
  enough_fuel (suc n) zero zero b h k = refl
  enough_fuel (suc n) zero (suc a) b h k = absurd (omega arith)
  enough_fuel (suc n) (suc m) zero b h k = refl
  enough_fuel (suc n) (suc m) (suc a) b h k =
      ap (λ t. t * 2 + f (suc a % 2) (b % 2))
        (enough_fuel n m (suc a / 2) (b / 2) (omega arith) (omega arith))

  lowest_digit :
      (a b : ℕ)
      → ((y : ℕ) → f 0 y ≡ y)
      → digits (λ y. y) f a a b ≡ digits (λ y. y) f (a / 2) (a / 2) (b / 2) * 2 + f (a % 2) (b % 2)
  lowest_digit zero b left = omega (arith, left (b % 2))
  lowest_digit (suc a) b left =
      ap (λ t. t * 2 + f (suc a % 2) (b % 2))
        (enough_fuel a (suc a / 2) (suc a / 2) (b / 2) (omega arith) (omega arith))

bit_or_step : (a b : ℕ) → bit_or a b ≡ bit_or (a / 2) (b / 2) * 2 + max (a % 2) (b % 2)
bit_or_step a b =
    bit_or-bitwise a b
    ∙ lowest_digit max a b (λ y. omega arith)
    ∙ ap (λ t. t * 2 + max (a % 2) (b % 2)) (sym (bit_or-bitwise (a / 2) (b / 2)))

differ-zero : (y : ℕ) → differ 0 y ≡ y
differ-zero y = refl

bit_xor_step : (a b : ℕ) → bit_xor a b ≡ bit_xor (a / 2) (b / 2) * 2 + differ (a % 2) (b % 2)
bit_xor_step a b =
    bit_xor-bitwise a b
    ∙ lowest_digit differ a b differ-zero
    ∙ ap (λ t. t * 2 + differ (a % 2) (b % 2)) (sym (bit_xor-bitwise (a / 2) (b / 2)))

-- Such an operation acts on the low `k` bits and on the rest apart.
module _ (op f : ℕ → ℕ → ℕ) (step : (a b : ℕ) → op a b ≡ op (a / 2) (b / 2) * 2 + f (a % 2) (b % 2))
    (op_zero : op 0 0 ≡ 0) where
  split_fields :
      (k q p a b : ℕ)
      → a < 2 ^ k
      → b < 2 ^ k
      → op (q * 2 ^ k + a) (p * 2 ^ k + b) ≡ op q p * 2 ^ k + op a b
  split_fields zero q p a b h l =
      let a0 : a ≡ 0 = omega arith in
      let b0 : b ≡ 0 = omega arith in
      let q1 : q * 2 ^ zero + 0 ≡ q = omega arith in
      let p1 : p * 2 ^ zero + 0 ≡ p = omega arith in rw (a0, b0, q1, p1, op_zero) (omega arith)
  split_fields (suc k) q p a b h l =
      let w : 2 ^ suc k ≡ 2 ^ k * 2 = pow-suc 2 k in
      let qa : (q * 2 ^ suc k + a) / 2 ≡ q * 2 ^ k + a / 2 = half q a in
      let pb : (p * 2 ^ suc k + b) / 2 ≡ p * 2 ^ k + b / 2 = half p b in
      let qm : (q * 2 ^ suc k + a) % 2 ≡ a % 2 = parity q a in
      let pm : (p * 2 ^ suc k + b) % 2 ≡ b % 2 = parity p b in
      step (q * 2 ^ suc k + a) (p * 2 ^ suc k + b)
      ∙ rw (qa, pb, qm, pm)
          (rw (split_fields k q p (a / 2) (b / 2) (omega arith) (omega arith))
            (rw (step a b, w) (regroup (op q p) (2 ^ k) (op (a / 2) (b / 2)) (f (a % 2) (b % 2)))))
    where
      twice : (x : ℕ) → x * 2 ^ suc k ≡ 2 * (x * 2 ^ k)
      twice x = omega (arith, ap (λ (t : ℕ). x * t) (pow-suc 2 k))

      half : (x y : ℕ) → (x * 2 ^ suc k + y) / 2 ≡ x * 2 ^ k + y / 2
      half x y = omega (arith, twice x)

      parity : (x y : ℕ) → (x * 2 ^ suc k + y) % 2 ≡ y % 2
      parity x y = omega (arith, twice x)

      regroup : (u t v e : ℕ) → (u * t + v) * 2 + e ≡ u * (t * 2) + (v * 2 + e)
      regroup u t v e = omega arith

zero-bit_or : (q : ℕ) → bit_or 0 q ≡ q
zero-bit_or q = bit_or-bitwise 0 q

bit_or-zero_below : (n a : ℕ) → a ≤ n → bit_or a 0 ≡ a
bit_or-zero_below zero a h = let e : a ≡ 0 = omega arith in rw (e, zero-bit_or)
bit_or-zero_below (suc n) zero h = zero-bit_or 0
bit_or-zero_below (suc n) (suc a) h =
    omega (arith, bit_or_step (suc a) 0, bit_or-zero_below n (suc a / 2) (omega arith))

bit_or-zero : (a : ℕ) → bit_or a 0 ≡ a
bit_or-zero a = bit_or-zero_below a a (omega arith)

-- `|` of a field of `k` bits and of what stands above it, in both orders.
pub bit_or_above : (k q r : ℕ) → r < 2 ^ k → bit_or (q * 2 ^ k) r ≡ q * 2 ^ k + r
bit_or_above k q r h =
    ap₂ bit_or (omega arith) (omega arith)
    ∙ split_fields bit_or max bit_or_step refl k q 0 0 r (omega arith) h
    ∙ ap₂ (λ x y. x * 2 ^ k + y) (bit_or-zero q) (zero-bit_or r)

pub bit_or_below : (k q r : ℕ) → r < 2 ^ k → bit_or r (q * 2 ^ k) ≡ q * 2 ^ k + r
bit_or_below k q r h =
    ap₂ bit_or (omega arith) (omega arith)
    ∙ split_fields bit_or max bit_or_step refl k 0 q r 0 h (omega arith)
    ∙ ap₂ (λ x y. x * 2 ^ k + y) (zero-bit_or q) (bit_or-zero r)

-- `^` acts on the low byte and on the rest apart.
pub bit_xor_bytes :
    (q p a b : ℕ)
    → a < 256
    → b < 256
    → bit_xor (q * 256 + a) (p * 256 + b) ≡ bit_xor q p * 256 + bit_xor a b
bit_xor_bytes q p a b h l = split_fields bit_xor differ bit_xor_step refl 8 q p a b h l

differ-le : (a b : ℕ) → a < 2 → b < 2 → differ a b < 2
differ-le zero b h l = l
differ-le (suc zero) zero h l = omega arith
differ-le (suc zero) (suc b) h l = omega arith
differ-le (suc (suc a)) b h l = absurd (omega arith)

-- `^` of two numbers of `k` bits has `k` bits.
pub bit_xor-lt : (k a b : ℕ) → a < 2 ^ k → b < 2 ^ k → bit_xor a b < 2 ^ k
bit_xor-lt zero a b h l =
    let a0 : a ≡ 0 = omega arith in let b0 : b ≡ 0 = omega arith in rw (a0, b0) (omega arith)
bit_xor-lt (suc k) a b h l =
    let w : 2 ^ suc k ≡ 2 ^ k * 2 = pow-suc 2 k in
    omega (
      arith,
      w,
      bit_xor_step a b,
      bit_xor-lt k (a / 2) (b / 2) (omega arith) (omega arith),
      differ-le (a % 2) (b % 2) (omega arith) (omega arith),
    )
