-- ===== src/Windows/Quads.antt =====
-- util-src/windows.c: the text of an address, its length and what it is read back as.
use prosody_trunk.Base.{
  ℕ, ◌+◌, ◌-◌, ◌*◌, ◌/◌, ◌%◌, ◌^◌, ◌≤◌, ◌<◌, ◌≡◌, ap, ◌∙◌, List, [], ◌∷◌, ◌++◌, length,
  length-append, ◌==◌, if◌then◌else◌, ◌⊎◌, inl, inr, append-nil, sym, arith,
}
use prosody_trunk.Windows.{decimal, ip_str}

-- A reader of numbers with dots between them, the lowest byte first.
pub quads_value : ℕ → ℕ → ℕ → List ℕ → ℕ
quads_value sum weight n [] = sum + weight * n
quads_value sum weight n (c ∷ s) =
    let next = quads_value (sum + weight * n) (weight * 256) 0 s in
    let more = quads_value sum weight (n * 10 + (c - 48)) s in if c == 46 then next else more

length-decimal : (n : ℕ) → length (decimal n) ≤ 3
unfolding decimal
length-decimal n = ground arith

quads_value-digit :
    (sum weight n k m : ℕ) (s : List ℕ)
    → n * 10 + k ≡ m
    → quads_value sum weight n ((48 + k) ∷ s) ≡ quads_value sum weight m s
unfolding quads_value
quads_value-digit sum weight n k m s e = grind arith

-- One, two or three digits.
decimal-cases :
    (n : ℕ)
    → (decimal n ≡ (48 + n) ∷ [])
      ⊎ ((decimal n ≡ (48 + n / 10) ∷ (48 + n % 10) ∷ [])
          ⊎ (decimal n ≡ (48 + n / 100) ∷ (48 + n / 10 % 10) ∷ (48 + n % 10) ∷ []))
unfolding decimal
decimal-cases n = ground arith

quads_value-decimal :
    (sum weight n : ℕ) (s : List ℕ)
    → quads_value sum weight 0 (decimal n ++ s) ≡ quads_value sum weight n s
quads_value-decimal sum weight n s = elim (decimal-cases n) [
  | inl e ↦ rw e (quads_value-digit sum weight 0 n n s (omega arith))
  | inr (inl e) ↦ rw e (
      quads_value-digit sum weight 0 (n / 10) (n / 10) _ (omega arith)
      ∙ quads_value-digit sum weight (n / 10) (n % 10) n s (omega arith))
  | inr (inr e) ↦ rw e (
      quads_value-digit sum weight 0 (n / 100) (n / 100) _ (omega arith)
      ∙ quads_value-digit sum weight (n / 100) (n / 10 % 10) (n / 10) _ (omega arith)
      ∙ quads_value-digit sum weight (n / 10) (n % 10) n s (omega arith))
]

abbrev quads : ℕ → ℕ → ℕ → ℕ → List ℕ
quads a b c d = decimal a ++ (46 ∷ decimal b ++ (46 ∷ decimal c ++ (46 ∷ decimal d)))

length-quads : (a b c d : ℕ) → length (quads a b c d) ≤ 15
length-quads a b c d = omega (
  arith,
  length-append (decimal a) (46 ∷ decimal b ++ (46 ∷ decimal c ++ (46 ∷ decimal d))),
  length-append (decimal b) (46 ∷ decimal c ++ (46 ∷ decimal d)),
  length-append (decimal c) (46 ∷ decimal d),
  length-decimal a,
  length-decimal b,
  length-decimal c,
  length-decimal d,
)

quads_value-quads :
    (a b c d : ℕ) → quads_value 0 1 0 (quads a b c d) ≡ a + 256 * b + 65536 * c + 16777216 * d
unfolding quads_value
quads_value-quads a b c d =
    quads_value-decimal 0 1 a _
    ∙ quads_value-decimal (0 + 1 * a) 256 b _
    ∙ quads_value-decimal (0 + 1 * a + 256 * b) 65536 c _
    ∙ ap (quads_value (0 + 1 * a + 256 * b + 65536 * c) 16777216 0) (sym (append-nil (decimal d)))
    ∙ quads_value-decimal (0 + 1 * a + 256 * b + 65536 * c) 16777216 d []
    ∙ omega arith

-- For an address of 32 bits the text has at most 15 characters, so that it and the zero byte after
-- it fit `ip_str` of 16 bytes, and reading its four numbers as bytes, the lowest one first, gives the
-- address back.
pub ip_str_fits :
    (ip : ℕ) → ip < 2 ^ 32 → (length (ip_str ip) ≤ 15) × (quads_value 0 1 0 (ip_str ip) ≡ ip)
unfolding ip_str
ip_str_fits ip l = (
  length-quads (ip % 256) (ip / 256 % 256) (ip / 65536 % 256) (ip / 16777216 % 256),
  quads_value-quads (ip % 256) (ip / 256 % 256) (ip / 65536 % 256) (ip / 16777216 % 256)
      ∙ omega arith,
)
