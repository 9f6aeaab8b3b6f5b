-- ===== src/Net/Convert.antt =====
-- `lc_ntop` and `lc_pton` undo each other.
use prosody_trunk.Base.{
  ℕ, ◌≤◌, ◌≡◌, ◌⊎◌, inl, inr, refl, sym, ap, ◌∙◌, true, false, some, arith, ◌==◌,
}
use prosody_trunk.Base.{List, [], ◌∷◌, ◌++◌, All, length, take, take_all-append}
use prosody_trunk.Lua.{string}
use prosody_trunk.Net.{
  Family, af_inet, af_inet6, converted, Library, has_colon, pushed_length, pton_values, lc_pton,
  ntop_values, lc_ntop,
}

abbrev pub size_of : Family → ℕ
size_of af_inet = 4
size_of af_inet6 = 16

-- What POSIX says of the two conversions, one family at a time: `inet_ntop` writes an address of the
-- size of its family as a text; `inet_pton` of the family reads such a text, and has the address at the
-- beginning of the buffer, whose other bytes are left as they were; a text of IPv6 has a colon, and one
-- of IPv4, which is of digits and dots, has none.
pub record IsInet (C : Library) : Type 0 where
  pub writes :
      (f : Family) (a : List ℕ) → length a ≡ size_of f → (s : List ℕ) × (C.inet_ntop f a ≡ some s)
  pub reads :
      (f : Family) (a s : List ℕ)
      → length a ≡ size_of f
      → C.inet_ntop f a ≡ some s
      → (rest : List ℕ) × (C.inet_pton f s ≡ converted (a ++ rest)) × (length (a ++ rest) ≡ 16)
  pub coloned :
      (a s : List ℕ)
      → length a ≡ 16
      → C.inet_ntop af_inet6 a ≡ some s
      → (before after : List ℕ) × (s ≡ before ++ b':' ∷ after)
  pub dotted :
      (a s : List ℕ)
      → length a ≡ 4
      → C.inet_ntop af_inet a ≡ some s
      → All (λ c. (c ≡ b'.') ⊎ ((b'0' ≤ c) × (c ≤ b'9'))) s

module _ (C : Library) where
  has_colon-found : (before after : List ℕ) → has_colon C (before ++ b':' ∷ after) ≡ true
  unfolding has_colon
  has_colon-found [] after = refl
  has_colon-found (c ∷ before) after = ground (arith, has_colon-found before after)

  is_no_colon : (c : ℕ) → (c ≡ b'.') ⊎ ((b'0' ≤ c) × (c ≤ b'9')) → (c == b':') ≡ false
  is_no_colon c (inl e) = ground arith
  is_no_colon c (inr (l, h)) = ground arith

  has_colon-none :
      (s : List ℕ) → All (λ c. (c ≡ b'.') ⊎ ((b'0' ≤ c) × (c ≤ b'9'))) s → has_colon C s ≡ false
  unfolding has_colon
  has_colon-none [] h = refl
  has_colon-none (c ∷ s) (d, h) = rw (is_no_colon c d) (has_colon-none s h)

module _ (C : Library) (laws : IsInet C) (errno : ℕ) where
  -- An address of four or of sixteen bytes is written as a text, from which `lc_pton`, which has to
  -- guess the family and the number of bytes to take from its buffer of sixteen, reads the same bytes.
  -- The conversions of the C library are as POSIX has them.
  pub lc_pton-lc_ntop :
      (f : Family) (a : List ℕ)
      → length a ≡ size_of f
      → (s : List ℕ) × (lc_ntop C errno a ≡ string s ∷ []) × (lc_pton C s ≡ string a ∷ [])
  unfolding lc_ntop lc_pton pton_values ntop_values pushed_length
  lc_pton-lc_ntop af_inet a h =
      let (s, w) = laws.writes af_inet a h in
      let (rest, r, l) = laws.reads af_inet a s h w in
      let c = has_colon-none C s (laws.dotted a s h w) in
      let t : take 4 (a ++ rest) ≡ a =
        ap (λ n. take n (a ++ rest)) (sym h) ∙ take_all-append a rest in
      (s, rw (h, w) refl, rw (c, r, t) refl)
  lc_pton-lc_ntop af_inet6 a h =
      let (s, w) = laws.writes af_inet6 a h in
      let (rest, r, l) = laws.reads af_inet6 a s h w in
      let (before, after, e) = laws.coloned a s h w in
      let c : has_colon C s ≡ true = ap (has_colon C) e ∙ has_colon-found C before after in
      let t : take 16 (a ++ rest) ≡ a =
        ap (λ n. take n (a ++ rest)) (sym h) ∙ take_all-append a rest in
      (s, rw (h, w) refl, rw (c, r, t) refl)
