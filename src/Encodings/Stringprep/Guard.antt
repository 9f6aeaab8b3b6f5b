-- ===== src/Encodings/Stringprep/Guard.antt =====
-- What `stringprep_prep` and `Lidna_to_unicode` hand to libidn.
use prosody_trunk.Base.{
  ℕ, ◌≤◌, ◌<◌, ◌≡◌, ◌≢◌, refl, sym, ap, ◌∙◌, ◌↔◌, Bool, true, false, not, ◌||◌, Option, none, some,
  arith,
}
use prosody_trunk.Base.{
  List, [], ◌∷◌, ◌++◌, All, length, ltb, leb, ◌==◌, Bool-cases, eq_of_==, inl, inr,
}
use prosody_trunk.Base.Int.{ℤ}
use prosody_trunk.Lua.{text_of, Value, nil, string}
use prosody_trunk.Encodings.Utf8.{Verdict, valid, invalid, running, check_utf8}
use prosody_trunk.Encodings.Utf8.Sequences.{IsScalar}
use prosody_trunk.Encodings.Utf8.Sound.{IsByte}
use prosody_trunk.Encodings.Utf8.Valid.{encode_all, check_utf8_iff}
use prosody_trunk.Encodings.Stringprep.{
  cstring, strlen, is_valid, strcpy, buffer_size, is_refused, converted, prep_text, stringprep_prep,
  to_unicode_text, l_idna_to_unicode,
}

-- A string with no zero byte is what C sees of it, and the only kind of which C sees all.
abbrev pub HasNoZero : List ℕ → Type 0
HasNoZero s = All (λ c. c ≢ 0) s

pub cstring_lem : (s : List ℕ) → HasNoZero s → cstring s ≡ s
unfolding cstring
cstring_lem [] h = refl
cstring_lem (c ∷ s) (n, h) =
    let e : (c == 0) ≡ false = ground arith in rw e (ap (λ t. c ∷ t) (cstring_lem s h))

cstring_cut : (s rest : List ℕ) → HasNoZero s → cstring (s ++ 0 ∷ rest) ≡ s
unfolding cstring
cstring_cut [] rest h = refl
cstring_cut (c ∷ s) rest (n, h) =
    let e : (c == 0) ≡ false = ground arith in rw e (ap (λ t. c ∷ t) (cstring_cut s rest h))

cstring-le : (s : List ℕ) → strlen s ≤ length s
unfolding strlen cstring
cstring-le [] = omega arith
cstring-le (c ∷ s) = ground (arith, cstring-le s)

pub HasNoZero-of : (s : List ℕ) → length s ≡ strlen s → HasNoZero s
unfolding strlen cstring
HasNoZero-of [] e = tt
HasNoZero-of (c ∷ s) e = elim (Bool-cases (c == 0)) [
  | inl z ↦ absurd (ground arith)
  | inr n ↦ (ground arith, HasNoZero-of s (ground arith))
]

-- What the guard lets through.
pub record Passes (s : List ℕ) : Type 0 where
  pub text : (vs : List ℕ) × All IsScalar vs × (s ≡ encode_all vs)
  pub short : length s < buffer_size
  pub whole : HasNoZero s

pub valid_of : (v : Verdict) → is_valid v ≡ true → v ≡ valid
valid_of valid h = refl
valid_of invalid h = cc h
valid_of running h = cc h

three : (a b c : Bool) → (not a || b || not c) ≡ false → (a ≡ true) × (b ≡ false) × (c ≡ true)
three true false true e = (refl, refl, refl)
three true false false e = cc e
three true true c e = cc e
three false b c e = cc e

pub Passes_of : (s : List ℕ) → All IsByte s → is_refused s ≡ false → Passes s
unfolding is_refused
Passes_of s b e =
    let (v, l, w) =
      three (is_valid (check_utf8 s)) (leb buffer_size (length s)) (length s == strlen s) e in
    record {
      text = (check_utf8_iff s b).0 (valid_of (check_utf8 s) v);
      short = ground arith;
      whole = HasNoZero-of s (eq_of_== _ _ w);
    }

strlen_lem : (s : List ℕ) → HasNoZero s → strlen s ≡ length s
unfolding strlen
strlen_lem s h = ap length (cstring_lem s h)

pub accepted : (s : List ℕ) → All IsByte s → Passes s → is_refused s ≡ false
accepted s b p =
    let v : check_utf8 s ≡ valid = (check_utf8_iff s b).1 p.text in
    let w = strlen_lem s p.whole in let l = p.short in unfold is_refused in rw (v, w) (ground arith)

-- The buffer holds what is copied to it.
copied : (s : List ℕ) → Passes s → strcpy buffer_size s ≡ some s
unfolding strcpy
copied s p =
    let l = p.short in
    let w = strlen_lem s p.whole in
    let h : ltb (strlen s) buffer_size ≡ true = ground arith in
    rw h (ap some (cstring_lem s p.whole))

converted_iff :
    (o : Option (List ℕ)) (out : List ℕ)
    → (◌≡◌ {A = Option (List Value)} (some (converted o)) (some (string out ∷ []))) ↔ (o ≡ some out)
unfolding converted
converted_iff none out = (λ e. cc e, λ e. cc e)
converted_iff (some o) out = (λ e. cc e, λ e. cc e)

module _ (decimal : ℤ → List ℕ) (profile : List ℕ → Option (List ℕ)) where
  pub prep_passed :
      (s : List ℕ)
      → All IsByte s
      → Passes s
      → prep_text decimal profile (some s) ≡ some (converted (profile s))
  unfolding prep_text
  prep_passed s b p = rw (accepted s b p, copied s p) refl

  pub prep_refused :
      (s : List ℕ) → is_refused s ≡ true → prep_text decimal profile (some s) ≡ some (nil ∷ [])
  unfolding prep_text
  prep_refused s r = rw r refl

  -- On every string of bytes `stringprep_prep` returns without writing beyond its buffer, and it returns
  -- a string exactly if the argument is the UTF-8 of scalar values, of less than 1024 bytes and with no
  -- zero byte, and the profile maps the whole of it to that string.
  pub stringprep_prep_iff :
      (s : List ℕ)
      → All IsByte s
      → (stringprep_prep decimal profile (some (string s)) ≢ none)
        × ((out : List ℕ)
            → (stringprep_prep decimal profile (some (string s)) ≡ some (string out ∷ []))
              ↔ (Passes s × (profile s ≡ some out)))
  unfolding stringprep_prep text_of
  stringprep_prep_iff s b = elim (Bool-cases (is_refused s)) [
    | inl r ↦
        rw (prep_refused s r) (λ e. cc e, λ out. (λ e. cc e, λ q. cc (sym r ∙ accepted s b q.0)))
    | inr a ↦
        let p = Passes_of s b a in
        rw (prep_passed s b p) (
          λ e. cc e,
          λ out. (
            λ e. (p, (converted_iff (profile s) out).0 e),
            λ q. (converted_iff (profile s) out).1 q.1,
          ),
        )
  ]

  -- A string that has a zero byte is cut there by `Lidna_to_unicode`, which does not look for one as the
  -- other functions do: what follows changes nothing.
  pub l_idna_to_unicode_cut :
      (s rest : List ℕ)
      → HasNoZero s
      → l_idna_to_unicode decimal profile (some (string (s ++ 0 ∷ rest)))
        ≡ l_idna_to_unicode decimal profile (some (string s))
  unfolding l_idna_to_unicode text_of to_unicode_text
  l_idna_to_unicode_cut s rest h =
      ap (λ t. some (converted (profile t))) (cstring_cut s rest h ∙ sym (cstring_lem s h))
