-- ===== src/Encodings/Base64/Text.antt =====
-- The functions of base64 return strings of bytes.
use prosody_trunk.Base.{ℕ, zero, suc, ◌-◌, arith, Bool, true, false, Option, none, some}
use prosody_trunk.Base.{refl, List, [], ◌∷◌, All, All-append, take, ◌==◌, if◌then◌else◌}
use prosody_trunk.Lua.{string, IsText, Returns}
use prosody_trunk.Encodings.Base64.{
  Round, finish, fail, go_on, code, base64_decode, flush, add_digit, decode_round, decode_loop,
  decode, position, is_space, l_base64_encode, l_base64_decode,
}
use prosody_trunk.Encodings.Base64.Quantum.{digit-byte}
use prosody_trunk.Encodings.Base64.Encode.{IsByte, IsShort, rfc4648, encode-rfc4648}

rfc4648-IsByte : (s : List ℕ) → All IsByte (rfc4648 s)
unfolding rfc4648
rfc4648-IsByte [] = tt
rfc4648-IsByte (a ∷ []) = (digit-byte _, (digit-byte _, (omega arith, (omega arith, tt))))
rfc4648-IsByte (a ∷ b ∷ []) = (digit-byte _, (digit-byte _, (digit-byte _, (omega arith, tt))))
rfc4648-IsByte (a ∷ b ∷ c ∷ s) =
    (digit-byte _, (digit-byte _, (digit-byte _, (digit-byte _, rfc4648-IsByte s))))

pub encode-Returns : (s : List ℕ) → IsShort s → All IsByte s → Returns (l_base64_encode s)
unfolding l_base64_encode
encode-Returns s l h =
    (string (rfc4648 s) ∷ [], rw (encode-rfc4648 s l h) refl, (rfc4648-IsByte s, tt))

take-IsByte : (n : ℕ) (s : List ℕ) → All IsByte s → All IsByte (take n s)
take-IsByte zero s h = tt
take-IsByte (suc n) [] h = tt
take-IsByte (suc n) (c ∷ s) h = (h.0, take-IsByte n s h.1)

base64_decode-IsByte : (c1 c2 c3 c4 n : ℕ) → All IsByte (base64_decode c1 c2 c3 c4 n)
unfolding base64_decode
base64_decode-IsByte c1 c2 c3 c4 n =
    take-IsByte (n - 1) _ (omega arith, (omega arith, (omega arith, tt)))

flush-IsByte : (t : List ℕ) → All IsByte (flush t)
unfolding flush
flush-IsByte [] = tt
flush-IsByte (a ∷ []) = base64_decode-IsByte a 0 0 0 1
flush-IsByte (a ∷ b ∷ []) = base64_decode-IsByte a b 0 0 2
flush-IsByte (a ∷ b ∷ c ∷ []) = base64_decode-IsByte a b c 0 3
flush-IsByte (a ∷ b ∷ c ∷ d ∷ t) = tt

-- A round leaves bytes in the buffer.
abbrev RoundHas : Round → Type 0
RoundHas (go_on t out) = All IsByte out
RoundHas _ = Unit

add_digit-IsByte : (p : ℕ) (t out : List ℕ) → All IsByte out → RoundHas (add_digit p t out)
unfolding add_digit
add_digit-IsByte p [] out h = h
add_digit-IsByte p (a ∷ []) out h = h
add_digit-IsByte p (a ∷ b ∷ []) out h = h
add_digit-IsByte p (a ∷ b ∷ c ∷ []) out h =
    All-append IsByte out _ h (base64_decode-IsByte a b c p 4)
add_digit-IsByte p (a ∷ b ∷ c ∷ d ∷ t) out h = h

either : (b : Bool) (x y : Round) → RoundHas x → RoundHas y → RoundHas (if b then x else y)
either true x y h k = h
either false x y h k = k

placed :
    (t out : List ℕ) (o : Option ℕ)
    → All IsByte out
    → RoundHas (elim o [ none ↦ fail | some p ↦ add_digit p t out ])
placed t out none h = tt
placed t out (some p) h = add_digit-IsByte p t out h

decode_round-IsByte : (c : ℕ) (t out : List ℕ) → All IsByte out → RoundHas (decode_round c t out)
unfolding decode_round
decode_round-IsByte c t out h = either (c == 0) _ _ tt (
    either (c == b'=') _ _ (All-append IsByte out (flush t) h (flush-IsByte t))
      (either (is_space c) _ _ h (placed t out (position c code) h)))

abbrev OptionHas : Option (List ℕ) → Type 0
OptionHas none = Unit
OptionHas (some s) = All IsByte s

decode_loop-IsByte : (s t out : List ℕ) → All IsByte out → OptionHas (decode_loop s t out)
unfolding decode_loop
decode_loop-IsByte [] t out h = h
decode_loop-IsByte (c ∷ s) t out h =
    after (decode_round c t out) (decode_round-IsByte c t out h) (decode_loop-IsByte s)
  where
    after :
        (r : Round)
        → RoundHas r
        → ((t' out' : List ℕ) → All IsByte out' → OptionHas (decode_loop s t' out'))
        → OptionHas
            (elim r [ finish ↦ some out | fail ↦ none | go_on t' out' ↦ decode_loop s t' out' ])
    after finish k ih = h
    after fail k ih = tt
    after (go_on t' out') k ih = ih t' out' k

pub decode-IsText : (s : List ℕ) → All IsText (l_base64_decode s)
unfolding l_base64_decode decode
decode-IsText s = replied (decode_loop s [] []) (decode_loop-IsByte s [] [] tt)
  where
    replied :
        (o : Option (List ℕ))
        → OptionHas o
        → All IsText (elim o [ none ↦ [] | some out ↦ string out ∷ [] ])
    replied none h = tt
    replied (some out) h = (h, tt)
