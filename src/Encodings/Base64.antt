-- ===== src/Encodings/Base64.antt =====
-- The base64 part of util-src/encodings.c, lines 26 to 165. A string is the list of its bytes, and
-- what is added to a `luaL_Buffer` is appended to a list.
-- Quantum, Encode and Decode, below this module, prove what the functions do.
pub mod Quantum
pub mod Encode
pub mod Decode
pub mod Text
mod Examples
use prosody_trunk.Base.{ℕ, zero, suc, ◌+◌, ◌-◌, ◌*◌, ◌/◌, ◌%◌, ◌^◌, Bool, true, false, ◌||◌}
use prosody_trunk.Base.{Option, none, some, List, [], ◌∷◌, ◌++◌, ◌==◌, if◌then◌else◌, ◌>>=◌}
use prosody_trunk.Base.{length, get_or, set, take, drop}
use prosody_trunk.Base.Int.{ℤ, pos, negsuc, to_int}
use prosody_trunk.Base.Text.{bytes}
use prosody_trunk.Lua.{Value, string}
use mathlib.Core.Option

pub code : List ℕ
code = bytes "ABCDEFGHIJKLMNOPQRSTUVWXYZabcdefghijklmnopqrstuvwxyz0123456789+/"

-- The loop that overwrites `s[i]`, `s[i + 1]`, … with the padding byte.
pub pad_loop : ℕ → ℕ → List ℕ → List ℕ
pad_loop zero i s = s
pad_loop (suc k) i s = pad_loop k (i + 1) (set s i b'=')

-- The four digits are filled from the last one on.
pub base64_encode : ℕ → ℕ → ℕ → ℕ → List ℕ
unfolding pad_loop
base64_encode c1 c2 c3 n =
    let tuple = c3 + 256 * (c2 + 256 * c1) in
    pad_loop (3 - n) (n + 1) (
      get_or code (tuple / 64 / 64 / 64 % 64) 0
      ∷ get_or code (tuple / 64 / 64 % 64) 0
      ∷ get_or code (tuple / 64 % 64) 0
      ∷ get_or code (tuple % 64) 0
      ∷ [])

-- `n` rounds over whole triples: the rest of the string, and the buffer.
pub encode_loop : ℕ → List ℕ → List ℕ → List ℕ × List ℕ
encode_loop zero s out = (s, out)
encode_loop (suc n) s out =
    encode_loop n (drop 3 s) (out ++ base64_encode (get_or s 0 0) (get_or s 1 0) (get_or s 2 0) 3)

-- The `switch` on the number of bytes left over.
pub encode_rest : ℕ → List ℕ → List ℕ
encode_rest r s =
    if r == 1
    then base64_encode (get_or s 0 0) 0 0 1
    else if r == 2
    then base64_encode (get_or s 0 0) (get_or s 1 0) 0 2
    else []

-- The loop over `n`, an `int`, and the `switch`. From a number below zero the loop counts on downwards,
-- far past the end of the string: a fault.
pub encode_from : ℤ → List ℕ → Option (List ℕ)
unfolding encode_loop encode_rest base64_encode
encode_from (negsuc n) s = none
encode_from (pos n) s =
    let (rest, out) = encode_loop n s [] in some (out ++ encode_rest (length s % 3) rest)

pub encode : List ℕ → Option (List ℕ)
unfolding encode_from
encode s = encode_from (to_int (length s / 3)) s

-- `none` is a fault.
pub l_base64_encode : List ℕ → Option (List Value)
unfolding encode
l_base64_encode s = do out ← encode s; some (string out ∷ [])

-- The first `n - 1` of the three bytes that four digits stand for, each cut to a `char`.
pub base64_decode : ℕ → ℕ → ℕ → ℕ → ℕ → List ℕ
base64_decode c1 c2 c3 c4 n =
    let tuple = c4 + 64 * (c3 + 64 * (c2 + 64 * c1)) in
    take (n - 1) (tuple / 2 ^ 16 % 256 ∷ tuple / 2 ^ 8 % 256 ∷ tuple % 256 ∷ [])

-- `strchr(code, c) - code`
pub position : ℕ → List ℕ → Option ℕ
position c [] = none
position c (x ∷ xs) = let rest = position c xs in if x == c then some 0 else Option.map suc rest

-- The bytes that the `switch` passes over.
pub is_space : ℕ → Bool
is_space c = c == 10 || c == 13 || c == 9 || c == 32 || c == 12 || c == 8

-- What one round of the loop does: end the string, give up, or go on with the digits that are
-- pending (`t[0]` to `t[n - 1]`) and the buffer.
pub data Round : Type 0 where
  finish : Round
  fail : Round
  go_on : List ℕ → List ℕ → Round

-- `case '='`: what is pending, with zeros for the missing digits.
pub flush : List ℕ → List ℕ
flush (a ∷ []) = base64_decode a 0 0 0 1
flush (a ∷ b ∷ []) = base64_decode a b 0 0 2
flush (a ∷ b ∷ c ∷ []) = base64_decode a b c 0 3
flush _ = []

-- `default:` with the digit `p`.
pub add_digit : ℕ → List ℕ → List ℕ → Round
add_digit p (a ∷ b ∷ c ∷ []) out = go_on [] (out ++ base64_decode a b c p 4)
add_digit p t out = go_on (t ++ (p ∷ [])) out

pub decode_round : ℕ → List ℕ → List ℕ → Round
unfolding flush add_digit base64_decode position is_space
decode_round c t out =
    if c == 0
    then finish
    else if c == b'='
    then go_on [] (out ++ flush t)
    else if is_space c
    then go_on t out
    else elim (position c code) [ none ↦ fail | some p ↦ add_digit p t out ]

-- The string is followed by a zero byte, which ends the loop.
pub decode_loop : List ℕ → List ℕ → List ℕ → Option (List ℕ)
decode_loop [] t out = some out
decode_loop (c ∷ s) t out = elim (decode_round c t out) [
  | finish ↦ some out
  | fail ↦ none
  | go_on t' out' ↦ decode_loop s t' out'
]

pub decode : List ℕ → Option (List ℕ)
decode s = decode_loop s [] []

pub l_base64_decode : List ℕ → List Value
unfolding decode
l_base64_decode s = elim (decode s) [ none ↦ [] | some out ↦ string out ∷ [] ]
