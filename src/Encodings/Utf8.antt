-- ===== src/Encodings/Utf8.antt =====
-- The UTF-8 part of util-src/encodings.c, lines 167 to 257. A string is the list of its bytes; what
-- is read at its end is the zero byte that follows every Lua string.
-- Reader, Sequences, Lengths, Sound and Valid, below this module, prove what the functions do.
pub mod Reader
pub mod Sequences
pub mod Lengths
pub mod Sound
pub mod Valid
pub mod Text
mod Examples
use prosody_trunk.Base.{ℕ, zero, suc, ◌+◌, ◌-◌, ◌*◌, ◌/◌, ◌%◌, ◌^◌, Bool, true, false, ◌||◌, ◌&&◌}
use prosody_trunk.Base.{Option, none, some, List, [], ◌∷◌, ◌==◌, ltb, leb, if◌then◌else◌, ◌>>=◌}
use prosody_trunk.Base.{length, get_or, bit_and, bit_or, not}
use prosody_trunk.Base.Int.{of_size}
use prosody_trunk.Base.Text.{bytes}
use prosody_trunk.Lua.{Value, nil, boolean, integer, string}

abbrev pub max_unicode : ℕ
max_unicode = 0x10FFFF

abbrev pub limits : List ℕ
limits = 0xFF ∷ 0x7F ∷ 0x7FF ∷ 0xFFFF ∷ []

-- The variables of the loop over the continuation bytes.
pub record Reading : Type 0 where
  pub c : ℕ
  pub count : ℕ
  pub res : ℕ

-- One round: shift in the low six bits of `cc`, and move to the next bit of the first byte.
abbrev pub continue : Reading → ℕ → Reading
continue r cc = record {
  c = r.c * 2 % 2 ^ 32;
  count = r.count + 1;
  res = bit_or (r.res * 2 ^ 6 % 2 ^ 32) (bit_and cc 0x3F);
}

-- The loop `while(c & 0x40)` over the bytes after the first one, to the bytes that it leaves.
pub cont_loop : List ℕ → Reading → Option (Reading × List ℕ)
cont_loop [] r = if bit_and r.c 0x40 == 0 then some (r, []) else none
cont_loop (cc ∷ s) r =
    let next = cont_loop s (continue r cc) in
    if bit_and r.c 0x40 == 0
    then some (r, cc ∷ s)
    else if not (bit_and cc 0xC0 == 0x80)
    then none
    else next

-- What follows the loop: the bits of the first byte are added, and the result is checked.
pub finish : Reading → List ℕ → Option (ℕ × List ℕ)
finish r s =
    let res = bit_or r.res (bit_and r.c 0x7F * 2 ^ (r.count * 5) % 2 ^ 32) in
    if ltb 3 r.count
      || ltb max_unicode res
      || leb res (get_or limits r.count 0)
      || (leb 0xd800 res && leb res 0xdfff)
    then none
    else some (res, s)

-- The number that the bytes begin with, and the bytes after it.
pub utf8_decode : List ℕ → Option (ℕ × List ℕ)
utf8_decode [] = some (0, [])
utf8_decode (c ∷ s) =
    if ltb c 0x80
    then some (c, s)
    else do (r, s') ← cont_loop s (record { c = c; count = 0; res = 0 }); finish r s'

-- How the check of a whole string ends; `running` means that the fuel ran out.
pub data Verdict : Type 0 where
  valid invalid running : Verdict

-- The loop `while(pos <= len)`, over the bytes from `pos` on. Its last round reads the zero byte at
-- `len`, and ends with `pos` beyond it.
pub check_loop : ℕ → List ℕ → Verdict
check_loop zero s = running
check_loop (suc fuel) [] = valid
check_loop (suc fuel) (c ∷ s) = elim (utf8_decode (c ∷ s)) [
  | none ↦ invalid
  | some (v, s') ↦ check_loop fuel s'
]

-- Each round takes a byte at least.
pub check_utf8 : List ℕ → Verdict
check_utf8 s = check_loop (length s + 1) s

pub l_utf8_valid : List ℕ → List Value
l_utf8_valid s = boolean (elim (check_utf8 s) [ valid ↦ true | _ ↦ false ]) ∷ []

pub l_utf8_length : List ℕ → List Value
l_utf8_length s = elim (check_utf8 s) [
  | valid ↦ integer (of_size (length s)) ∷ []
  | _ ↦ nil ∷ string (bytes "invalid utf8") ∷ []
]
