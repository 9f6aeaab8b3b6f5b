-- ===== src/Ringbuffer.antt =====
-- util-src/ringbuffer.c: a byte queue in a fixed allocation, read and written at positions that go
-- round. The functions below are those of the file, on a buffer that is passed and returned.
-- Contents, Write, Read, Scan, Find and Session, below this module, prove what they do.
-- `none` is a fault: the remainder by a zero `alen`.
pub mod Contents
pub mod Write
pub mod Read
pub mod Scan
pub mod Find
pub mod Session
pub mod Opened
mod Examples
use prosody_trunk.Base.{ℕ, zero, suc, ◌+◌, ◌%◌, ◌^◌, Bool, true, false, ◌&&◌, Option, none, some}
use prosody_trunk.Base.{List, [], ◌∷◌, ◌++◌, ltb, leb, ◌==◌, if◌then◌else◌, ◌>>=◌}
use prosody_trunk.Base.{length, get_or, set, take, drop, replicate}
use prosody_trunk.Base.Int.{ℤ, add_size, sub_size, to_size, of_size, through_int}
use prosody_trunk.Base.Text.{bytes}
use prosody_trunk.Lua.{Value, nil, boolean, integer, string}

pub record Ringbuffer : Type 0 where
  pub rpos : ℕ
  pub wpos : ℕ
  pub alen : ℕ
  pub blen : ℕ
  pub buffer : List ℕ

-- A read out of the allocation gives 0, and a write out of it changes nothing.
pub readchar : Ringbuffer → Option (ℕ × Ringbuffer)
readchar b =
    if b.alen == 0
    then none
    else some (
      get_or b.buffer (b.rpos % b.alen) 0,
      record b { blen = sub_size b.blen 1; rpos = add_size b.rpos 1 },
    )

pub writechar : Ringbuffer → ℕ → Option Ringbuffer
writechar b c =
    if b.alen == 0
    then none
    else some (record b {
      blen = add_size b.blen 1;
      wpos = add_size b.wpos 1;
      buffer = set b.buffer (b.wpos % b.alen) c;
    })

pub modpos : Ringbuffer → Option Ringbuffer
modpos b =
    if b.alen == 0 then none else some (record b { rpos = b.rpos % b.alen; wpos = b.wpos % b.alen })

-- What the outer loop of `find` has come to; `running` means that the fuel ran out.
pub data Search : Type 0 where
  found : ℕ → Search
  absent : Search
  running : Search

-- The byte that `find` compares at the offset `i` from the read position.
pub byte_at : Ringbuffer → ℕ → ℕ
byte_at b i = get_or b.buffer (add_size b.rpos i % b.alen) 0

-- The inner loop: the bytes of `s` from the index `j` on, which the list holds.
pub match_rest : Ringbuffer → ℕ → List ℕ → ℕ → Bool
match_rest b i [] j = true
match_rest b i (c ∷ s) j =
    let rest = match_rest b i s (add_size j 1) in
    if byte_at b (add_size i j) == c then rest else false

-- The outer loop, with the limit `blen - l` in `size_t`. A string is followed by a zero byte, which
-- is the first one of the empty string. `found` is what the function returns, through an `int`.
pub find_loop : Ringbuffer → List ℕ → ℕ → ℕ → Search
find_loop b s zero i = running
find_loop b s (suc fuel) i =
    let next = find_loop b s fuel (add_size i 1) in
    if leb i (sub_size b.blen (length s))
    then (if byte_at b i == get_or s 0 0 && match_rest b i (drop 1 s) 1
        then found (through_int (add_size i (length s)))
        else next)
    else absent

pub find : Ringbuffer → List ℕ → ℕ → Search
find b s fuel = if b.rpos == b.wpos then absent else find_loop b s fuel 0

-- The values that the Lua caller gets; the outer option is the fuel, as in `find`.
pub find_reply : Search → Option (List Value)
find_reply (found m) = some (if ltb 0 m then integer (of_size m) ∷ [] else [])
find_reply absent = some []
find_reply running = none

pub rb_find : Ringbuffer → List ℕ → ℕ → Option (List Value)
rb_find b s fuel = find_reply (find b s fuel)

pub rb_discard : Ringbuffer → ℤ → Option (List Value × Ringbuffer)
rb_discard b n =
    let r = to_size n in
    if ltb b.blen r then some (boolean false ∷ [], b) else do
      b' ← modpos (record b { blen = sub_size b.blen r; rpos = add_size b.rpos r })
      some (boolean true ∷ [], b')

-- `lua_pushlstring(L, &buffer[start], n)`
abbrev pub slice : List ℕ → ℕ → ℕ → List ℕ
slice buf start n = take n (drop start buf)

-- The bytes that `rb_read` pushes: in two pieces where the range goes round.
pub read_bytes : Ringbuffer → ℕ → List ℕ
read_bytes b r =
    if ltb b.alen (add_size b.rpos r)
    then slice b.buffer b.rpos (sub_size b.alen b.rpos)
      ++ slice b.buffer 0 (sub_size r (sub_size b.alen b.rpos))
    else slice b.buffer b.rpos r

pub rb_read : Ringbuffer → ℤ → Bool → Option (List Value × Ringbuffer)
rb_read b n peek =
    let r = to_size n in
    if ltb b.blen r
    then some (nil ∷ [], b)
    else if peek
    then some (string (read_bytes b r) ∷ [], b)
    else do
      b' ← modpos (record b { blen = sub_size b.blen r; rpos = add_size b.rpos r })
      some (string (read_bytes b r) ∷ [], b')

-- `find` and then `rb_read` of what it returned, with the stack cut to the buffer: no peek.
readuntil_reply : Ringbuffer → Search → Option (List Value × Ringbuffer)
readuntil_reply b (found m) = if ltb 0 m then rb_read b (of_size m) false else some ([], b)
readuntil_reply b absent = some ([], b)
readuntil_reply b running = none

pub rb_readuntil : Ringbuffer → List ℕ → ℕ → Option (List Value × Ringbuffer)
unfolding readuntil_reply
rb_readuntil b s fuel = readuntil_reply b (find b s fuel)

-- The loop `while(l-- > 0)`, with the count `w` of the bytes written.
pub write_loop : Ringbuffer → List ℕ → ℕ → Option (ℕ × Ringbuffer)
write_loop b [] w = some (w, b)
write_loop b (c ∷ s) w = do b' ← writechar b c; write_loop b' s (add_size w 1)

pub rb_write : Ringbuffer → List ℕ → Option (List Value × Ringbuffer)
rb_write b s =
    if ltb b.alen (add_size (length s) b.blen)
    then some (nil ∷ [], b)
    else do (w, b') ← write_loop b s 0; b'' ← modpos b'; some (integer (of_size w) ∷ [], b'')

-- `lua_pushfstring`, which writes what its argument list holds as an `int`; the text of the address and
-- that of an `int` are arguments.
pub rb_tostring : (ℤ → List ℕ) → List ℕ → Ringbuffer → List Value
rb_tostring decimal pointer b =
    string (
      bytes "ringbuffer: "
      ++ pointer
      ++ bytes " "
      ++ decimal (of_size b.blen)
      ++ bytes "/"
      ++ decimal (of_size b.alen))
    ∷ []

pub rb_length : Ringbuffer → List Value
rb_length b = integer (of_size b.blen) ∷ []

pub rb_size : Ringbuffer → List Value
rb_size b = integer (of_size b.alen) ∷ []

pub rb_free : Ringbuffer → List Value
rb_free b = integer (of_size (sub_size b.alen b.blen)) ∷ []

-- The argument is the one given, or the page size. `fill` is what the allocation happens to hold.
pub rb_new : ℤ → ℕ → Ringbuffer
rb_new n fill =
    let size = to_size n in
    record { rpos = 0; wpos = 0; alen = size; blen = 0; buffer = replicate size fill }
