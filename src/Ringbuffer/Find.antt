-- ===== src/Ringbuffer/Find.antt =====
-- `find`, `rb_find` and `rb_readuntil` of ringbuffer.c: the search for a substring of the contents.
use prosody_trunk.Base.{ℕ, zero, suc, ◌+◌, ◌-◌, ◌%◌, ◌^◌, ◌≤◌, ◌<◌, ◌≡◌, ◌≢◌, refl, ap, ◌∙◌, sym}
use prosody_trunk.Base.{
  List, [], ◌∷◌, ◌++◌, All, length, get_or, take, drop, true, false, some, none,
}
use prosody_trunk.Base.{Option, Option-cases, inl, inr, leb, ◌==◌, arith}
use prosody_trunk.Base.Int.{pos, add_size, sub_size}
use prosody_trunk.Lua.{Value, integer, string}
use prosody_trunk.Ringbuffer.{
  Ringbuffer, found, running, byte_at, find_loop, find, find_reply, rb_find, rb_read, rb_readuntil,
  readuntil_reply,
}
use prosody_trunk.Ringbuffer.Contents.{IsOpen, IsValid, contents, add-mod-ne, length-contents}
use prosody_trunk.Ringbuffer.Scan.{index_of, outcome, find_loop_lem, index_of-some}
use prosody_trunk.Ringbuffer.Read.{rb_read_lem}
use native.Mathlib.Nat.{mod-eq_of_lt, mod-lt, add-mod_right}

-- What the Lua caller of `find` gets for a place in the contents: one past the end of the string.
unfoldable pub place : ℕ → Option ℕ → List Value
place l none = []
place l (some k) = integer (pos (k + l)) ∷ []

rpos-ne-wpos :
    (b : Ringbuffer) → IsValid b → 0 < b.blen → b.blen < b.alen → (b.rpos == b.wpos) ≡ false
rpos-ne-wpos b v p h = ground (arith, not_empty)
  where
    not_empty : b.rpos ≢ b.wpos
    not_empty = λ e.
        add-mod-ne b.alen b.rpos b.blen p h (sym v.is_open.wpos_at ∙ ap (λ t. t % b.alen) (sym e))

find_lem :
    (b : Ringbuffer) (c : ℕ) (s : List ℕ) (fuel : ℕ)
    → IsValid b
    → b.blen < b.alen
    → b.blen < 2 ^ 31
    → length (c ∷ s) ≤ b.blen
    → b.blen + 1 < fuel
    → find b (c ∷ s) fuel ≡ outcome (length (c ∷ s)) (index_of (c ∷ s) (contents b))
unfolding find
find_lem b c s fuel v h z l f =
    let ne = rpos-ne-wpos b v (omega arith) h in
    let e : b.rpos + 0 ≡ b.rpos = omega arith in
    let k : 0 + suc (length s) ≡ suc (length s) = omega arith in
    rw ne (rw (e, k) at (find_loop_lem b c s fuel 0 b.blen v.is_open z l (omega arith) f))

-- On a valid buffer that is not full and holds less than 2 ^ 31 bytes, `rb_find` of a string that is not empty and no longer than the contents ends within
-- `blen + 2` rounds, and returns the number of bytes up to the end of the first occurrence of the
-- string, or nothing if there is none.
pub rb_find_lem :
    (b : Ringbuffer) (c : ℕ) (s : List ℕ) (fuel : ℕ)
    → IsValid b
    → b.blen < b.alen
    → b.blen < 2 ^ 31
    → length (c ∷ s) ≤ b.blen
    → b.blen + 1 < fuel
    → rb_find b (c ∷ s) fuel ≡ some (place (length (c ∷ s)) (index_of (c ∷ s) (contents b)))
unfolding rb_find find_reply outcome place
rb_find_lem b c s fuel v h z l f =
    rw (find_lem b c s fuel v h z l f) (elim (Option-cases (index_of (c ∷ s) (contents b))) [
      | inl e ↦ rw e
      | inr (k, e) ↦
          let (fits, at_k) = index_of-some (c ∷ s) (contents b) k e in
          rw e (ground (arith, fits, length-contents b, v.is_open.blen_in))
    ])

readuntil_found :
    (b : Ringbuffer) (m : ℕ)
    → 0 < m
    → m < 2 ^ 63
    → readuntil_reply b (found m) ≡ rb_read b (pos m) false
unfolding readuntil_reply
readuntil_found b m h l = ground arith

-- On a valid buffer that is not full and holds less than 2 ^ 31 bytes, `rb_readuntil` of a string that
-- is not empty, is no longer than the contents and occurs in them takes them up to the end of its first occurrence:
-- what it returns ends in the string, and the rest stays. `blen + 2` rounds are enough.
pub rb_readuntil_lem :
    (b : Ringbuffer) (c : ℕ) (s : List ℕ) (fuel k : ℕ)
    → IsValid b
    → b.blen < b.alen
    → b.blen < 2 ^ 31
    → length (c ∷ s) ≤ b.blen
    → b.blen + 1 < fuel
    → index_of (c ∷ s) (contents b) ≡ some k
    → (b' : Ringbuffer) × (rb_readuntil b (c ∷ s) fuel
        ≡ some (string (take k (contents b) ++ (c ∷ s)) ∷ [], b'))
      × IsValid b'
      × (contents b' ≡ drop (k + length (c ∷ s)) (contents b))
      × (b'.alen ≡ b.alen)
unfolding rb_readuntil outcome
rb_readuntil_lem b c s fuel k v h z l f e =
    let (fits, at_k) = index_of-some (c ∷ s) (contents b) k e in
    let m : k + suc (length s) ≤ b.blen = omega (arith, fits, length-contents b) in
    let (b', r, w, d, a) = rb_read_lem b (k + suc (length s)) false v m in
    (
      b',
      rw (find_lem b c s fuel v h z l f, e)
          (readuntil_found b (k + suc (length s)) (omega arith)
              (omega (arith, m, v.is_open.blen_in, v.is_open.small))
            ∙ r
            ∙ ap (λ t. some (string t ∷ [], b')) at_k),
      w,
      d,
      a,
    )

-- On a valid buffer that is not full and holds less than 2 ^ 31 bytes, `rb_readuntil` of a string that
-- is not empty, is no longer than the contents and does not occur in them returns nothing and leaves the buffer
-- alone. `blen + 2` rounds are enough.
pub rb_readuntil_absent :
    (b : Ringbuffer) (c : ℕ) (s : List ℕ) (fuel : ℕ)
    → IsValid b
    → b.blen < b.alen
    → b.blen < 2 ^ 31
    → length (c ∷ s) ≤ b.blen
    → b.blen + 1 < fuel
    → index_of (c ∷ s) (contents b) ≡ none
    → rb_readuntil b (c ∷ s) fuel ≡ some ([], b)
unfolding rb_readuntil outcome
rb_readuntil_absent b c s fuel v h z l f e = rw (find_lem b c s fuel v h z l f, e)

-- In a valid buffer that is full the two positions are equal, and the search takes the buffer for an empty one:
-- `rb_find` and `rb_readuntil` find nothing, whatever the buffer holds.
pub find_full :
    (b : Ringbuffer) (s : List ℕ) (fuel : ℕ)
    → IsValid b
    → b.blen ≡ b.alen
    → (rb_find b s fuel ≡ some []) × (rb_readuntil b s fuel ≡ some ([], b))
unfolding rb_find rb_readuntil find find_reply
find_full b s fuel v h =
    let e : (b.rpos == b.wpos) ≡ true = ground (arith, same) in rw e (refl, refl)
  where
    same : b.rpos ≡ b.wpos
    same =
        sym (mod-eq_of_lt v.is_open.rpos_in)
        ∙ sym (add-mod_right b.rpos b.alen)
        ∙ ap (λ t. (b.rpos + t) % b.alen) (sym h)
        ∙ sym v.is_open.wpos_at
        ∙ mod-eq_of_lt v.wpos_in

get_or-All : (P : ℕ → Type 0) (xs : List ℕ) (i : ℕ) → All P xs → i < length xs → P (get_or xs i 0)
get_or-All P [] i h l = absurd (omega arith)
get_or-All P (x ∷ xs) zero h l = h.0
get_or-All P (x ∷ xs) (suc i) h l = get_or-All P xs i h.1 (omega arith)

find_loop_endless :
    (b : Ringbuffer) (c : ℕ) (s : List ℕ) (fuel i : ℕ)
    → IsOpen b
    → length (c ∷ s) ≡ b.blen + 1
    → All (λ x. x ≢ c) b.buffer
    → i < 2 ^ 64
    → find_loop b (c ∷ s) fuel i ≡ running
unfolding find_loop
find_loop_endless b c s zero i v l a h = refl
find_loop_endless b c s (suc fuel) i v l a h =
    rw (go_on, differs) (find_loop_endless b c s fuel (add_size i 1) v l a (omega arith))
  where
    go_on : leb i (sub_size b.blen (length (c ∷ s))) ≡ true
    go_on =
        let e : sub_size b.blen (suc (length s)) ≡ 2 ^ 64 - 1 = omega (arith, v) in
        rw e (ground arith)

    differs : (byte_at b i == c) ≡ false
    differs =
        let ne =
          get_or-All (λ x. x ≢ c) b.buffer (add_size b.rpos i % b.alen) a
            (omega (arith, v.storage, mod-lt (add_size b.rpos i) v.nonzero)) in
        unfold byte_at in ground (arith, ne)

-- In a valid buffer that is neither empty nor full, a string that is one byte longer than the contents makes the limit of the outer loop the greatest
-- `size_t`: if its first byte is nowhere in the allocation, `rb_find` ends on no number of rounds.
pub rb_find_endless :
    (b : Ringbuffer) (c : ℕ) (s : List ℕ)
    → IsValid b
    → 0 < b.blen
    → b.blen < b.alen
    → length (c ∷ s) ≡ b.blen + 1
    → All (λ x. x ≢ c) b.buffer
    → (fuel : ℕ) → rb_find b (c ∷ s) fuel ≡ none
unfolding rb_find find find_reply
rb_find_endless b c s v p h l a fuel =
    rw (rpos-ne-wpos b v p h, find_loop_endless b c s fuel 0 v.is_open l a (omega arith))
