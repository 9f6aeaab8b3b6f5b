-- ===== src/Ringbuffer/Read.antt =====
-- `rb_read` and `rb_discard` of ringbuffer.c: a prefix of the contents is handed out, or dropped.
use prosody_trunk.Base.{ℕ, ◌+◌, ◌-◌, ◌%◌, ◌^◌, ◌≤◌, ◌<◌, ◌≡◌, refl, ap, ap₂, ◌∙◌, sym, arith}
use prosody_trunk.Base.{List, [], ◌∷◌, ◌++◌, length, take, drop, true, false, Bool, some}
use prosody_trunk.Base.{Bool-cases, inl, inr, ltb, if◌then◌else◌, lt→ltb}
use prosody_trunk.Base.Int.{ℤ, pos, add_size, sub_size, to_size}
use prosody_trunk.Lua.{nil, boolean, string}
use prosody_trunk.Ringbuffer.{Ringbuffer, modpos, slice, read_bytes, rb_read, rb_discard}
use prosody_trunk.Ringbuffer.Contents.{
  IsValid, contents, ring_bytes, ring_bytes-add, ring_bytes-congr, ring_bytes-slice,
  take-ring_bytes, drop-ring_bytes,
}
use native.Mathlib.Nat.{mod-add-mod, mod-eq_of_lt, mod-mod, mod-lt, add-mod_right}

-- The buffer after `r` bytes have been taken off its front.
pub advanced : Ringbuffer → ℕ → Ringbuffer
advanced b r = record b { blen = b.blen - r; rpos = (b.rpos + r) % b.alen }

pub alen-advanced : (b : Ringbuffer) (r : ℕ) → (advanced b r).alen ≡ b.alen
unfolding advanced
alen-advanced b r = refl

pub advanced-IsValid :
    {b : Ringbuffer} (r : ℕ)
    → IsValid b
    → r ≤ b.blen
    → IsValid (advanced b r) × (contents (advanced b r) ≡ drop r (contents b))
unfolding advanced
advanced-IsValid {b} r v h = (
  record {
    is_open = record {
      nonzero = v.is_open.nonzero;
      small = v.is_open.small;
      storage = v.is_open.storage;
      rpos_in = mod-lt (b.rpos + r) v.is_open.nonzero;
      blen_in = omega (arith, v.is_open.blen_in);
      wpos_at =
          v.is_open.wpos_at
          ∙ ap (λ t. t % b.alen) (omega arith)
          ∙ sym (mod-add-mod (b.rpos + r) b.alen (b.blen - r));
    };
    wpos_in = v.wpos_in;
  },
  ring_bytes-congr b.buffer b.alen _ _ (b.blen - r) (mod-mod (b.rpos + r) b.alen)
      ∙ sym (drop-ring_bytes b.buffer b.alen b.rpos b.blen r h),
)

modpos-advanced :
    {b : Ringbuffer} (r : ℕ)
    → IsValid b
    → r ≤ b.blen
    → modpos (record b { blen = sub_size b.blen r; rpos = add_size b.rpos r }) ≡ some (advanced b r)
unfolding modpos advanced
modpos-advanced {b} r v h =
    let s : sub_size b.blen r ≡ b.blen - r = omega (arith, v.is_open.blen_in, v.is_open.small) in
    let a : add_size b.rpos r ≡ b.rpos + r = omega (arith, v.is_open) in
    rw (s, a) (ground (arith, v.is_open.nonzero, mod-eq_of_lt v.wpos_in))

-- A range that goes round is two slices, the second from the start of the allocation.
ring_bytes-wrapped :
    (buf : List ℕ) (a p r : ℕ)
    → length buf ≡ a
    → p < a
    → a < p + r
    → r ≤ a
    → ring_bytes buf a p r ≡ slice buf p (a - p) ++ slice buf 0 (r - (a - p))
ring_bytes-wrapped buf a p r e hp hr hl =
    ap (ring_bytes buf a p) split
    ∙ ring_bytes-add buf a p (a - p) (r - (a - p))
    ∙ ap₂ ◌++◌ (ring_bytes-slice buf a p (a - p) e (omega arith)) (
        ring_bytes-congr buf a (p + (a - p)) 0 (r - (a - p)) round
        ∙ ring_bytes-slice buf a 0 (r - (a - p)) e (omega arith))
  where
    split : r ≡ a - p + (r - (a - p))
    split = omega arith

    round : (p + (a - p)) % a ≡ 0 % a
    round = let k : p + (a - p) ≡ 0 + a = omega arith in rw k (add-mod_right 0 a)

-- The bytes that `rb_read` pushes, in one piece or two, are the first ones of the contents.
pub read_bytes-take :
    {b : Ringbuffer} (r : ℕ) → IsValid b → r ≤ b.blen → read_bytes b r ≡ take r (contents b)
unfolding read_bytes
read_bytes-take {b} r v h =
    let a : add_size b.rpos r ≡ b.rpos + r = omega (arith, v.is_open) in
    let t = take-ring_bytes b.buffer b.alen b.rpos b.blen r h in
    elim (Bool-cases (ltb b.alen (b.rpos + r))) [
      | inl wraps ↦
          rw (a, wraps, t)
            (let k : sub_size b.alen b.rpos ≡ b.alen - b.rpos = omega (arith, v.is_open) in
              let m : sub_size r (b.alen - b.rpos) ≡ r - (b.alen - b.rpos) =
                ground (arith, v.is_open) in
              rw (k, m)
                (sym (
                  ring_bytes-wrapped b.buffer b.alen b.rpos r v.is_open.storage v.is_open.rpos_in
                    (ground arith) (omega (arith, v.is_open.blen_in)))))
      | inr fits ↦
          rw (a, fits, t)
            (sym (ring_bytes-slice b.buffer b.alen b.rpos r v.is_open.storage (ground arith)))
    ]

-- `rb_read` of no more than a valid buffer holds returns the first bytes of the contents. With `peek`
-- the buffer is as it was, and without it those bytes, and nothing else, are gone.
pub rb_read_lem :
    (b : Ringbuffer) (n : ℕ) (peek : Bool)
    → IsValid b
    → n ≤ b.blen
    → (b' : Ringbuffer) × (rb_read b (pos n) peek ≡ some (string (take n (contents b)) ∷ [], b'))
      × IsValid b'
      × (contents b' ≡ (if peek then contents b else drop n (contents b)))
      × (b'.alen ≡ b.alen)
unfolding rb_read
rb_read_lem b n true v h =
    let e : n % 2 ^ 64 ≡ n = mod-eq_of_lt (omega (arith, v.is_open)) in
    (b, rw (e, read_bytes-take n v h) (ground arith), v, refl, refl)
rb_read_lem b n false v h =
    let e : n % 2 ^ 64 ≡ n = mod-eq_of_lt (omega (arith, v.is_open)) in
    let k = advanced-IsValid n v h in
    (
      advanced b n,
      rw (e, read_bytes-take n v h, modpos-advanced n v h) (ground arith),
      k.0,
      k.1,
      alen-advanced b n,
    )

-- `rb_discard` of no more than the buffer holds drops that many bytes and returns true.
pub rb_discard_lem :
    (b : Ringbuffer) (n : ℕ)
    → IsValid b
    → n ≤ b.blen
    → (b' : Ringbuffer) × (rb_discard b (pos n) ≡ some (boolean true ∷ [], b'))
      × IsValid b'
      × (contents b' ≡ drop n (contents b))
      × (b'.alen ≡ b.alen)
unfolding rb_discard
rb_discard_lem b n v h =
    let e : n % 2 ^ 64 ≡ n = mod-eq_of_lt (omega (arith, v.is_open)) in
    let k = advanced-IsValid n v h in
    (advanced b n, rw (e, modpos-advanced n v h) (ground arith), k.0, k.1, alen-advanced b n)

-- A count beyond the contents, or a negative one, which is huge as a `size_t`, is refused by both.
pub read_refused :
    (b : Ringbuffer) (n : ℤ) (peek : Bool)
    → b.blen < to_size n
    → (rb_read b n peek ≡ some (nil ∷ [], b)) × (rb_discard b n ≡ some (boolean false ∷ [], b))
unfolding rb_read rb_discard
read_refused b n peek h = rw (lt→ltb _ _ h) (refl, refl)
