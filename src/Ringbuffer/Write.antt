-- ===== src/Ringbuffer/Write.antt =====
-- `rb_new` and `rb_write` of ringbuffer.c: a string is taken whole, at the end, or not at all.
use prosody_trunk.Base.{ℕ, ◌+◌, ◌%◌, ◌^◌, ◌≤◌, ◌<◌, ◌≡◌, refl, ap, ap₂, ◌∙◌, sym, arith}
use prosody_trunk.Base.{List, [], ◌∷◌, ◌++◌, length, get_or, set, append-nil, append_assoc}
use prosody_trunk.Base.{some, length-set, get_or-set_self, length-replicate, length-append}
use prosody_trunk.Base.Int.{pos, add_size}
use prosody_trunk.Lua.{nil, integer}
use prosody_trunk.Ringbuffer.{Ringbuffer, writechar, modpos, write_loop, rb_write, rb_new}
use prosody_trunk.Ringbuffer.Contents.{
  IsOpen, IsValid, contents, ring_bytes-set, ring_bytes-add, mod-add-congr, ring_bytes-congr,
}
use native.Mathlib.Nat.{mod-add-mod, mod-mod, mod-lt, mod-eq_of_lt}

-- `b'` is `b` with the bytes `s` at the end, and nothing else done.
pub record Appended (b : Ringbuffer) (s : List ℕ) (b' : Ringbuffer) : Type 0 where
  pub is_open : IsOpen b'
  pub alen_kept : b'.alen ≡ b.alen
  pub rpos_kept : b'.rpos ≡ b.rpos
  pub blen_grown : b'.blen ≡ b.blen + length s
  pub wpos_grown : b'.wpos ≡ b.wpos + length s
  pub content : contents b' ≡ contents b ++ s

abbrev written : Ringbuffer → ℕ → Ringbuffer
written b c = record b {
  blen = b.blen + 1;
  wpos = b.wpos + 1;
  buffer = set b.buffer (b.wpos % b.alen) c;
}

writechar_lem :
    {b : Ringbuffer} (c : ℕ)
    → IsOpen b
    → b.blen < b.alen
    → b.wpos + 1 < 2 ^ 64
    → writechar b c ≡ some (written b c)
unfolding writechar
writechar_lem {b} c v h w = ground arith

written-Appended :
    {b : Ringbuffer} (c : ℕ) → IsOpen b → b.blen < b.alen → Appended b (c ∷ []) (written b c)
written-Appended {b} c v h = record {
  is_open = record {
    nonzero = v.nonzero;
    small = v.small;
    storage = length-set b.buffer (b.wpos % b.alen) c ∙ v.storage;
    rpos_in = v.rpos_in;
    blen_in = omega arith;
    wpos_at =
        mod-add-congr b.alen b.wpos (b.rpos + b.blen) 1 v.wpos_at
        ∙ ap (λ t. t % b.alen) (omega arith);
  };
  alen_kept = refl;
  rpos_kept = refl;
  blen_grown = omega arith;
  wpos_grown = omega arith;
  content =
      ring_bytes-add _ b.alen b.rpos b.blen 1
      ∙ ap₂ ◌++◌ (ring_bytes-set b.buffer b.alen b.rpos b.blen _ c h v.wpos_at)
          (ap (λ t. t ∷ []) last);
}
  where
    last : get_or (set b.buffer (b.wpos % b.alen) c) ((b.rpos + b.blen) % b.alen) 0 ≡ c
    last = rw (← v.wpos_at) (
        get_or-set_self b.buffer (b.wpos % b.alen) c 0
          (omega (arith, v.storage, mod-lt b.wpos v.nonzero)))

Appended-trans :
    {b c d : Ringbuffer} (s t : List ℕ) → Appended b s c → Appended c t d → Appended b (s ++ t) d
Appended-trans s t h k = record {
  is_open = k.is_open;
  alen_kept = k.alen_kept ∙ h.alen_kept;
  rpos_kept = k.rpos_kept ∙ h.rpos_kept;
  blen_grown = omega (arith, length-append s t, h.blen_grown, k.blen_grown);
  wpos_grown = omega (arith, length-append s t, h.wpos_grown, k.wpos_grown);
  content = k.content ∙ ap (λ x. x ++ t) h.content ∙ append_assoc _ s t;
}

-- The loop of `rb_write`, on a string that fits.
write_loop_lem :
    (b : Ringbuffer) (s : List ℕ) (w : ℕ)
    → IsOpen b
    → b.blen + length s ≤ b.alen
    → b.wpos + length s < 2 ^ 64
    → w + length s < 2 ^ 64
    → (b' : Ringbuffer) × (write_loop b s w ≡ some (w + length s, b')) × Appended b s b'
unfolding write_loop
write_loop_lem b [] w v h p q = (b, ap (λ t. some (t, b)) (omega arith), same)
  where
    same : Appended b [] b
    same = record {
      is_open = v;
      alen_kept = refl;
      rpos_kept = refl;
      blen_grown = omega arith;
      wpos_grown = omega arith;
      content = sym (append-nil _);
    }
write_loop_lem b (c ∷ s) w v h p q =
    let k = written-Appended c v (omega arith) in
    let (b', e, r) =
      write_loop_lem (written b c) s (w + 1) k.is_open (omega arith) (omega arith) (omega arith) in
    (b', step ∙ e ∙ ap (λ t. some (t, b')) (omega arith), Appended-trans (c ∷ []) s k r)
  where
    step : write_loop b (c ∷ s) w ≡ write_loop (written b c) s (w + 1)
    step =
        let m : add_size w 1 ≡ w + 1 = omega arith in
        rw (writechar_lem c v (omega arith) (omega arith), m)

-- Taking a reduced position for `wpos` closes what `write_loop` leaves open.
closed : Ringbuffer → Ringbuffer
closed b = record b { rpos = b.rpos % b.alen; wpos = b.wpos % b.alen }

closed-IsValid :
    {b : Ringbuffer} → IsOpen b → IsValid (closed b) × (contents (closed b) ≡ contents b)
unfolding closed
closed-IsValid {b} v = (
  record {
    is_open = record {
      nonzero = v.nonzero;
      small = v.small;
      storage = v.storage;
      rpos_in = mod-lt b.rpos v.nonzero;
      blen_in = v.blen_in;
      wpos_at = mod-mod b.wpos b.alen ∙ v.wpos_at ∙ sym (mod-add-mod b.rpos b.alen b.blen);
    };
    wpos_in = mod-lt b.wpos v.nonzero;
  },
  ring_bytes-congr b.buffer b.alen _ _ b.blen (mod-mod b.rpos b.alen),
)

modpos-closed : {b : Ringbuffer} → IsOpen b → modpos b ≡ some (closed b)
unfolding modpos closed
modpos-closed {b} v = ground (arith, v.nonzero)

rb_write_eq :
    {b c : Ringbuffer} (s : List ℕ)
    → IsOpen b
    → IsOpen c
    → b.blen + length s ≤ b.alen
    → write_loop b s 0 ≡ some (0 + length s, c)
    → rb_write b s ≡ some (integer (pos (length s)) ∷ [], closed c)
unfolding rb_write
rb_write_eq {b} {c} s v w h e =
    let n : 0 + length s ≡ length s = omega arith in
    rw (e, modpos-closed w, n) (ground (arith, v.small))

-- On a valid buffer and a string that fits, `rb_write` puts the string at the end of the contents, keeps the
-- allocation, returns the length of the string and leaves a valid buffer.
pub rb_write_fits :
    (b : Ringbuffer) (s : List ℕ)
    → IsValid b
    → b.blen + length s ≤ b.alen
    → (b' : Ringbuffer) × (rb_write b s ≡ some (integer (pos (length s)) ∷ [], b'))
      × IsValid b'
      × (contents b' ≡ contents b ++ s)
      × (b'.alen ≡ b.alen)
unfolding closed
rb_write_fits b s v h =
    let (c, e, r) =
      write_loop_lem b s 0 v.is_open h (omega (arith, v.wpos_in, v.is_open.small))
        (omega (arith, v.is_open.small)) in
    let k = closed-IsValid r.is_open in
    (closed c, rb_write_eq s v.is_open r.is_open h e, k.0, k.1 ∙ r.content, r.alen_kept)

-- A string that does not fit is refused: `rb_write` returns nil and the buffer is as it was.
pub rb_write_refused :
    (b : Ringbuffer) (s : List ℕ)
    → IsValid b
    → length s ≤ 2 ^ 62
    → b.alen < b.blen + length s
    → rb_write b s ≡ some (nil ∷ [], b)
unfolding rb_write
rb_write_refused b s v l h = ground (arith, v.is_open.small, v.is_open.blen_in)

-- A new buffer of a positive size up to 2 ^ 62 is valid and empty, whatever the allocation holds.
pub rb_new-IsValid :
    (n fill : ℕ)
    → 0 < n
    → n ≤ 2 ^ 62
    → IsValid (rb_new (pos n) fill)
      × (contents (rb_new (pos n) fill) ≡ [])
      × ((rb_new (pos n) fill).alen ≡ n)
unfolding rb_new
rb_new-IsValid n fill h l =
    let e : n % 2 ^ 64 ≡ n = mod-eq_of_lt (omega arith) in
    (
      record {
        is_open = record {
          nonzero = omega arith;
          small = omega arith;
          storage = length-replicate (n % 2 ^ 64) fill;
          rpos_in = omega arith;
          blen_in = omega arith;
          wpos_at = refl;
        };
        wpos_in = omega arith;
      },
      refl,
      e,
    )
