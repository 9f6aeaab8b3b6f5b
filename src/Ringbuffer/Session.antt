-- ===== src/Ringbuffer/Session.antt =====
-- Calls of ringbuffer.c in order, against a bounded queue of bytes that knows of no positions.
use prosody_trunk.Base.{ℕ, ◌+◌, ◌-◌, ◌%◌, ◌^◌, ◌≤◌, ◌<◌, ◌≡◌, refl, ap, ap₂, ◌∙◌, arith}
use prosody_trunk.Base.{
  List, [], ◌∷◌, ◌++◌, All, length, take, drop, true, false, Bool, some, Option,
}
use prosody_trunk.Base.{Bool-cases, inl, inr, ltb, if◌then◌else◌, ◌>>=◌}
use prosody_trunk.Base.Int.{pos}
use prosody_trunk.Lua.{Value, nil, boolean, integer, string}
use prosody_trunk.Ringbuffer.{
  Ringbuffer, rb_write, rb_read, rb_discard, rb_length, rb_size, rb_free,
}
use prosody_trunk.Ringbuffer.Contents.{IsValid, contents, length-contents}
use prosody_trunk.Ringbuffer.Write.{rb_write_fits, rb_write_refused}
use prosody_trunk.Ringbuffer.Read.{rb_read_lem, rb_discard_lem, read_refused}

pub data Op : Type 0 where
  write : List ℕ → Op
  read : ℕ → Bool → Op
  discard : ℕ → Op
  length_op size_op free_op : Op

pub step : Ringbuffer → Op → Option (List Value × Ringbuffer)
step b (write s) = rb_write b s
step b (read n peek) = rb_read b (pos n) peek
step b (discard n) = rb_discard b (pos n)
step b length_op = some (rb_length b, b)
step b size_op = some (rb_size b, b)
step b free_op = some (rb_free b, b)

pub run : Ringbuffer → List Op → Option (List (List Value) × Ringbuffer)
run b [] = some ([], b)
run b (op ∷ ops) = do (out, b') ← step b op; (outs, b'') ← run b' ops; some (out ∷ outs, b'')

-- The queue of at most `cap` bytes.
module _ (cap : ℕ) where
  pub queue_step : List ℕ → Op → List Value × List ℕ
  queue_step q (write s) =
      if ltb cap (length q + length s)
      then (nil ∷ [], q)
      else (integer (pos (length s)) ∷ [], q ++ s)
  queue_step q (read n peek) =
      if ltb (length q) n
      then (nil ∷ [], q)
      else (string (take n q) ∷ [], if peek then q else drop n q)
  queue_step q (discard n) =
      if ltb (length q) n then (boolean false ∷ [], q) else (boolean true ∷ [], drop n q)
  queue_step q length_op = (integer (pos (length q)) ∷ [], q)
  queue_step q size_op = (integer (pos cap) ∷ [], q)
  queue_step q free_op = (integer (pos (cap - length q)) ∷ [], q)

  pub queue_run : List ℕ → List Op → List (List Value) × List ℕ
  queue_run q [] = ([], q)
  queue_run q (op ∷ ops) =
      let (out, q') = queue_step q op in let (outs, q'') = queue_run q' ops in (out ∷ outs, q'')

-- Strings and counts of a size that a Lua value of 64 bits can have.
abbrev pub OpFits : Op → Type 0
OpFits (write s) = length s ≤ 2 ^ 62
OpFits (read n peek) = n < 2 ^ 63
OpFits (discard n) = n < 2 ^ 63
OpFits _ = Unit {0}

-- What one call must do for the queue `q` after it and the values `out`.
abbrev Implements : Ringbuffer → Op → List Value × List ℕ → Type 0
Implements b op r =
    (b' : Ringbuffer) × (step b op ≡ some (r.0, b'))
    × IsValid b'
    × (contents b' ≡ r.1)
    × (b'.alen ≡ b.alen)

step_refines :
    (b : Ringbuffer) (op : Op)
    → IsValid b
    → OpFits op
    → Implements b op (queue_step b.alen (contents b) op)
unfolding step queue_step
step_refines b (write s) v f = elim (Bool-cases (ltb b.alen (b.blen + length s))) [
  | inl big ↦
      rw (length-contents b, big) (b, rb_write_refused b s v f (ground arith), v, refl, refl)
  | inr fits ↦ rw (length-contents b, fits) (rb_write_fits b s v (ground arith))
]
step_refines b (read n peek) v f = elim (Bool-cases (ltb b.blen n)) [
  | inl big ↦
      let e : n % 2 ^ 64 ≡ n = omega arith in
      rw (length-contents b, big)
        (b, (read_refused b (pos n) peek (rw e (ground arith))).0, v, refl, refl)
  | inr fits ↦ rw (length-contents b, fits) (rb_read_lem b n peek v (ground arith))
]
step_refines b (discard n) v f = elim (Bool-cases (ltb b.blen n)) [
  | inl big ↦
      let e : n % 2 ^ 64 ≡ n = omega arith in
      rw (length-contents b, big)
        (b, (read_refused b (pos n) false (rw e (ground arith))).1, v, refl, refl)
  | inr fits ↦ rw (length-contents b, fits) (rb_discard_lem b n v (ground arith))
]
step_refines b length_op v f =
    rw (length-contents b) (b, (unfold rb_length in ground (arith, v.is_open)), v, refl, refl)
step_refines b size_op v f = (b, (unfold rb_size in ground (arith, v.is_open)), v, refl, refl)
step_refines b free_op v f =
    rw (length-contents b) (b, (unfold rb_free in ground (arith, v.is_open)), v, refl, refl)

-- No sequence of calls of write, read, discard, length, size and free, with strings of at most 2 ^ 62
-- bytes and counts below 2 ^ 63, tells a valid buffer from the bounded queue of its contents: each
-- call returns the values that the queue returns, no call faults, and the buffer ends valid, holding
-- what the queue holds.
pub run_refines :
    (ops : List Op) (b : Ringbuffer)
    → IsValid b
    → All OpFits ops
    → (b' : Ringbuffer) × (run b ops ≡ some ((queue_run b.alen (contents b) ops).0, b'))
      × IsValid b'
      × (contents b' ≡ (queue_run b.alen (contents b) ops).1)
unfolding run queue_run
run_refines [] b v f = (b, refl, v, refl)
run_refines (op ∷ ops) b v (f, fs) =
    let (c, e, w, d, a) = step_refines b op v f in
    let (b', r, u, k) = run_refines ops c w fs in
    let same = ap₂ (λ n q. queue_run n q ops) a d in
    let out = (queue_step b.alen (contents b) op).0 in
    (b', rw (e, r) (ap (λ t. some (out ∷ t.0, b')) same), u, k ∙ ap (λ t. t.1) same)
