-- ===== src/Ringbuffer/Examples.antt =====
-- Runs of the functions of ringbuffer.c, and the theorems at concrete buffers.
use prosody_trunk.Base.{◌≡◌, refl, List, [], ◌∷◌, arith}
use prosody_trunk.Base.{false, some, none}
use prosody_trunk.Base.Int.{pos, negsuc}
use prosody_trunk.Lua.{boolean, integer, string}
use prosody_trunk.Ringbuffer.{
  Ringbuffer, modpos, byte_at, match_rest, find_loop, find, find_reply, rb_find, rb_discard,
  rb_readuntil, write_loop, rb_write, rb_new,
}
use prosody_trunk.Ringbuffer.Contents.{IsValid, contents}
use prosody_trunk.Ringbuffer.Scan.{is_prefix, index_of}
use prosody_trunk.Ringbuffer.Find.{place, rb_find_lem, rb_readuntil_lem, find_full, rb_find_endless}
use prosody_trunk.Ringbuffer.Session.{
  Op, write, read, discard, free_op, run, queue_run, run_refines,
}

-- Four bytes, of which "cab" is in use, round the end.
abbrev wrapped : Ringbuffer
wrapped = record { rpos = 2; wpos = 1; alen = 4; blen = 3; buffer = b'b' ∷ 0 ∷ b'c' ∷ b'a' ∷ [] }

abbrev full : Ringbuffer
full = record { rpos = 1; wpos = 1; alen = 2; blen = 2; buffer = b'b' ∷ b'a' ∷ [] }

wrapped-IsValid : IsValid wrapped
wrapped-IsValid = omega arith

full-IsValid : IsValid full
full-IsValid = omega arith

contents-wrapped : contents wrapped ≡ b'c' ∷ b'a' ∷ b'b' ∷ []
contents-wrapped = refl

-- A buffer of size zero divides by zero on its first write, of the empty string too.
write_zero_size : rb_write (rb_new (pos 0) 7) [] ≡ none
unfolding rb_write rb_new write_loop modpos
write_zero_size = refl

discard_negative : rb_discard wrapped (negsuc 0) ≡ some (boolean false ∷ [], wrapped)
unfolding rb_discard
discard_negative = refl

find_runs : rb_find wrapped (b'a' ∷ b'b' ∷ []) 5 ≡ some (integer (pos 3) ∷ [])
unfolding rb_find find_reply find find_loop byte_at match_rest
find_runs = refl

rb_find_lem_example : rb_find wrapped (b'b' ∷ []) 5 ≡ some (integer (pos 3) ∷ [])
unfolding place index_of is_prefix
rb_find_lem_example =
    rb_find_lem wrapped b'b' [] 5 wrapped-IsValid (omega arith) (omega arith) (omega arith)
      (omega arith)

rb_readuntil_lem_example :
    (b' : Ringbuffer) × (rb_readuntil wrapped (b'a' ∷ []) 5
      ≡ some (string (b'c' ∷ b'a' ∷ []) ∷ [], b'))
    × IsValid b'
    × (contents b' ≡ b'b' ∷ [])
    × (b'.alen ≡ 4)
unfolding index_of is_prefix
rb_readuntil_lem_example =
    rb_readuntil_lem wrapped b'a' [] 5 1 wrapped-IsValid (omega arith) (omega arith) (omega arith)
      (omega arith) refl

find_full_example :
    (rb_find full (b'a' ∷ []) 9 ≡ some []) × (rb_readuntil full (b'a' ∷ []) 9 ≡ some ([], full))
find_full_example = find_full full (b'a' ∷ []) 9 full-IsValid refl

rb_find_endless_example : rb_find wrapped (9 ∷ 1 ∷ 1 ∷ 1 ∷ []) 100 ≡ none
rb_find_endless_example =
    rb_find_endless wrapped 9 (1 ∷ 1 ∷ 1 ∷ []) wrapped-IsValid (omega arith) (omega arith) refl
      (omega arith) 100

abbrev calls : List Op
calls = read 2 false ∷ write (7 ∷ 8 ∷ []) ∷ write (9 ∷ 9 ∷ []) ∷ discard 2 ∷ free_op ∷ []

run_refines_example :
    (b' : Ringbuffer) × (run wrapped calls
      ≡ some ((queue_run 4 (b'c' ∷ b'a' ∷ b'b' ∷ []) calls).0, b'))
    × IsValid b'
    × (contents b' ≡ (queue_run 4 (b'c' ∷ b'a' ∷ b'b' ∷ []) calls).1)
run_refines_example = run_refines calls wrapped wrapped-IsValid (omega arith)
