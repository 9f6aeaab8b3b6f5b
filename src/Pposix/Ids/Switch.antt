-- ===== src/Pposix/Ids/Switch.antt =====
-- When a change of ids reports success.
use prosody_trunk.Base.{
  ℕ, ◌-◌, ◌%◌, ◌^◌, ◌<◌, ltb, arith, Bool-cases, inl, inr, ◌≡◌, refl, Bool, true, false, Option,
  none, some,
}
use prosody_trunk.Base.{List, [], ◌∷◌, ◌==◌, if◌then◌else◌}
use prosody_trunk.Base.Int.{ℤ, pos, negsuc}
use prosody_trunk.Lua.{Value, nil, boolean, integer, string, function, to_boolean}
use prosody_trunk.Pposix.Ids.{
  System, int_of_number, as_int, setuid_reply, try_uid, setuid_named, setuid_text, lc_setuid,
  no_with, einval, eperm,
}

-- The specification: the id that an argument names, if it names one. An id is a number below 2 ^ 31.
pub id_of : ℤ → Option ℕ
id_of (negsuc n) = none
id_of (pos n) = if ltb n (2 ^ 31) then some n else none

pub uid_of : System → Value → Option ℕ
uid_of S (integer n) = id_of n
uid_of S (string s) = elim (S.tonumber s) [
  | some n ↦ id_of n
  | none ↦ elim (S.getpwnam s) [ none ↦ none | some p ↦ id_of (pos p.0) ]
]
uid_of S _ = some 0

-- The ids of users are unsigned 32-bit numbers.
abbrev pub HasIds : System → Type 0
HasIds S = (s : List ℕ) (p : ℕ × ℕ) → S.getpwnam s ≡ some p → p.0 < 2 ^ 32

-- Whether a reply begins with true.
abbrev pub is_true : List Value → Bool
is_true [] = false
is_true (v ∷ vs) = to_boolean v

-- The system switched to this id.
pub switched : System → Option ℕ → Bool
switched S (some uid) = elim (S.setuid uid) [ none ↦ true | some e ↦ false ]
switched S none = false

refused_false :
    (b : Bool) (c : Bool) (x y z : List ℕ)
    → is_true (if b then no_with x else if c then no_with y else no_with z) ≡ false
refused_false true c x y z = refl
refused_false false true x y z = refl
refused_false false false x y z = refl

setuid_reply_lem :
    (o : Option ℕ) → is_true (setuid_reply o) ≡ elim o [ none ↦ true | some e ↦ false ]
unfolding setuid_reply
setuid_reply_lem none = refl
setuid_reply_lem (some e) = refused_false (e == einval) (e == eperm) _ _ _

try_uid_lem :
    (S : System) (n : ℕ) (b : Bool)
    → is_true (try_uid S (if b then pos n else negsuc (2 ^ 31 - 1)))
      ≡ switched S (if b then some n else none)
unfolding try_uid switched
try_uid_lem S n true = setuid_reply_lem (S.setuid n)
try_uid_lem S n false = refl

number_lem : (S : System) (n : ℤ) → is_true (try_uid S (int_of_number n)) ≡ switched S (id_of n)
unfolding int_of_number id_of
number_lem S (pos n) = try_uid_lem S n (ltb n (2 ^ 31))
number_lem S (negsuc n) = below (ltb n (2 ^ 31))
  where
    below :
        (b : Bool)
        → is_true (try_uid S (if b then negsuc n else negsuc (2 ^ 31 - 1))) ≡ switched S none
    below true = unfold try_uid in unfold switched in refl
    below false = unfold try_uid in unfold switched in refl

-- The id of a user, in an `int`.
user_lem :
    (S : System) (n : ℕ) → n < 2 ^ 32 → is_true (try_uid S (as_int n)) ≡ switched S (id_of (pos n))
unfolding as_int id_of
user_lem S n h =
    let w : n % 2 ^ 32 ≡ n = omega arith in
    rw w (elim (Bool-cases (ltb n (2 ^ 31))) [
      | inl l ↦ rw l (try_uid_lem S n true)
      | inr l ↦ rw l (unfold try_uid in unfold switched in refl)
    ])

-- `lc_setuid` reports success where its argument names an id below 2 ^ 31, as a number, as a string
-- that Lua reads as one or as a user, and the system switched to that id, and only there. A value of
-- another type names the id zero. The ids of users are unsigned 32-bit numbers.
pub lc_setuid_lem :
    (S : System)
    → HasIds S
    → (v : Value) (args : List Value) → is_true (lc_setuid S (v ∷ args)) ≡ switched S (uid_of S v)
unfolding lc_setuid uid_of
lc_setuid_lem S ids nil args = try_uid_lem S 0 true
lc_setuid_lem S ids (boolean b) args = try_uid_lem S 0 true
lc_setuid_lem S ids (function f) args = try_uid_lem S 0 true
lc_setuid_lem S ids (integer n) args = number_lem S n
lc_setuid_lem S ids (string s) args = text (S.tonumber s)
  where
    named :
        (p : Option (ℕ × ℕ))
        → S.getpwnam s ≡ p
        → is_true (setuid_named S p)
          ≡ switched S (elim p [ none ↦ none | some q ↦ id_of (pos q.0) ])
    named none e = unfold setuid_named in unfold switched in refl
    named (some (uid, gid)) e = unfold setuid_named in user_lem S uid (ids s (uid, gid) e)

    text :
        (o : Option ℤ)
        → is_true (setuid_text S s o)
          ≡ switched S (elim o [
            | some n ↦ id_of n
            | none ↦ elim (S.getpwnam s) [ none ↦ none | some p ↦ id_of (pos p.0) ]
          ])
    text none = unfold setuid_text in named (S.getpwnam s) refl
    text (some n) = unfold setuid_text in number_lem S n
