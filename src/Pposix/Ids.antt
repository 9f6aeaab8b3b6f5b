-- ===== src/Pposix/Ids.antt =====
-- `lc_setuid`, `lc_setgid` and `lc_initgroups`.
pub mod Switch
use prosody_trunk.Base.{ℕ, ◌+◌, ◌-◌, ◌%◌, ◌^◌, ◌≡◌, Bool, true, false, Option, none, some}
use prosody_trunk.Base.{List, [], ◌∷◌, ltb, ◌==◌, if◌then◌else◌}
use prosody_trunk.Base.Int.{ℤ, pos, negsuc}
use prosody_trunk.Base.Text.{bytes}
use prosody_trunk.Lua.{Value, nil, boolean, integer, string, function}

abbrev pub eperm : ℕ
eperm = 1

abbrev pub enomem : ℕ
enomem = 12

abbrev pub einval : ℕ
einval = 22

-- A number of Lua in an `int`. C leaves the result open where the number does not fit; the processor
-- then gives the least `int`.
pub int_of_number : ℤ → ℤ
int_of_number (pos n) = if ltb n (2 ^ 31) then pos n else negsuc (2 ^ 31 - 1)
int_of_number (negsuc n) = if ltb n (2 ^ 31) then negsuc n else negsuc (2 ^ 31 - 1)

-- An unsigned 32-bit id in an `int`.
pub as_int : ℕ → ℤ
as_int n = let w = n % 2 ^ 32 in if ltb w (2 ^ 31) then pos w else negsuc (2 ^ 32 - 1 - w)

-- The users and groups of the system, Lua's reading of a string as a number, and the calls that
-- change ids: `none` where they succeed, and otherwise the error.
pub record System : Type 0 where
  pub tonumber : List ℕ → Option ℤ
  pub getpwnam : List ℕ → Option (ℕ × ℕ)
  pub getgrnam : List ℕ → Option ℕ
  pub setuid : ℕ → Option ℕ
  pub setgid : ℕ → Option ℕ
  pub initgroups : List ℕ → ℤ → Option ℕ

abbrev pub no_with : List ℕ → List Value
no_with why = boolean false ∷ string why ∷ []

abbrev pub nil_with : List ℕ → List Value
nil_with why = nil ∷ string why ∷ []

-- What follows the answer of `setuid`, and the test before it.
pub setuid_reply : Option ℕ → List Value
setuid_reply none = boolean true ∷ []
setuid_reply (some e) =
    if e == einval
    then no_with (bytes "invalid-uid")
    else if e == eperm
    then no_with (bytes "permission-denied")
    else no_with (bytes "unknown-error")

pub try_uid : System → ℤ → List Value
try_uid S (pos uid) = setuid_reply (S.setuid uid)
try_uid S (negsuc n) = no_with (bytes "invalid-uid")

-- A name that is looked up.
pub setuid_named : System → Option (ℕ × ℕ) → List Value
setuid_named S none = no_with (bytes "no-such-user")
setuid_named S (some (uid, gid)) = try_uid S (as_int uid)

-- A string that Lua reads as a number.
pub setuid_text : System → List ℕ → Option ℤ → List Value
setuid_text S s (some n) = try_uid S (int_of_number n)
setuid_text S s none = setuid_named S (S.getpwnam s)

-- A value that is neither a number nor a string counts as the number zero.
pub lc_setuid : System → List Value → List Value
lc_setuid S [] = []
lc_setuid S (string s ∷ args) = setuid_text S s (S.tonumber s)
lc_setuid S (integer n ∷ args) = try_uid S (int_of_number n)
lc_setuid S (v ∷ args) = try_uid S (pos 0)

pub setgid_reply : Option ℕ → List Value
setgid_reply none = boolean true ∷ []
setgid_reply (some e) =
    if e == einval
    then no_with (bytes "invalid-gid")
    else if e == eperm
    then no_with (bytes "permission-denied")
    else no_with (bytes "unknown-error")

pub try_gid : System → ℤ → List Value
try_gid S (pos gid) = setgid_reply (S.setgid gid)
try_gid S (negsuc n) = no_with (bytes "invalid-gid")

pub setgid_named : System → Option ℕ → List Value
setgid_named S none = no_with (bytes "no-such-group")
setgid_named S (some gid) = try_gid S (as_int gid)

pub setgid_text : System → List ℕ → Option ℤ → List Value
setgid_text S s (some n) = try_gid S (int_of_number n)
setgid_text S s none = setgid_named S (S.getgrnam s)

pub lc_setgid : System → List Value → List Value
lc_setgid S [] = []
lc_setgid S (string s ∷ args) = setgid_text S s (S.tonumber s)
lc_setgid S (integer n ∷ args) = try_gid S (int_of_number n)
lc_setgid S (v ∷ args) = try_gid S (pos 0)

-- The group: that of the user where none is given. `none` is an argument of another type.
pub group_of : ℕ → List Value → Option ℤ
group_of gid [] = some (pos gid)
group_of gid (nil ∷ args) = some (pos gid)
group_of gid (integer n ∷ args) = some n
group_of gid (v ∷ args) = none

pub initgroups_reply : Option ℕ → List Value
initgroups_reply none = boolean true ∷ nil ∷ []
initgroups_reply (some e) =
    if e == enomem
    then nil_with (bytes "no-memory")
    else if e == eperm
    then nil_with (bytes "permission-denied")
    else nil_with (bytes "unknown-error")

pub initgroups_with : System → List ℕ → Option ℤ → List Value
initgroups_with S s none = nil_with (bytes "invalid-gid")
initgroups_with S s (some gid) = initgroups_reply (S.initgroups s gid)

pub initgroups_named : System → List ℕ → List Value → Option (ℕ × ℕ) → List Value
initgroups_named S s args none = nil_with (bytes "no-such-user")
initgroups_named S s args (some (uid, gid)) = initgroups_with S s (group_of gid args)

-- A user given as a number is a string for Lua as well; `decimal` writes it.
pub lc_initgroups : (ℤ → List ℕ) → System → List Value → List Value
lc_initgroups decimal S (string s ∷ args) = initgroups_named S s args (S.getpwnam s)
lc_initgroups decimal S (integer n ∷ args) =
    initgroups_named S (decimal n) args (S.getpwnam (decimal n))
lc_initgroups decimal S _ = nil_with (bytes "invalid-username")
