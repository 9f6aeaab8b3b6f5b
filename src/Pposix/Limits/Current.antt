-- ===== src/Pposix/Limits/Current.antt =====
-- Setting limits and reading them back.
use prosody_trunk.Base.{ℕ, ◌-◌, ◌^◌, ◌<◌, ◌≡◌, some}
use prosody_trunk.Base.{List}
use prosody_trunk.Base.Int.{pos}
use prosody_trunk.Base.Text.{bytes}
use prosody_trunk.Lua.{Value, integer, string}
use prosody_trunk.Pposix.Limits.{Limits}

-- The system's limits are read as they were set.
abbrev pub Keeps : Limits → Type 0
Keeps S =
    (w v : S.World) (rid : ℕ) (l : ℕ × ℕ)
    → S.setrlimit w rid l ≡ some v
    → S.getrlimit v rid ≡ some l

-- The resources, with their names for Lua and their numbers on Linux.
pub data Resource : Type 0 where
  core cpu data_size fsize nofile stack memlock nproc rss nice : Resource

unfoldable pub name_of : Resource → List ℕ
name_of core = bytes "CORE"
name_of cpu = bytes "CPU"
name_of data_size = bytes "DATA"
name_of fsize = bytes "FSIZE"
name_of nofile = bytes "NOFILE"
name_of stack = bytes "STACK"
name_of memlock = bytes "MEMLOCK"
name_of nproc = bytes "NPROC"
name_of rss = bytes "RSS"
name_of nice = bytes "NICE"

unfoldable pub rid_of : Resource → ℕ
rid_of cpu = 0
rid_of fsize = 1
rid_of data_size = 2
rid_of stack = 3
rid_of core = 4
rid_of rss = 5
rid_of nproc = 6
rid_of nofile = 7
rid_of memlock = 8
rid_of nice = 13

-- A limit as a Lua program writes it, and as the system counts it, with 2 ^ 64 - 1 for none.
pub data Limit : Type 0 where
  at : ℕ → Limit
  unlimited : Limit

unfoldable pub value_of : Limit → Value
value_of (at n) = integer (pos n)
value_of unlimited = string (bytes "unlimited")

unfoldable pub count_of : Limit → ℕ
count_of (at n) = n
count_of unlimited = 2 ^ 64 - 1

-- An integer of Lua.
abbrev pub IsLimit : Limit → Type 0
IsLimit (at n) = n < 2 ^ 63
IsLimit unlimited = Unit {0}
