-- ===== src/Time.antt =====
-- util-src/time.c: the two clocks. The numbers of Lua are a parameter, since they are floating point.
-- Forward, below this module, proves that the clock does not go back where the system's does not.
pub mod Forward
use prosody_trunk.Base.{ℕ, List, [], ◌∷◌}
use prosody_trunk.Base.Int.{ℤ}
use prosody_trunk.Base.Text.{bytes}
use prosody_trunk.Exports.{function, Table, new_table, setfield}

-- `lua_Number`: the conversion of a `long`, the operations, and the constant 1e-9.
pub record LuaNumber : Type 1 where
  pub Number : Type 0
  pub of_long : ℤ → Number
  pub plus : Number → Number → Number
  pub times : Number → Number → Number
  pub nano : Number

pub record Timespec : Type 0 where
  pub tv_sec : ℤ
  pub tv_nsec : ℤ

pub data Clock : Type 0 where
  clock_realtime clock_monotonic : Clock

module _ (N : LuaNumber) where
  pub tv2number : Timespec → N.Number
  tv2number tv = N.plus (N.of_long tv.tv_sec) (N.times (N.of_long tv.tv_nsec) N.nano)

  -- The values pushed; `gettime` is what `clock_gettime` tells at that moment.
  module _ (gettime : Clock → Timespec) where
    pub lc_time_realtime : List N.Number
    lc_time_realtime = tv2number (gettime clock_realtime) ∷ []

    pub lc_time_monotonic : List N.Number
    lc_time_monotonic = tv2number (gettime clock_monotonic) ∷ []

pub data TimeFunction : Type 0 where
  time_realtime time_monotonic : TimeFunction

pub luaopen_util_time : Table TimeFunction
luaopen_util_time =
    let t = setfield new_table (bytes "now") (function time_realtime) in
    setfield t (bytes "monotonic") (function time_monotonic)
