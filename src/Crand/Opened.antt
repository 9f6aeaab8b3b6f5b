-- ===== src/Crand/Opened.antt =====
-- util-src/crand.c: luaopen_util_crand.
use prosody_trunk.Base.{ℕ, List}
use prosody_trunk.Base.Text.{bytes}
use prosody_trunk.Exports.{function, text, Table, new_table, setfield}

pub data CrandFunction : Type 0 where
  l_random : CrandFunction

-- The source of random bytes that the build chose.
pub data Source : Type 0 where
  with_getrandom with_arc4random with_openssl : Source

pub source_name : Source → List ℕ
source_name with_getrandom = bytes "Linux"
source_name with_arc4random = bytes "arc4random()"
source_name with_openssl = bytes "OpenSSL"

pub luaopen_util_crand : Source → Table CrandFunction
luaopen_util_crand source =
    let t = setfield new_table (bytes "bytes") (function l_random) in
    setfield t (bytes "_source") (text (source_name source))
