-- ===== src/Ringbuffer/Opened.antt =====
-- util-src/ringbuffer.c: luaopen_util_ringbuffer.
use prosody_trunk.Base.{Option, none, some}
use prosody_trunk.Base.Text.{bytes}
use prosody_trunk.Exports.{function, Table, new_table, setfield}

pub data RingbufferFunction : Type 0 where
  rb_tostring rb_length rb_find rb_discard rb_read rb_readuntil rb_write rb_size rb_free :
      RingbufferFunction
  rb_new : RingbufferFunction

-- The metatable of the ring buffers, with the table in its field "__index".
pub record Metatable : Type 0 where
  pub fields : Table RingbufferFunction
  pub index : Table RingbufferFunction

pub metatable : Metatable
metatable =
    let t = setfield new_table (bytes "__tostring") (function rb_tostring) in
    let methods = setfield new_table (bytes "find") (function rb_find) in
    let methods = setfield methods (bytes "discard") (function rb_discard) in
    let methods = setfield methods (bytes "read") (function rb_read) in
    let methods = setfield methods (bytes "readuntil") (function rb_readuntil) in
    let methods = setfield methods (bytes "write") (function rb_write) in
    let methods = setfield methods (bytes "size") (function rb_size) in
    let methods = setfield methods (bytes "length") (function rb_length) in
    let methods = setfield methods (bytes "free") (function rb_free) in
    record { fields = setfield t (bytes "__len") (function rb_length); index = methods }

-- `luaL_newmetatable` says whether the registry had no such metatable before; one that it has is kept.
pub luaopen_util_ringbuffer : Option Metatable → Metatable × Table RingbufferFunction
luaopen_util_ringbuffer registered =
    let library = setfield new_table (bytes "new") (function rb_new) in
    (elim registered [ none ↦ metatable | some t ↦ t ], library)
