-- ===== src/Pposix/Syslog.antt =====
-- util-src/pposix.c: logging over syslog. The copy of the ident that the program allocates, and the
-- pointer to it that the C library keeps, are modelled as pointers to blocks of memory.
-- Mask and Memory, below this module, prove what the functions do.
pub mod Mask
pub mod Memory
use prosody_trunk.Base.{
  ◌==◌, ◌++◌, ℕ, zero, suc, ◌+◌, ◌^◌, bit_or, Bool, true, false, Option, none, some, ◌>>=◌,
}
use prosody_trunk.Base.{List, [], ◌∷◌, get_or, leb, if◌then◌else◌}
use prosody_trunk.Base.Text.{bytes, equal}

unfoldable pub level_strings : List (List ℕ)
level_strings = bytes "debug" ∷ bytes "info" ∷ bytes "notice" ∷ bytes "warn" ∷ bytes "error" ∷ []

-- LOG_DEBUG, LOG_INFO, LOG_NOTICE, LOG_WARNING and LOG_CRIT.
abbrev pub level_constants : List ℕ
level_constants = 7 ∷ 6 ∷ 5 ∷ 4 ∷ 2 ∷ []

-- What Lua documents of `luaL_checkoption`: the place of a string in a table, or an error.
pub check_option : List ℕ → List (List ℕ) → ℕ → Option ℕ
check_option s [] i = none
check_option s (t ∷ ts) i =
    let rest = check_option s ts (i + 1) in if equal s t then some i else rest

-- The rounds of `do … while(++level_idx <= 4)`.
unfoldable pub mask_loop : ℕ → ℕ → ℕ → ℕ
mask_loop zero level_idx mask = mask
mask_loop (suc fuel) level_idx mask =
    let mask' = bit_or mask (2 ^ get_or level_constants level_idx 0) in
    let next = mask_loop fuel (level_idx + 1) mask' in if leb (level_idx + 1) 4 then next else mask'

-- The mask that `lc_syslog_setmask` hands to `setlogmask`. An absent argument stands for
-- "notice".
pub lc_syslog_setmask : List ℕ → Option ℕ
unfolding check_option level_strings mask_loop
lc_syslog_setmask s = do level_idx ← check_option s level_strings 0; some (mask_loop 5 level_idx 0)

-- LOG_AUTH, LOG_AUTHPRIV, LOG_CRON and so on, as Linux numbers them.
abbrev pub facility_constants : List ℕ
facility_constants =
    32 ∷ 80 ∷ 72 ∷ 24 ∷ 88 ∷ 0 ∷ 128 ∷ 136 ∷ 144 ∷ 152 ∷ 160 ∷ 168 ∷ 176 ∷ 184 ∷ 48 ∷ 16 ∷ 56 ∷ 40
    ∷ 8 ∷ 64 ∷ []

-- The names, one fewer.
pub facility_strings : List (List ℕ)
facility_strings =
    bytes "auth"
    ∷ bytes "authpriv"
    ∷ bytes "cron"
    ∷ bytes "daemon"
    ∷ bytes "ftp"
    ∷ bytes "kern"
    ∷ bytes "local0"
    ∷ bytes "local1"
    ∷ bytes "local2"
    ∷ bytes "local3"
    ∷ bytes "local4"
    ∷ bytes "local5"
    ∷ bytes "local6"
    ∷ bytes "local7"
    ∷ bytes "lpr"
    ∷ bytes "mail"
    ∷ bytes "syslog"
    ∷ bytes "user"
    ∷ bytes "uucp"
    ∷ []

-- The blocks that `strdup` allocated and that are not freed yet, by their addresses.
abbrev pub Heap : Type 0
Heap = ℕ → Option (List ℕ)

abbrev pub put : Heap → ℕ → Option (List ℕ) → Heap
put heap p block q = if p == q then block else heap q

-- `syslog_ident`, the blocks, and what the C library keeps of `openlog`: the pointer and the facility.
pub record State : Type 0 where
  pub syslog_ident : Option ℕ
  pub heap : Heap
  pub held : Option ℕ
  pub facility : ℕ

-- `none` is a fault: the pointer is to no block.
pub free_block : Heap → ℕ → Option (List ℕ) → Option Heap
free_block heap p none = none
free_block heap p (some block) = some (put heap p none)

-- `if(syslog_ident) free(syslog_ident)`
pub free_ident : Heap → Option ℕ → Option Heap
free_ident heap none = some heap
free_ident heap (some p) = free_block heap p (heap p)

-- `strdup` to the address that `malloc` returned, or NULL where there is no memory.
pub strdup : Heap → Option ℕ → List ℕ → Heap
strdup heap none s = heap
strdup heap (some p) s = put heap p (some s)

-- The facility is the constant at the place of its name. Beside the state: whether the call returned
-- without an error. For no ident, `openlog` takes the name of the program, as its manual says.
pub opened : State → List ℕ → Option ℕ → Option ℕ → Option (Bool × State)
opened st ident address none = some (false, st)
opened st ident address (some facility) = do
  heap ← free_ident st.heap st.syslog_ident
  some (
    true,
    record {
      syslog_ident = address;
      heap = strdup heap address ident;
      held = address;
      facility = get_or facility_constants facility 0;
    },
  )

-- `address` is the answer of `malloc` to `strdup`. An absent facility stands for "daemon".
pub lc_syslog_open : State → List ℕ → List ℕ → Option ℕ → Option (Bool × State)
lc_syslog_open st ident facility address =
    opened st ident address (check_option facility facility_strings 0)

-- `closelog` forgets the ident, as the manual of the C library says.
pub lc_syslog_close : State → Option State
lc_syslog_close st = do
  heap ← free_ident st.heap st.syslog_ident
  some (record st { syslog_ident = none; heap = heap; held = none })

-- A line of the log: facility, level, ident and text.
pub record Line : Type 0 where
  pub facility : ℕ
  pub level : ℕ
  pub ident : Option (List ℕ)
  pub text : List ℕ

-- `syslog` reads the ident through the pointer that it holds.
pub read_block : Option (List ℕ) → Option (Option (List ℕ))
read_block none = none
read_block (some block) = some (some block)

pub read_ident : Heap → Option ℕ → Option (Option (List ℕ))
read_ident heap none = some none
read_ident heap (some p) = read_block (heap p)

-- The text of a call with three arguments, and with two.
pub line_text : List ℕ → Option (List ℕ) → List ℕ
line_text a none = a
line_text a (some b) = a ++ (bytes ": " ++ b)

-- The line, or nothing where the level is no name of one, which raises an error.
pub line_of : State → List ℕ → Option (List ℕ) → Option ℕ → Option (Option Line)
line_of st a b none = some none
line_of st a b (some level) = do
  ident ← read_ident st.heap st.held
  some (
      some (record {
        facility = st.facility;
        level = get_or level_constants level 0;
        ident = ident;
        text = line_text a b;
      }))

-- An absent level stands for "notice".
pub lc_syslog_log : State → List ℕ → List ℕ → Option (List ℕ) → Option (Option Line)
lc_syslog_log st level a b = line_of st a b (check_option level level_strings 0)
