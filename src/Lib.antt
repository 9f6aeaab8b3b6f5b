-- ===== src/Lib.antt =====
-- The C modules of Prosody, an XMPP server, and what makes them correct. The server itself is written
-- in Lua; util-src/ holds the modules that it loads for bytes, hashes, descriptors and signals.
--
-- Which file models which part:
--   Ringbuffer         util-src/ringbuffer.c: readchar, writechar, modpos, find and the rb_ functions
--   Encodings.Base64   util-src/encodings.c: base64_encode, base64_decode, Lbase64_encode, Lbase64_decode
--   Encodings.Utf8     util-src/encodings.c: utf8_decode, check_utf8, Lutf8_valid, Lutf8_length
--   Encodings.Opened   util-src/encodings.c: luaopen_util_encodings, which composes the parts of the file
--   Encodings.Stringprep, Encodings.Icu
--                      util-src/encodings.c: stringprep_prep and the Lidna_ functions over libidn and ICU
--   Hashes             util-src/hashes.c: toHex, the hash functions, hmac, LscramHi
--   Hashes.Opened      util-src/hashes.c: luaopen_util_hashes, with the functions as Lua calls them
--   Poll.Select        util-src/poll.c without USE_EPOLL: Lnew, Ladd, Lset, Ldel, Lpushevent, Lwait
--   Poll.Epoll         util-src/poll.c with USE_EPOLL, and Lgetfd and Lgc
--   Poll.WatchList     the interface that both versions implement: Ladd, Lset and Ldel
--   Poll.Agree         the two versions beside each other
--   Signal             util-src/signal.c: handle, sighook, l_signal, l_raise, l_kill; Signal.Machine composes them
--   Signal.Names       util-src/signal.c: lua_signals, luaopen_util_signal
--   Pposix.Ids         util-src/pposix.c: lc_setuid, lc_setgid, lc_initgroups
--   Pposix.Limits      util-src/pposix.c: string2resource, arg_to_rlimit, lc_setrlimit, lc_getrlimit
--   Pposix.Append      util-src/pposix.c: lc_atomic_append
--   Pposix.Syslog      util-src/pposix.c: the lc_syslog_ functions and their tables
--   Pposix.Modes       util-src/pposix.c: lc_umask, lc_mkdir
--   Pposix.Process     util-src/pposix.c: lc_daemonize, lc_getpid, lc_getuid, lc_getgid, lc_uname,
--                      lc_setenv, lc_meminfo
--   Net                util-src/net.c: lc_local_addresses, lc_pton, lc_ntop
--   Crand              util-src/crand.c: Lrandom over getrandom, arc4random and OpenSSL
--   Windows            util-src/windows.c: Lget_nameservers and the functions for the colour
--   Table              util-src/table.c: Lpack
--   Time               util-src/time.c: the two clocks
--   Exports            what the luaopen functions hand to Lua; the modules named Opened have the tables
--   Compat             util-src/compat.c: lc_xpcall
--   Lua                the values that the C functions exchange with Lua
--   Base               tests, lists, bits and the conversions between the integer types of C
-- The modules below each of them hold its theorems, and its Examples holds runs at fixed inputs.
--
-- How the code is modelled. A C function that Lua calls takes the arguments as the luaL_check functions
-- hand them over, and returns the list of the values that it pushes; a reply may be empty. The state
-- of an object is passed and returned. `none` is a fault or a Lua error, as each file says. A byte is a
-- number below 256, and a string is followed by a zero byte that is not one of its bytes. Arithmetic
-- on `size_t` is modulo 2 ^ 64 and on `unsigned int` modulo 2 ^ 32; a `size_t` returned as an `int`
-- is cut to 32 bits.
--
-- Bounds and fuel. A ring buffer has at most 2 ^ 62 bytes, far more than a machine can allocate, so
-- the sums of positions do not wrap round; its search is followed up to 2 ^ 31 bytes, since `find`
-- returns an `int`. `find` runs on fuel, for it need not end: the theorems say when it does, and
-- how many rounds it takes. The check of UTF-8 gets a round more than the string has bytes. The hook
-- for signals gets a round more than its queue can hold. In the base64 encoder the number of triples
-- is a C `int`: strings of 3 * 2 ^ 31 bytes and more may make it negative, which is a fault. A UTF-8
-- sequence that claims seven continuation bytes is shifted by 35 bits, which C leaves open; the code
-- refuses it whatever the result is.
--
-- The loop over getrandom runs on fuel too; one round for each byte is enough where every call
-- returns at least one byte.
--
-- The system, OpenSSL and Lua are parameters: digests (HashDesc), the answers of `select`, of the epoll
-- calls and of getrandom, what the Lua functions do that a signal
-- runs (they may set handlers, signals may arrive, and they do not install a debug hook), the numbers
-- of Lua, users and groups,
-- limits, files, the umask, and the conversions of libidn, ICU and the C library between texts and
-- addresses. Where a theorem needs more of them, a record of laws states what their documentation
-- says. The functions of the C standard that work on strings and numbers, such as `strtoul`, `strcpy`
-- and `snprintf`, are written out.
--
-- Not modelled: the Lua code; `abort`; the checks of the version of Lua when a module is loaded; the text
-- of the message that `init_icu` prints.
pub mod Base
pub mod Lua
pub mod Ringbuffer
pub mod Encodings
pub mod Hashes
pub mod Poll
pub mod Signal
pub mod Pposix
pub mod Net
pub mod Crand
pub mod Windows
pub mod Table
pub mod Time
pub mod Exports
pub mod Compat
