-- ===== src/Pposix.antt =====
-- util-src/pposix.c: changes of ids (Ids), limits of resources (Limits), appending to a file
-- (Append), syslog (Syslog), umask and mkdir (Modes), and processes (Process). The calls of the
-- system are arguments.
pub mod Ids
pub mod Limits
pub mod Append
pub mod Syslog
pub mod Modes
pub mod Process
pub mod Opened
mod Examples
