-- ===== src/Poll.antt =====
-- util-src/poll.c: the watch list of file descriptors, over `select` (Select) and over epoll (Epoll).
-- The answers of the kernel are arguments. WatchList is the interface that both implement.
pub mod WatchList
pub mod Select
pub mod Epoll
pub mod Agree
pub mod Opened
