-- ===== src/Os.antt =====
-- src/os: the queue of the operating system, and what handles are registered with. `Interests` and
-- `Options` are the two arguments of a registration, `Queue` is `OsQueue`, `Evented` is `EventedFd`,
-- `Handles` the types that implement `Evented`, `Signals` the signal sets, and `Handlers` the
-- awakener and the signal handler on Linux.
pub mod Interests
pub mod Options
pub mod Signals
pub mod Queue
pub mod Evented
pub mod Handles
pub mod Handlers
