-- ===== src/Sys.antt =====
-- src/sys: what the platforms share, and the platforms. `Epoll` and `Kqueue`
-- are the selectors, `Awakener` wakes a queue from another thread, `Net` creates sockets and pipes,
-- `SignalFd` and `SignalKq` receive signals, and `Leaks` is about their descriptors.
pub mod Epoll
pub mod Kqueue
pub mod Awakener
pub mod Net
pub mod SignalFd
pub mod SignalKq
pub mod Leaks
use gaea.Base.{ℕ}

-- Size of the array of system events on the stack.
abbrev pub events_cap : ℕ
events_cap = 128
