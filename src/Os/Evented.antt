-- ===== src/Os/Evented.antt =====
-- src/os/evented.rs and src/sys/unix/eventedfd.rs: `EventedFd`, on which all other types that
-- implement `Evented` stand. `none` is a panic.
use gaea.Base.{ℕ, Bool, true, false, Option, none, some}
use gaea.Base.Io.{Io}
use gaea.Event.{EventId}
use gaea.Os.Interests.{Interests}
use gaea.Os.Options.{RegisterOption}
use gaea.Os.Queue.{OsQueue}
use gaea.Sys.Epoll.Abi.{EpollFlags, EpollKernel}
use gaea.Sys.Epoll as Epoll

-- `debug_assert!(test)` in front of a call. Builds without debug assertions do not have it.
abbrev pub debug_assert {ℓ} : {A : Type ℓ} → (test debug_assertions : Bool) → A → Option A
debug_assert true debug_assertions call = some call
debug_assert false true call = none
debug_assert false false call = some call

module _ (flags : EpollFlags) {W : Type 0} (kernel : EpollKernel W) where
  -- The methods of `EventedFd`.
  unfoldable pub fd_register : ℕ → OsQueue → EventId → Interests → RegisterOption → Io W (Unit {0})
  fd_register fd os_queue id interests opt =
      Epoll.register flags kernel os_queue.selector fd id interests opt

  unfoldable pub fd_reregister :
      ℕ → OsQueue → EventId → Interests → RegisterOption → Io W (Unit {0})
  fd_reregister fd os_queue id interests opt =
      Epoll.reregister flags kernel os_queue.selector fd id interests opt

  unfoldable pub fd_deregister : ℕ → OsQueue → Io W (Unit {0})
  fd_deregister fd os_queue = Epoll.deregister flags kernel os_queue.selector fd
