-- ===== src/Sys/Net/Listener.antt =====
-- src/sys/unix/tcp.rs: the methods of `TcpListener` that pass their call on.
use gaea.Event.{EventId}
use gaea.Os.Interests.{Interests}
use gaea.Os.Options.{RegisterOption}
use gaea.Os.Queue.{OsQueue}
use gaea.Os.Evented.{fd_register, fd_reregister, fd_deregister}
use gaea.Sys.Epoll.Abi.{EpollFlags, EpollKernel}
use gaea.Base.{ℕ, Option, IoError}
use gaea.Base.Io.{Io}
use gaea.Sys.Net.Abi.{SocketAddr}
use gaea.Sys.Net.Std.{StdTcp}
use gaea.Sys.Net.{TcpListener}

unfoldable pub from_raw_fd : ℕ → TcpListener
from_raw_fd fd = record { listener = fd }

unfoldable pub into_raw_fd : TcpListener → ℕ
into_raw_fd self = self.listener

unfoldable pub as_raw_fd : TcpListener → ℕ
as_raw_fd self = self.listener

module _ {W : Type 0} (std : StdTcp W) where
  unfoldable pub local_addr : TcpListener → Io W SocketAddr
  local_addr self = std.local_addr self.listener

  unfoldable pub set_ttl : TcpListener → ℕ → Io W (Unit {0})
  set_ttl self value = std.set_ttl self.listener value

  unfoldable pub ttl : TcpListener → Io W ℕ
  ttl self = std.ttl self.listener

  unfoldable pub take_error : TcpListener → Io W (Option IoError)
  take_error self = std.take_error self.listener

-- `Evented`.
module _ (flags : EpollFlags) {W : Type 0} (kernel : EpollKernel W) where
  unfoldable pub register :
      TcpListener → OsQueue → EventId → Interests → RegisterOption → Io W (Unit {0})
  unfolding fd_register as_raw_fd
  register self os_queue id interests opt =
      fd_register flags kernel (as_raw_fd self) os_queue id interests opt

  unfoldable pub reregister :
      TcpListener → OsQueue → EventId → Interests → RegisterOption → Io W (Unit {0})
  unfolding fd_reregister as_raw_fd
  reregister self os_queue id interests opt =
      fd_reregister flags kernel (as_raw_fd self) os_queue id interests opt

  unfoldable pub deregister : TcpListener → OsQueue → Io W (Unit {0})
  unfolding fd_deregister as_raw_fd
  deregister self os_queue = fd_deregister flags kernel (as_raw_fd self) os_queue
