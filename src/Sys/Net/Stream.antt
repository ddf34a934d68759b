-- ===== src/Sys/Net/Stream.antt =====
-- src/sys/unix/tcp.rs: the methods of `TcpStream` on a stream that exists.
use gaea.Event.{EventId}
use gaea.Os.Interests.{Interests}
use gaea.Os.Options.{RegisterOption}
use gaea.Os.Queue.{OsQueue}
use gaea.Os.Evented.{fd_register, fd_reregister, fd_deregister}
use gaea.Sys.Epoll.Abi.{EpollFlags, EpollKernel}
use gaea.Base.{ℕ, Bool, Option, List, IoError}
use gaea.Base.Io.{Io}
use gaea.Sys.Net.Abi.{SocketAddr}
use gaea.Sys.Net.Std.{StdTcp, Shutdown}
use gaea.Sys.Net.{TcpStream}

unfoldable pub from_raw_fd : ℕ → TcpStream
from_raw_fd fd = record { stream = fd }

unfoldable pub into_raw_fd : TcpStream → ℕ
into_raw_fd self = self.stream

unfoldable pub as_raw_fd : TcpStream → ℕ
as_raw_fd self = self.stream

module _ {W : Type 0} (std : StdTcp W) where
  unfoldable pub peer_addr : TcpStream → Io W SocketAddr
  peer_addr self = std.peer_addr self.stream

  unfoldable pub local_addr : TcpStream → Io W SocketAddr
  local_addr self = std.local_addr self.stream

  unfoldable pub set_ttl : TcpStream → ℕ → Io W (Unit {0})
  set_ttl self value = std.set_ttl self.stream value

  unfoldable pub ttl : TcpStream → Io W ℕ
  ttl self = std.ttl self.stream

  unfoldable pub set_nodelay : TcpStream → Bool → Io W (Unit {0})
  set_nodelay self on = std.set_nodelay self.stream on

  unfoldable pub nodelay : TcpStream → Io W Bool
  nodelay self = std.nodelay self.stream

  unfoldable pub peek : TcpStream → ℕ → Io W (List ℕ)
  peek self buf = std.peek self.stream buf

  unfoldable pub shutdown : TcpStream → Shutdown → Io W (Unit {0})
  shutdown self how = std.shutdown self.stream how

  unfoldable pub take_error : TcpStream → Io W (Option IoError)
  take_error self = std.take_error self.stream

  unfoldable pub read : TcpStream → ℕ → Io W (List ℕ)
  read self buf = std.read self.stream buf

  unfoldable pub write : TcpStream → List ℕ → Io W ℕ
  write self buf = std.write self.stream buf

  unfoldable pub flush : TcpStream → Io W (Unit {0})
  flush self = std.flush self.stream

-- `Evented`.
module _ (flags : EpollFlags) {W : Type 0} (kernel : EpollKernel W) where
  unfoldable pub register :
      TcpStream → OsQueue → EventId → Interests → RegisterOption → Io W (Unit {0})
  unfolding fd_register as_raw_fd
  register self os_queue id interests opt =
      fd_register flags kernel (as_raw_fd self) os_queue id interests opt

  unfoldable pub reregister :
      TcpStream → OsQueue → EventId → Interests → RegisterOption → Io W (Unit {0})
  unfolding fd_reregister as_raw_fd
  reregister self os_queue id interests opt =
      fd_reregister flags kernel (as_raw_fd self) os_queue id interests opt

  unfoldable pub deregister : TcpStream → OsQueue → Io W (Unit {0})
  unfolding fd_deregister as_raw_fd
  deregister self os_queue = fd_deregister flags kernel (as_raw_fd self) os_queue
