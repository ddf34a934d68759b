-- ===== src/Sys/Net/Udp.antt =====
-- src/sys/unix/udp.rs: the methods of `UdpSocket` on a socket that exists.
use gaea.Event.{EventId}
use gaea.Os.Interests.{Interests}
use gaea.Os.Options.{RegisterOption}
use gaea.Os.Queue.{OsQueue}
use gaea.Os.Evented.{fd_register, fd_reregister, fd_deregister}
use gaea.Sys.Epoll.Abi.{EpollFlags, EpollKernel}
use gaea.Base.{ℕ, Option, List, IoError}
use gaea.Base.Io.{Io}
use gaea.Sys.Net.Abi.{SocketAddr}
use gaea.Sys.Net.Std.{StdUdp}
use gaea.Sys.Net.{UdpSocket}

unfoldable pub from_raw_fd : ℕ → UdpSocket
from_raw_fd fd = record { socket = fd }

unfoldable pub into_raw_fd : UdpSocket → ℕ
into_raw_fd self = self.socket

unfoldable pub as_raw_fd : UdpSocket → ℕ
as_raw_fd self = self.socket

module _ {W : Type 0} (std : StdUdp W) where
  unfoldable pub local_addr : UdpSocket → Io W SocketAddr
  local_addr self = std.local_addr self.socket

  unfoldable pub send_to : UdpSocket → List ℕ → SocketAddr → Io W ℕ
  send_to self buf target = std.send_to self.socket buf target

  unfoldable pub recv_from : UdpSocket → ℕ → Io W (List ℕ × SocketAddr)
  recv_from self buf = std.recv_from self.socket buf

  unfoldable pub peek_from : UdpSocket → ℕ → Io W (List ℕ × SocketAddr)
  peek_from self buf = std.peek_from self.socket buf

  unfoldable pub connect : UdpSocket → SocketAddr → Io W (Unit {0})
  connect self address = std.connect self.socket address

  unfoldable pub send : UdpSocket → List ℕ → Io W ℕ
  send self buf = std.send self.socket buf

  unfoldable pub recv : UdpSocket → ℕ → Io W (List ℕ)
  recv self buf = std.recv self.socket buf

  unfoldable pub peek : UdpSocket → ℕ → Io W (List ℕ)
  peek self buf = std.peek self.socket buf

  unfoldable pub take_error : UdpSocket → Io W (Option IoError)
  take_error self = std.take_error self.socket

-- `Evented`.
module _ (flags : EpollFlags) {W : Type 0} (kernel : EpollKernel W) where
  unfoldable pub register :
      UdpSocket → OsQueue → EventId → Interests → RegisterOption → Io W (Unit {0})
  unfolding fd_register as_raw_fd
  register self os_queue id interests opt =
      fd_register flags kernel (as_raw_fd self) os_queue id interests opt

  unfoldable pub reregister :
      UdpSocket → OsQueue → EventId → Interests → RegisterOption → Io W (Unit {0})
  unfolding fd_reregister as_raw_fd
  reregister self os_queue id interests opt =
      fd_reregister flags kernel (as_raw_fd self) os_queue id interests opt

  unfoldable pub deregister : UdpSocket → OsQueue → Io W (Unit {0})
  unfolding fd_deregister as_raw_fd
  deregister self os_queue = fd_deregister flags kernel (as_raw_fd self) os_queue
