-- ===== src/Net/Udp.antt =====
-- src/net/udp.rs: `UdpSocket`.
use gaea.Event.{EventId}
use gaea.Os.Options.{RegisterOption}
use gaea.Os.Queue.{OsQueue}
use gaea.Sys.Epoll.Abi.{EpollFlags, EpollKernel}
use gaea.Base.{ℕ, Option, List, IoError}
use gaea.Base.Io.{Io, pure, ◌>>=◌}
use gaea.Os.Interests.{Interests, interests_both}
use gaea.Sys.Net.Abi.{SocketAddr, StdSockets}
use gaea.Sys.Net.Std.{StdUdp}
use gaea.Sys.Net as Sys
use gaea.Sys.Net.Udp as Inner

pub record UdpSocket : Type 0 where
  pub socket : Sys.UdpSocket

-- The constant `INTERESTS`.
abbrev pub interests : Interests
interests = interests_both

unfoldable pub from_raw_fd : ℕ → UdpSocket
unfolding Inner.from_raw_fd
from_raw_fd fd = record { socket = Inner.from_raw_fd fd }

unfoldable pub into_raw_fd : UdpSocket → ℕ
unfolding Inner.into_raw_fd
into_raw_fd self = Inner.into_raw_fd self.socket

unfoldable pub as_raw_fd : UdpSocket → ℕ
unfolding Inner.as_raw_fd
as_raw_fd self = Inner.as_raw_fd self.socket

module _ {W : Type 0} (sockets : StdSockets W) where
  unfoldable pub bind : SocketAddr → Io W UdpSocket
  unfolding Sys.bind_udp
  bind address = do socket ← Sys.bind_udp sockets address; pure (record { socket = socket })

module _ {W : Type 0} (std : StdUdp W) where
  unfoldable pub local_addr : UdpSocket → Io W SocketAddr
  unfolding Inner.local_addr
  local_addr self = Inner.local_addr std self.socket

  unfoldable pub send_to : UdpSocket → List ℕ → SocketAddr → Io W ℕ
  unfolding Inner.send_to
  send_to self buf target = Inner.send_to std self.socket buf target

  unfoldable pub recv_from : UdpSocket → ℕ → Io W (List ℕ × SocketAddr)
  unfolding Inner.recv_from
  recv_from self buf = Inner.recv_from std self.socket buf

  unfoldable pub peek_from : UdpSocket → ℕ → Io W (List ℕ × SocketAddr)
  unfolding Inner.peek_from
  peek_from self buf = Inner.peek_from std self.socket buf

  unfoldable pub connect : UdpSocket → SocketAddr → Io W (Unit {0})
  unfolding Inner.connect
  connect self address = Inner.connect std self.socket address

  unfoldable pub send : UdpSocket → List ℕ → Io W ℕ
  unfolding Inner.send
  send self buf = Inner.send std self.socket buf

  unfoldable pub recv : UdpSocket → ℕ → Io W (List ℕ)
  unfolding Inner.recv
  recv self buf = Inner.recv std self.socket buf

  unfoldable pub peek : UdpSocket → ℕ → Io W (List ℕ)
  unfolding Inner.peek
  peek self buf = Inner.peek std self.socket buf

  unfoldable pub take_error : UdpSocket → Io W (Option IoError)
  unfolding Inner.take_error
  take_error self = Inner.take_error std self.socket

-- `Evented`.
module _ (flags : EpollFlags) {W : Type 0} (kernel : EpollKernel W) where
  unfoldable pub register :
      UdpSocket → OsQueue → EventId → Interests → RegisterOption → Io W (Unit {0})
  unfolding Inner.register
  register self os_queue id interests opt =
      Inner.register flags kernel self.socket os_queue id interests opt

  unfoldable pub reregister :
      UdpSocket → OsQueue → EventId → Interests → RegisterOption → Io W (Unit {0})
  unfolding Inner.reregister
  reregister self os_queue id interests opt =
      Inner.reregister flags kernel self.socket os_queue id interests opt

  unfoldable pub deregister : UdpSocket → OsQueue → Io W (Unit {0})
  unfolding Inner.deregister
  deregister self os_queue = Inner.deregister flags kernel self.socket os_queue
