-- ===== src/Net/Stream.antt =====
-- src/net/tcp.rs: `TcpStream`.
use gaea.Event.{EventId}
use gaea.Os.Options.{RegisterOption}
use gaea.Os.Queue.{OsQueue}
use gaea.Sys.Epoll.Abi.{EpollFlags, EpollKernel}
use gaea.Base.{ℕ, Bool, Option, List, IoError}
use gaea.Base.Io.{Io, pure, ◌>>=◌}
use gaea.Os.Interests.{Interests, interests_both}
use gaea.Sys.Net.Abi.{SocketAddr, SocketFlags, SocketKernel}
use gaea.Sys.Net.Std.{StdTcp, Shutdown}
use gaea.Sys.Net as Sys
use gaea.Sys.Net.Stream as Inner

pub record TcpStream : Type 0 where
  pub inner : Sys.TcpStream

-- The constant `INTERESTS`.
abbrev pub interests : Interests
interests = interests_both

unfoldable pub from_raw_fd : ℕ → TcpStream
unfolding Inner.from_raw_fd
from_raw_fd fd = record { inner = Inner.from_raw_fd fd }

unfoldable pub into_raw_fd : TcpStream → ℕ
unfolding Inner.into_raw_fd
into_raw_fd self = Inner.into_raw_fd self.inner

unfoldable pub as_raw_fd : TcpStream → ℕ
unfolding Inner.as_raw_fd
as_raw_fd self = Inner.as_raw_fd self.inner

module _ (c : SocketFlags) {W : Type 0} (k : SocketKernel W) where
  unfoldable pub connect : SocketAddr → Io W TcpStream
  unfolding Sys.connect
  connect address = do inner ← Sys.connect c k address; pure (record { inner = inner })

module _ {W : Type 0} (std : StdTcp W) where
  unfoldable pub peer_addr : TcpStream → Io W SocketAddr
  unfolding Inner.peer_addr
  peer_addr self = Inner.peer_addr std self.inner

  unfoldable pub local_addr : TcpStream → Io W SocketAddr
  unfolding Inner.local_addr
  local_addr self = Inner.local_addr std self.inner

  unfoldable pub set_ttl : TcpStream → ℕ → Io W (Unit {0})
  unfolding Inner.set_ttl
  set_ttl self value = Inner.set_ttl std self.inner value

  unfoldable pub ttl : TcpStream → Io W ℕ
  unfolding Inner.ttl
  ttl self = Inner.ttl std self.inner

  unfoldable pub set_nodelay : TcpStream → Bool → Io W (Unit {0})
  unfolding Inner.set_nodelay
  set_nodelay self on = Inner.set_nodelay std self.inner on

  unfoldable pub nodelay : TcpStream → Io W Bool
  unfolding Inner.nodelay
  nodelay self = Inner.nodelay std self.inner

  unfoldable pub peek : TcpStream → ℕ → Io W (List ℕ)
  unfolding Inner.peek
  peek self buf = Inner.peek std self.inner buf

  unfoldable pub shutdown : TcpStream → Shutdown → Io W (Unit {0})
  unfolding Inner.shutdown
  shutdown self how = Inner.shutdown std self.inner how

  unfoldable pub take_error : TcpStream → Io W (Option IoError)
  unfolding Inner.take_error
  take_error self = Inner.take_error std self.inner

  unfoldable pub read : TcpStream → ℕ → Io W (List ℕ)
  unfolding Inner.read
  read self buf = Inner.read std self.inner buf

  unfoldable pub write : TcpStream → List ℕ → Io W ℕ
  unfolding Inner.write
  write self buf = Inner.write std self.inner buf

  unfoldable pub flush : TcpStream → Io W (Unit {0})
  unfolding Inner.flush
  flush self = Inner.flush std self.inner

-- `Evented`.
module _ (flags : EpollFlags) {W : Type 0} (kernel : EpollKernel W) where
  unfoldable pub register :
      TcpStream → OsQueue → EventId → Interests → RegisterOption → Io W (Unit {0})
  unfolding Inner.register
  register self os_queue id interests opt =
      Inner.register flags kernel self.inner os_queue id interests opt

  unfoldable pub reregister :
      TcpStream → OsQueue → EventId → Interests → RegisterOption → Io W (Unit {0})
  unfolding Inner.reregister
  reregister self os_queue id interests opt =
      Inner.reregister flags kernel self.inner os_queue id interests opt

  unfoldable pub deregister : TcpStream → OsQueue → Io W (Unit {0})
  unfolding Inner.deregister
  deregister self os_queue = Inner.deregister flags kernel self.inner os_queue
