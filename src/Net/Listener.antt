-- ===== src/Net/Listener.antt =====
-- src/net/tcp.rs: `TcpListener`.
use gaea.Event.{EventId}
use gaea.Os.Options.{RegisterOption}
use gaea.Os.Queue.{OsQueue}
use gaea.Os.Evented.{debug_assert}
use gaea.Sys.Epoll.Abi.{EpollFlags, EpollKernel}
use gaea.Base.{not, ℕ, Option, IoError}
use gaea.Base.Io.{Io, pure, ◌>>=◌}
use gaea.Os.Interests.{is_writable, Interests, interests_readable}
use gaea.Sys.Net.Abi.{SocketAddr, SocketFlags, SocketKernel, StdSockets}
use gaea.Sys.Net.Std.{StdTcp}
use gaea.Sys.Net as Sys
use gaea.Sys.Net.Listener as Inner
use gaea.Net.Stream.{TcpStream}

pub record TcpListener : Type 0 where
  pub inner : Sys.TcpListener

-- The constant `INTERESTS`.
abbrev pub interests : Interests
interests = interests_readable

unfoldable pub from_raw_fd : ℕ → TcpListener
unfolding Inner.from_raw_fd
from_raw_fd fd = record { inner = Inner.from_raw_fd fd }

unfoldable pub into_raw_fd : TcpListener → ℕ
unfolding Inner.into_raw_fd
into_raw_fd self = Inner.into_raw_fd self.inner

unfoldable pub as_raw_fd : TcpListener → ℕ
unfolding Inner.as_raw_fd
as_raw_fd self = Inner.as_raw_fd self.inner

module _ (c : SocketFlags) {W : Type 0} (k : SocketKernel W) where
  unfoldable pub bind : SocketAddr → Io W TcpListener
  unfolding Sys.bind
  bind address = do inner ← Sys.bind c k address; pure (record { inner = inner })

module _ {W : Type 0} (sockets : StdSockets W) where
  unfoldable pub try_clone : TcpListener → Io W TcpListener
  unfolding Sys.try_clone
  try_clone self = do inner ← Sys.try_clone sockets self.inner; pure (record { inner = inner })

  unfoldable pub accept : TcpListener → Io W (TcpStream × SocketAddr)
  unfolding Sys.accept
  accept self = do
    (inner, address) ← Sys.accept sockets self.inner
    pure (record { inner = inner }, address)

module _ {W : Type 0} (std : StdTcp W) where
  unfoldable pub local_addr : TcpListener → Io W SocketAddr
  unfolding Inner.local_addr
  local_addr self = Inner.local_addr std self.inner

  unfoldable pub set_ttl : TcpListener → ℕ → Io W (Unit {0})
  unfolding Inner.set_ttl
  set_ttl self value = Inner.set_ttl std self.inner value

  unfoldable pub ttl : TcpListener → Io W ℕ
  unfolding Inner.ttl
  ttl self = Inner.ttl std self.inner

  unfoldable pub take_error : TcpListener → Io W (Option IoError)
  unfolding Inner.take_error
  take_error self = Inner.take_error std self.inner

-- `Evented`.
module _ (flags : EpollFlags) {W : Type 0} (kernel : EpollKernel W) where
  unfoldable pub register :
      TcpListener → OsQueue → EventId → Interests → RegisterOption → Option (Io W (Unit {0}))
  unfolding Inner.register
  register self os_queue id interests opt =
      debug_assert (not (is_writable interests)) flags.debug_assertions
        (Inner.register flags kernel self.inner os_queue id interests opt)

  unfoldable pub reregister :
      TcpListener → OsQueue → EventId → Interests → RegisterOption → Option (Io W (Unit {0}))
  unfolding Inner.reregister
  reregister self os_queue id interests opt =
      debug_assert (not (is_writable interests)) flags.debug_assertions
        (Inner.reregister flags kernel self.inner os_queue id interests opt)

  unfoldable pub deregister : TcpListener → OsQueue → Io W (Unit {0})
  unfolding Inner.deregister
  deregister self os_queue = Inner.deregister flags kernel self.inner os_queue
