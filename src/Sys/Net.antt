-- ===== src/Sys/Net.antt =====
-- src/sys/unix/tcp.rs, src/sys/unix/udp.rs and src/sys/unix/pipe.rs: creating sockets and pipes.
-- `net::TcpStream`, `net::TcpListener` and `File` are their descriptors, and in `Owned` sockets of
-- the standard library, with `accept`, `try_clone` and `bind` of UDP; the system calls are
-- parameters, in `Abi`. The methods on sockets and pipes that exist are in `Stream`, `Listener`,
-- `Udp` and `Pipe`, and what they call is in `Std`.
pub mod Abi
pub mod Sockets
pub mod Leaks
pub mod Stages
pub mod Owned
pub mod Std
pub mod Stream
pub mod Listener
pub mod Udp
pub mod Pipe
use gaea.Base.Io.{Io, pure, ◌>>=◌, ◌>>◌}
use gaea.Base.{ℕ, true, ok, err, in_progress}
use Abi.{SocketAddr, v4, v6, SocketFlags, SocketKernel, StdSockets}

pub record TcpStream : Type 0 where
  pub stream : ℕ

pub record TcpListener : Type 0 where
  pub listener : ℕ

pub record UdpSocket : Type 0 where
  pub socket : ℕ

-- `match address`.
abbrev pub socket_family : SocketFlags → SocketAddr → ℕ
socket_family c (v4 a) = c.af_inet
socket_family c (v6 a) = c.af_inet6

-- The test of the error of `connect`.
abbrev pub in_progress_ok : {W : Type 0} → Io W (Unit {0}) → Io W (Unit {0})
in_progress_ok m w =
    let (r, w') = m w in
    elim r [ ok u ↦ (ok tt, w') | err in_progress ↦ (ok tt, w') | err e ↦ (err e, w') ]

module _ (c : SocketFlags) {W : Type 0} (k : SocketKernel W) where
  unfoldable pub connect : SocketAddr → Io W TcpStream
  connect address = do
    socket_fd ← k.socket (socket_family c address)
    k.set_nonblocking socket_fd
    in_progress_ok (k.connect socket_fd address)
    pure (record { stream = socket_fd })

  unfoldable pub enable_socket_option : ℕ → ℕ → ℕ → Io W (Unit {0})
  enable_socket_option fd level name = k.setsockopt fd level name 1

  unfoldable pub bind : SocketAddr → Io W TcpListener
  bind address = do
    socket_fd ← k.socket (socket_family c address)
    enable_socket_option socket_fd c.sol_socket c.so_reuseport
    enable_socket_option socket_fd c.sol_socket c.so_reuseaddr
    k.set_nonblocking socket_fd
    k.bind socket_fd address
    k.listen socket_fd 128
    pure (record { listener = socket_fd })

  -- The sender and the receiver.
  unfoldable pub new_pipe : Io W (ℕ × ℕ)
  new_pipe = do (r, w) ← k.pipe; k.set_nonblocking r; k.set_nonblocking w; pure (w, r)

-- `?` behind a call on a socket that the function owns: on an error the socket is dropped.
abbrev pub or_drop : {W : Type 0} → StdSockets W → ℕ → Io W (Unit {0}) → Io W (Unit {0})
or_drop std fd m w =
    let (r, w') = m w in elim r [ ok u ↦ (ok tt, w') | err e ↦ (err e, std.drop fd w') ]

module _ {W : Type 0} (std : StdSockets W) where
  unfoldable pub accept : TcpListener → Io W (TcpStream × SocketAddr)
  accept self = do
    (stream, address) ← std.accept self.listener
    or_drop std stream (std.set_nonblocking stream true)
    pure (record { stream = stream }, address)

  -- The clone shares the state of the listener, so that it is non-blocking as well.
  unfoldable pub try_clone : TcpListener → Io W TcpListener
  try_clone self = do listener ← std.try_clone self.listener; pure (record { listener = listener })

  unfoldable pub bind_udp : SocketAddr → Io W UdpSocket
  bind_udp address = do
    socket ← std.bind_udp address
    or_drop std socket (std.set_nonblocking socket true)
    pure (record { socket = socket })
