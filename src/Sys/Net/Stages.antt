-- ===== src/Sys/Net/Stages.antt =====
-- src/sys/unix/tcp.rs: what is left to do at each step of `connect` and of `bind`.
use gaea.Base.Io.{Io, pure, ◌>>◌}
use gaea.Base.{ℕ}
use gaea.Sys.Net.Abi.{SocketAddr, SocketFlags, SocketKernel}
use gaea.Sys.Net.{TcpListener, TcpStream, in_progress_ok}

module _ (c : SocketFlags) {W : Type 0} (k : SocketKernel W) (address : SocketAddr) (fd : ℕ) where
  abbrev pub listener : Io W TcpListener
  listener = pure (record { listener = fd })

  abbrev pub to_listen : Io W TcpListener
  to_listen = k.listen fd 128 >> listener

  abbrev pub to_bind : Io W TcpListener
  to_bind = k.bind fd address >> to_listen

  abbrev pub to_nonblocking : Io W TcpListener
  to_nonblocking = k.set_nonblocking fd >> to_bind

  abbrev pub to_reuseaddr : Io W TcpListener
  to_reuseaddr = k.setsockopt fd c.sol_socket c.so_reuseaddr 1 >> to_nonblocking

  abbrev pub to_reuseport : Io W TcpListener
  to_reuseport = k.setsockopt fd c.sol_socket c.so_reuseport 1 >> to_reuseaddr

  abbrev pub stream : Io W TcpStream
  stream = pure (record { stream = fd })

  abbrev pub to_connect : Io W TcpStream
  to_connect = in_progress_ok (k.connect fd address) >> stream

  abbrev pub stream_nonblocking : Io W TcpStream
  stream_nonblocking = k.set_nonblocking fd >> to_connect
