-- ===== src/Sys/Net/Std.antt =====
-- What src/sys/unix takes from the standard library for sockets that exist and for the ends of pipes:
-- the methods of `TcpStream`, `TcpListener`, `UdpSocket` and `File`, which are their descriptors. A
-- buffer to read into is its length; the result is the bytes that were put at its front, in place of
-- their number.
use gaea.Base.{ℕ, Bool, Option, List, IoError}
use gaea.Base.Io.{Io}
use gaea.Sys.Net.Abi.{SocketAddr}

pub data Shutdown : Type 0 where
  shutdown_read shutdown_write shutdown_both : Shutdown

pub record StdTcp (W : Type 0) : Type 0 where
  pub peer_addr : ℕ → Io W SocketAddr
  pub local_addr : ℕ → Io W SocketAddr
  pub set_ttl : ℕ → ℕ → Io W (Unit {0})
  pub ttl : ℕ → Io W ℕ
  pub set_nodelay : ℕ → Bool → Io W (Unit {0})
  pub nodelay : ℕ → Io W Bool
  pub peek : ℕ → ℕ → Io W (List ℕ)
  pub shutdown : ℕ → Shutdown → Io W (Unit {0})
  pub take_error : ℕ → Io W (Option IoError)
  pub read : ℕ → ℕ → Io W (List ℕ)
  pub write : ℕ → List ℕ → Io W ℕ
  pub flush : ℕ → Io W (Unit {0})

pub record StdUdp (W : Type 0) : Type 0 where
  pub local_addr : ℕ → Io W SocketAddr
  pub send_to : ℕ → List ℕ → SocketAddr → Io W ℕ
  pub recv_from : ℕ → ℕ → Io W (List ℕ × SocketAddr)
  pub peek_from : ℕ → ℕ → Io W (List ℕ × SocketAddr)
  pub connect : ℕ → SocketAddr → Io W (Unit {0})
  pub send : ℕ → List ℕ → Io W ℕ
  pub recv : ℕ → ℕ → Io W (List ℕ)
  pub peek : ℕ → ℕ → Io W (List ℕ)
  pub take_error : ℕ → Io W (Option IoError)

pub record StdFile (W : Type 0) : Type 0 where
  pub read : ℕ → ℕ → Io W (List ℕ)
  pub write : ℕ → List ℕ → Io W ℕ
  pub flush : ℕ → Io W (Unit {0})
