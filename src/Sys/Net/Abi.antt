-- ===== src/Sys/Net/Abi.antt =====
-- What src/sys/unix/tcp.rs and src/sys/unix/pipe.rs take from libc, the kernel and the standard
-- library: constants, and system calls with their documented behaviour.
use gaea.Base.Io.{Io}
use gaea.Base.{ℕ, ◌≡◌, Bool, true, false, Option, none, some, List, [], ◌∷◌, Perm, IoError, ok, err}

pub data SocketAddr : Type 0 where
  v4 v6 : ℕ → SocketAddr

pub record SocketFlags : Type 0 where
  pub af_inet : ℕ
  pub af_inet6 : ℕ
  pub sol_socket : ℕ
  pub so_reuseport : ℕ
  pub so_reuseaddr : ℕ

-- `setsockopt` has the descriptor, the level, the name and the value; `set_nonblocking` is `fcntl`
-- with `F_SETFL` and `O_NONBLOCK`.
pub record SocketKernel (W : Type 0) : Type 0 where
  pub socket : ℕ → Io W ℕ
  pub pipe : Io W (ℕ × ℕ)
  pub set_nonblocking : ℕ → Io W (Unit {0})
  pub setsockopt : ℕ → ℕ → ℕ → ℕ → Io W (Unit {0})
  pub connect : ℕ → SocketAddr → Io W (Unit {0})
  pub bind : ℕ → SocketAddr → Io W (Unit {0})
  pub listen : ℕ → ℕ → Io W (Unit {0})

-- A call that leaves something of the world as it is.
abbrev pub Keeps : {W A X : Type 0} → (W → X) → Io W A → Type 0
Keeps {W} opened m = (w : W) → opened (m w).1 ≡ opened w

-- Which descriptors a process has open, as the manual pages say it: `socket`
-- opens a descriptor when it succeeds, and no call but that and `pipe` opens or closes one.
pub record TracksOpen {W : Type 0} (k : SocketKernel W) (opened : W → List ℕ) : Type 0 where
  pub socket_opens :
      (family fd : ℕ) (w w' : W) → k.socket family w ≡ (ok fd, w') → opened w' ≡ fd ∷ opened w
  pub set_nonblocking_keeps : (fd : ℕ) → Keeps opened (k.set_nonblocking fd)
  pub setsockopt_keeps : (fd level name value : ℕ) → Keeps opened (k.setsockopt fd level name value)
  pub connect_keeps : (fd : ℕ) (a : SocketAddr) → Keeps opened (k.connect fd a)
  pub bind_keeps : (fd : ℕ) (a : SocketAddr) → Keeps opened (k.bind fd a)
  pub listen_keeps : (fd backlog : ℕ) → Keeps opened (k.listen fd backlog)

-- The state of a socket.
pub record Socket : Type 0 where
  pub nonblocking : Bool
  pub options : List (ℕ × ℕ × ℕ)
  pub bound : Option SocketAddr
  pub backlog : Option ℕ

-- The effects of the calls that succeed, as the manual pages say it, on the state of a socket.
pub record HasSockets {W : Type 0} (k : SocketKernel W) (state : W → ℕ → Socket) : Type 0 where
  pub created :
      (family fd : ℕ) (w w' : W)
      → k.socket family w ≡ (ok fd, w')
      → state w' fd ≡ record { nonblocking = false; options = []; bound = none; backlog = none }
  pub nonblocking_set :
      (fd : ℕ) (w w' : W)
      → k.set_nonblocking fd w ≡ (ok tt, w')
      → state w' fd ≡ record (state w fd) { nonblocking = true }
  pub option_set :
      (fd level name value : ℕ) (w w' : W)
      → k.setsockopt fd level name value w ≡ (ok tt, w')
      → state w' fd ≡ record (state w fd) { options = (level, name, value) ∷ (state w fd).options }
  pub bound_to :
      (fd : ℕ) (a : SocketAddr) (w w' : W)
      → k.bind fd a w ≡ (ok tt, w')
      → state w' fd ≡ record (state w fd) { bound = some a }
  pub listening :
      (fd n : ℕ) (w w' : W)
      → k.listen fd n w ≡ (ok tt, w')
      → state w' fd ≡ record (state w fd) { backlog = some n }

-- The methods of the sockets of the standard library, which are their descriptors, and what
-- dropping such a socket does.
pub record StdSockets (W : Type 0) : Type 0 where
  pub accept : ℕ → Io W (ℕ × SocketAddr)
  pub bind_udp : SocketAddr → Io W ℕ
  pub try_clone : ℕ → Io W ℕ
  pub set_nonblocking : ℕ → Bool → Io W (Unit {0})
  pub drop : ℕ → W → W

-- A call that opens a descriptor, which it returns, if it succeeds.
abbrev pub Opens : {W A : Type 0} → (W → List ℕ) → (A → ℕ) → Io W A → Type 0
Opens {W} {A} opened fd m =
    ((a : A) (w w' : W) → m w ≡ (ok a, w') → Perm (opened w') (fd a ∷ opened w))
    × ((e : IoError) (w w' : W) → m w ≡ (err e, w') → Perm (opened w') (opened w))

-- A socket of the standard library owns its descriptor: dropping it closes the descriptor. Whether
-- a socket is non-blocking is changed by `set_nonblocking` only.
pub record OwnsSockets {W : Type 0} (std : StdSockets W) (opened : W → List ℕ)
    (nonblocking : W → ℕ → Bool) : Type 0 where
  pub accept_opens : (fd : ℕ) → Opens opened (λ (x : ℕ × SocketAddr). x.0) (std.accept fd)
  pub bind_udp_opens : (a : SocketAddr) → Opens opened (λ x. x) (std.bind_udp a)
  pub try_clone_opens : (fd : ℕ) → Opens opened (λ x. x) (std.try_clone fd)
  pub set_nonblocking_keeps : (fd : ℕ) (b : Bool) → Keeps opened (std.set_nonblocking fd b)
  pub nonblocking_set :
      (fd : ℕ) (b : Bool) (w w' : W)
      → std.set_nonblocking fd b w ≡ (ok tt, w')
      → nonblocking w' fd ≡ b
  pub dropped :
      (fd : ℕ) (w : W) (rest : List ℕ)
      → Perm (opened w) (fd ∷ rest)
      → Perm (opened (std.drop fd w)) rest
