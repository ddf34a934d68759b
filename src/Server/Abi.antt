-- ===== src/Server/Abi.antt =====
-- What examples/tcp_server.rs relies on of the system and of the standard library.
use gaea.Base.{◌∷◌, would_block}
use gaea.Base.{ℕ, ◌≤◌, ◌<◌, ◌≡◌, Bool, Option, List, ok, err, IoError}
use gaea.Base.Io.{Io}
use gaea.Sys.Epoll.Abi.{EpEvent, CtlOp, EpollKernel}
use gaea.Sys.Net.Abi.{SocketAddr, StdSockets, OwnsSockets, Keeps}

-- A call that makes no more connections wait.
abbrev pub Quiet : {W A : Type 0} → (W → ℕ) → Io W A → Type 0
Quiet {W} waiting m = (w : W) → waiting (m w).1 ≤ waiting w

-- Dropping a socket closes its descriptor, and no other call opens or closes one but those of the
-- standard library that create a socket. `waiting` bounds the connections that
-- are still to be accepted, of which there are finitely many: each is accepted once.
pub record IsSystem {W : Type 0} (kernel : EpollKernel W) (std : StdSockets W)
    (write : ℕ → List ℕ → Io W ℕ) (opened : W → List ℕ) (nonblocking : W → ℕ → Bool)
    (waiting : W → ℕ) : Type 0 where
  pub owns : OwnsSockets std opened nonblocking
  pub ctl_keeps :
      (epfd : ℕ) (op : CtlOp) (fd : ℕ) (event : Option EpEvent)
      → Keeps opened (kernel.epoll_ctl epfd op fd event)
  pub write_keeps : (fd : ℕ) (bytes : List ℕ) → Keeps opened (write fd bytes)
  pub accepted :
      (fd : ℕ) (x : ℕ × SocketAddr) (w w' : W)
      → std.accept fd w ≡ (ok x, w')
      → waiting w' < waiting w
  pub accept_failed :
      (fd : ℕ) (e : IoError) (w w' : W) → std.accept fd w ≡ (err e, w') → waiting w' ≤ waiting w
  pub set_nonblocking_quiet : (fd : ℕ) (b : Bool) → Quiet waiting (std.set_nonblocking fd b)
  pub ctl_quiet :
      (epfd : ℕ) (op : CtlOp) (fd : ℕ) (event : Option EpEvent)
      → Quiet waiting (kernel.epoll_ctl epfd op fd event)
  pub write_quiet : (fd : ℕ) (bytes : List ℕ) → Quiet waiting (write fd bytes)
  pub wait_keeps : (epfd cap : ℕ) (t : Option ℕ) → Keeps opened (kernel.epoll_wait epfd cap t)
  pub wait_quiet : (epfd cap : ℕ) (t : Option ℕ) → Quiet waiting (kernel.epoll_wait epfd cap t)
  pub drop_quiet : (fd : ℕ) (w : W) → waiting (std.drop fd w) ≤ waiting w

-- `log` has the connections that the system has handed out, the last one first: an accept that
-- succeeds hands out one, and no other call does. Making a socket non-blocking never would block.
pub record IsLog {W : Type 0} (kernel : EpollKernel W) (std : StdSockets W)
    (log : W → List (ℕ × SocketAddr)) : Type 0 where
  pub accepted :
      (fd : ℕ) (x : ℕ × SocketAddr) (w w' : W) → std.accept fd w ≡ (ok x, w') → log w' ≡ x ∷ log w
  pub accept_failed :
      (fd : ℕ) (e : IoError) (w w' : W) → std.accept fd w ≡ (err e, w') → log w' ≡ log w
  pub set_nonblocking_keeps : (fd : ℕ) (b : Bool) → Keeps log (std.set_nonblocking fd b)
  pub set_nonblocking_returns :
      (fd : ℕ) (b : Bool) (w w' : W) → std.set_nonblocking fd b w ≡ (err would_block, w') → ⊥
  pub ctl_keeps :
      (epfd : ℕ) (op : CtlOp) (fd : ℕ) (event : Option EpEvent)
      → Keeps log (kernel.epoll_ctl epfd op fd event)
