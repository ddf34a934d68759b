-- ===== src/Server/Waiting.antt =====
-- examples/tcp_server.rs: an accept takes a connection from those that wait to be accepted.
use gaea.Base.{ℕ, ◌≤◌, ◌<◌, ◌≡◌, refl, Bool, true, List, arith, ok, err, IoResult}
use gaea.Base.Io.{Io, pure, ◌>>◌}
use gaea.Sys.Epoll.Abi.{EpollKernel}
use gaea.Sys.Net.{TcpStream, TcpListener, accept, or_drop}
use gaea.Sys.Net.Abi.{SocketAddr, StdSockets}
use gaea.Server.Abi.{IsSystem}

-- An accept that succeeds leaves fewer connections to accept, and one that fails no more.
abbrev pub Fewer : {W A : Type 0} → (W → ℕ) → W → IoResult A × W → Type 0
Fewer waiting w (ok a, w') = waiting w' < waiting w
Fewer waiting w (err e, w') = waiting w' ≤ waiting w

module _ {W : Type 0} (kernel : EpollKernel W) (std : StdSockets W) (write : ℕ → List ℕ → Io W ℕ)
    (opened : W → List ℕ) (nonblocking : W → ℕ → Bool) (waiting : W → ℕ)
    (law : IsSystem kernel std write opened nonblocking waiting) where
  nonblocking-Fewer :
      (b : TcpStream × SocketAddr) (fd : ℕ) (w w₁ : W)
      → waiting w₁ < waiting w
      → Fewer waiting w ((or_drop std fd (std.set_nonblocking fd true) >> pure b) w₁)
  nonblocking-Fewer b fd w w₁ h =
      go (std.set_nonblocking fd true w₁) (law.set_nonblocking_quiet fd true w₁)
    where
      go :
          (x : IoResult (Unit {0}) × W)
          → waiting x.1 ≤ waiting w₁
          → Fewer waiting w ((or_drop std fd (λ _. x) >> pure b) w₁)
      go (ok u, w₂) q = omega arith
      go (err e, w₂) q = omega (arith, law.drop_quiet fd w₂)

  pub accept-Fewer : (listener : TcpListener) (w : W) → Fewer waiting w (accept std listener w)
  unfolding accept
  accept-Fewer listener w = go (std.accept listener.listener w) refl
    where
      rest : ℕ × SocketAddr → Io W (TcpStream × SocketAddr)
      rest x = or_drop std x.0 (std.set_nonblocking x.0 true) >> pure (record { stream = x.0 }, x.1)

      go :
          (x : IoResult (ℕ × SocketAddr) × W)
          → std.accept listener.listener w ≡ x
          → Fewer waiting w (elim x.0 as (λ y. IoResult (TcpStream × SocketAddr) × W) [
            | err e ↦ (err e, x.1)
            | ok a ↦ rest a x.1
          ])
      go (ok a, w₁) e = nonblocking-Fewer _ a.0 w w₁ (law.accepted _ a w w₁ e)
      go (err x, w₁) e = law.accept_failed _ x w w₁ e
