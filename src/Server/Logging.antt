-- ===== src/Server/Logging.antt =====
-- examples/tcp_server.rs: which connections an accept takes.
use gaea.Base.{
  ℕ, ◌≡◌, refl, sym, ap, ◌∙◌, true, List, ◌∷◌, ok, err, would_block, interrupted, in_progress, raw,
  IoResult,
}
use gaea.Base.Io.{Io, pure, ◌>>◌}
use gaea.Sys.Epoll.Abi.{EpollKernel}
use gaea.Sys.Net.{TcpStream, TcpListener, accept, or_drop}
use gaea.Sys.Net.Abi.{SocketAddr, StdSockets}
use gaea.Server.Abi.{IsLog}

-- An accept that succeeds gives the connection that the system has handed out, and one that would
-- block has not taken any.
abbrev pub Logged :
    {W : Type 0} → (W → List (ℕ × SocketAddr)) → W → IoResult (TcpStream × SocketAddr) × W → Type 0
Logged log w (ok (stream, a), w') = log w' ≡ (stream.stream, a) ∷ log w
Logged log w (err would_block, w') = log w' ≡ log w
Logged log w (err e, w') = Unit {0}

module _ {W : Type 0} (kernel : EpollKernel W) (std : StdSockets W)
    (log : W → List (ℕ × SocketAddr)) (law : IsLog kernel std log) where
  nonblocking-Logged :
      (x : ℕ × SocketAddr) (w w₁ : W)
      → log w₁ ≡ x ∷ log w
      → Logged log w (
          (or_drop std x.0 (std.set_nonblocking x.0 true) >> pure (record { stream = x.0 }, x.1))
            w₁)
  nonblocking-Logged x w w₁ h = go (std.set_nonblocking x.0 true w₁) refl
    where
      go :
          (r : IoResult (Unit {0}) × W)
          → std.set_nonblocking x.0 true w₁ ≡ r
          → Logged log w ((or_drop std x.0 (λ _. r) >> pure (record { stream = x.0 }, x.1)) w₁)
      go (ok u, w₂) e = ap (λ y. log y.1) (sym e) ∙ law.set_nonblocking_keeps x.0 true w₁ ∙ h
      go (err would_block, w₂) e = absurd (law.set_nonblocking_returns x.0 true w₁ w₂ e)
      go (err interrupted, w₂) e = tt
      go (err in_progress, w₂) e = tt
      go (err (raw n), w₂) e = tt

  pub accept-Logged : (listener : TcpListener) (w : W) → Logged log w (accept std listener w)
  unfolding accept
  accept-Logged listener w = go (std.accept listener.listener w) refl
    where
      rest : ℕ × SocketAddr → Io W (TcpStream × SocketAddr)
      rest x = or_drop std x.0 (std.set_nonblocking x.0 true) >> pure (record { stream = x.0 }, x.1)

      go :
          (x : IoResult (ℕ × SocketAddr) × W)
          → std.accept listener.listener w ≡ x
          → Logged log w (elim x.0 as (λ y. IoResult (TcpStream × SocketAddr) × W) [
            | err e ↦ (err e, x.1)
            | ok a ↦ rest a x.1
          ])
      go (ok a, w₁) e = nonblocking-Logged a w w₁ (law.accepted _ a w w₁ e)
      go (err would_block, w₁) e = law.accept_failed _ _ w w₁ e
      go (err interrupted, w₁) e = tt
      go (err in_progress, w₁) e = tt
      go (err (raw n), w₁) e = tt
