-- ===== src/Sys/Net/Sockets.antt =====
-- src/sys/unix/tcp.rs: the sockets that `bind` returns.
use gaea.Base.Io.{Io, ◌>>=◌}
use gaea.Base.{ℕ, ◌≡◌, refl, sym, ap, ◌∙◌, true, some, [], ◌∷◌, ok, err, IoResult}
use gaea.Sys.Net.Abi.{SocketAddr, SocketFlags, SocketKernel, Socket, HasSockets}
use gaea.Sys.Net.Stages.{listener, to_listen, to_bind, to_nonblocking, to_reuseaddr, to_reuseport}
use gaea.Sys.Net.{TcpListener, bind, enable_socket_option}

-- What succeeds has each of its two parts succeed.
pub then_ok :
    {W A B : Type 0} (m : Io W A) (f : A → Io W B) (b : B) (w w' : W)
    → (m >>= f) w ≡ (ok b, w')
    → (a : A) × (w₁ : W) × (m w ≡ (ok a, w₁)) × (f a w₁ ≡ (ok b, w'))
then_ok {W} {A} {B} m f b w w' e = go (m w) refl e
  where
    go :
        (x : IoResult A × W)
        → m w ≡ x
        → (elim x.0 as (λ y. IoResult B × W) [ err e ↦ (err e, x.1) | ok a ↦ f a x.1 ]) ≡ (ok b, w')
        → (a : A) × (w₁ : W) × (m w ≡ (ok a, w₁)) × (f a w₁ ≡ (ok b, w'))
    go (ok a, w₁) p q = (a, w₁, p, q)
    go (err x, w₁) p q = cc

descriptor : IoResult TcpListener → ℕ
descriptor (ok l) = l.listener
descriptor (err e) = 0

module _ (c : SocketFlags) {W : Type 0} (k : SocketKernel W) (state : W → ℕ → Socket)
    (law : HasSockets k state) where
  -- If the system calls have their documented effects on the state of a socket, a listener that
  -- `bind` returns is a non-blocking socket that is bound to the address, listens with a backlog of
  -- 128, and has both `SO_REUSEPORT` and `SO_REUSEADDR` set to one, and no other option.
  pub bind_listener :
      (address : SocketAddr) (l : TcpListener) (w w' : W)
      → bind c k address w ≡ (ok l, w')
      → state w' l.listener ≡ record {
        nonblocking = true;
        options = (c.sol_socket, c.so_reuseaddr, 1) ∷ (c.sol_socket, c.so_reuseport, 1) ∷ [];
        bound = some address;
        backlog = some 128;
      }
  unfolding descriptor bind enable_socket_option
  bind_listener address l w w' e =
      let (fd, w₁, e₁, r₁) = then_ok (k.socket _) (to_reuseport c k address) l w w' e in
      let (_, w₂, e₂, r₂) =
        then_ok (k.setsockopt fd _ _ 1) (λ _. to_reuseaddr c k address fd) l w₁ w' r₁ in
      let (_, w₃, e₃, r₃) =
        then_ok (k.setsockopt fd _ _ 1) (λ _. to_nonblocking c k address fd) l w₂ w' r₂ in
      let (_, w₄, e₄, r₄) =
        then_ok (k.set_nonblocking fd) (λ _. to_bind c k address fd) l w₃ w' r₃ in
      let (_, w₅, e₅, r₅) =
        then_ok (k.bind fd address) (λ _. to_listen c k address fd) l w₄ w' r₄ in
      let (_, w₆, e₆, r₆) = then_ok (k.listen fd 128) (λ _. listener c k address fd) l w₅ w' r₅ in
      let step₂ =
        law.option_set fd _ _ 1 w₁ w₂ e₂
        ∙ ap {A = Socket} {B = Socket}
            (λ s. record s { options = (c.sol_socket, c.so_reuseport, 1) ∷ s.options })
            (law.created _ fd w w₁ e₁) in
      let step₃ =
        law.option_set fd _ _ 1 w₂ w₃ e₃
        ∙ ap {A = Socket} {B = Socket}
            (λ s. record s { options = (c.sol_socket, c.so_reuseaddr, 1) ∷ s.options }) step₂ in
      let step₄ =
        law.nonblocking_set fd w₃ w₄ e₄
        ∙ ap {A = Socket} {B = Socket} (λ s. record s { nonblocking = true }) step₃ in
      let step₅ =
        law.bound_to fd address w₄ w₅ e₅
        ∙ ap {A = Socket} {B = Socket} (λ s. record s { bound = some address }) step₄ in
      let step₆ =
        law.listening fd 128 w₅ w₆ e₆
        ∙ ap {A = Socket} {B = Socket} (λ s. record s { backlog = some 128 }) step₅ in
      ap (λ p. state p.1 (descriptor p.0)) (sym r₆) ∙ step₆
