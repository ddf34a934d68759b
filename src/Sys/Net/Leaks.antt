-- ===== src/Sys/Net/Leaks.antt =====
-- src/sys/unix/tcp.rs: what becomes of the descriptor when a socket cannot be set up.
use gaea.Base.Io.{Io, ◌>>=◌}
use gaea.Base.{
  ℕ, ◌≡◌, refl, ap, ◌∙◌, List, ◌∷◌, ok, err, would_block, interrupted, in_progress, raw, IoResult,
}
use gaea.Sys.Net.Abi.{SocketAddr, SocketFlags, SocketKernel, Keeps, TracksOpen}
use gaea.Sys.Net.Stages.{
  listener, to_listen, to_bind, to_nonblocking, to_reuseaddr, to_reuseport, stream, to_connect,
  stream_nonblocking,
}
use gaea.Sys.Net.{connect, bind, enable_socket_option, in_progress_ok, socket_family}

module _ {W : Type 0} (opened : W → List ℕ) where
  pub then-Keeps :
      {A B : Type 0} (m : Io W A) (f : A → Io W B)
      → Keeps opened m
      → ((a : A) → Keeps opened (f a))
      → Keeps opened (m >>= f)
  then-Keeps {A} {B} m f p q w = go (m w).0 (m w).1 (p w)
    where
      go :
          (r : IoResult A) (w' : W)
          → opened w' ≡ opened w
          → opened (elim r as (λ x. IoResult B × W) [ err e ↦ (err e, w') | ok a ↦ f a w' ]).1
            ≡ opened w
      go (ok a) w' e = q a w' ∙ e
      go (err x) w' e = e

  pub opens_then :
      {A B : Type 0} (m : Io W A) (f : A → Io W B) (a : A) (w w' : W)
      → m w ≡ (ok a, w')
      → Keeps opened (f a)
      → opened ((m >>= f) w).1 ≡ opened w'
  opens_then {A} {B} m f a w w' e q =
      ap
        (λ x.
          opened (elim x.0 as (λ y. IoResult B × W) [ err e ↦ (err e, x.1) | ok b ↦ f b x.1 ]).1)
        e
      ∙ q w'

  in_progress-Keeps : (m : Io W (Unit {0})) → Keeps opened m → Keeps opened (in_progress_ok m)
  in_progress-Keeps m p w = go (m w).0 (m w).1 (p w)
    where
      go :
          (r : IoResult (Unit {0})) (w' : W)
          → opened w' ≡ opened w
          → opened (in_progress_ok (λ x. (r, w')) w).1 ≡ opened w
      go (ok a) w' e = e
      go (err in_progress) w' e = e
      go (err would_block) w' e = e
      go (err interrupted) w' e = e
      go (err (raw n)) w' e = e

module _ (c : SocketFlags) {W : Type 0} (k : SocketKernel W) (opened : W → List ℕ)
    (law : TracksOpen k opened) where
  -- If the system calls open and close descriptors only as documented, then once `connect` or
  -- `bind` has its socket, the descriptor of the socket is open when it returns, whether it
  -- succeeds or returns an error: nothing closes the descriptor on an error.
  pub connect-bind-leak :
      (address : SocketAddr) (fd : ℕ) (w w' : W)
      → k.socket (socket_family c address) w ≡ (ok fd, w')
      → (opened (connect c k address w).1 ≡ fd ∷ opened w)
        × (opened (bind c k address w).1 ≡ fd ∷ opened w)
  unfolding connect bind enable_socket_option
  connect-bind-leak address fd w w' e = (
    opens_then opened (k.socket _) (stream_nonblocking c k address) fd w w' e stream_kept
        ∙ law.socket_opens _ fd w w' e,
    opens_then opened (k.socket _) (to_reuseport c k address) fd w w' e listener_kept
        ∙ law.socket_opens _ fd w w' e,
  )
    where
      stream_kept : Keeps opened (stream_nonblocking c k address fd)
      stream_kept =
          then-Keeps opened _ (λ _. to_connect c k address fd) (law.set_nonblocking_keeps fd)
            (λ _.
              then-Keeps opened _ (λ _. stream c k address fd)
                (in_progress-Keeps opened _ (law.connect_keeps fd address)) (λ _ _. refl))

      listener_kept : Keeps opened (to_reuseport c k address fd)
      listener_kept =
          then-Keeps opened _ (λ _. to_reuseaddr c k address fd) (law.setsockopt_keeps fd _ _ 1)
            (λ _.
              then-Keeps opened _ (λ _. to_nonblocking c k address fd)
                (law.setsockopt_keeps fd _ _ 1)
                (λ _.
                  then-Keeps opened _ (λ _. to_bind c k address fd) (law.set_nonblocking_keeps fd)
                    (λ _.
                      then-Keeps opened _ (λ _. to_listen c k address fd)
                        (law.bind_keeps fd address)
                        (λ _.
                          then-Keeps opened _ (λ _. listener c k address fd)
                            (law.listen_keeps fd 128) (λ _ _. refl)))))
