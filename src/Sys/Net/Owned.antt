-- ===== src/Sys/Net/Owned.antt =====
-- src/sys/unix/tcp.rs and src/sys/unix/udp.rs: the sockets that stand on those of the standard
-- library own their descriptors.
use gaea.Base.Io.{Io, pure, ◌>>=◌, ◌>>◌}
use gaea.Base.{ℕ, ◌≡◌, refl, sym, ap, subst, ◌∙◌, Bool, true, List, ◌∷◌, Perm, ok, err, IoResult}
use gaea.Sys.Net.Abi.{SocketAddr, StdSockets, Opens, OwnsSockets}
use gaea.Sys.Net.{TcpListener, or_drop, accept, bind_udp}

module _ {W : Type 0} (std : StdSockets W) (opened : W → List ℕ) (nonblocking : W → ℕ → Bool)
    (law : OwnsSockets std opened nonblocking) where
  -- What a call that creates a socket leaves open: the one descriptor, of a non-blocking socket, or
  -- nothing on an error.
  abbrev pub Created : {A : Type 0} → (A → ℕ) → W → IoResult A × W → Type 0
  Created fd w (ok a, w') = Perm (opened w') (fd a ∷ opened w) × (nonblocking w' (fd a) ≡ true)
  Created fd w (err e, w') = Perm (opened w') (opened w)

  -- The rest of a call that has created a socket.
  abbrev finish : {A : Type 0} → A → IoResult (Unit {0}) × W → IoResult A × W
  finish b (ok u, w') = (ok b, w')
  finish b (err e, w') = (err e, w')

  or_drop-Created :
      {B : Type 0} (fd : B → ℕ) (b : B) (w w₁ : W)
      → Perm (opened w₁) (fd b ∷ opened w)
      → Created fd w (finish b (or_drop std (fd b) (std.set_nonblocking (fd b) true) w₁))
  or_drop-Created fd b w w₁ p = go (std.set_nonblocking (fd b) true w₁) refl
    where
      kept :
          (w' : W)
          → (std.set_nonblocking (fd b) true w₁).1 ≡ w'
          → Perm (opened w') (fd b ∷ opened w)
      kept w' e =
          subst (λ l. Perm l (fd b ∷ opened w))
            (sym (law.set_nonblocking_keeps (fd b) true w₁) ∙ ap opened e) p

      go :
          (x : IoResult (Unit {0}) × W)
          → std.set_nonblocking (fd b) true w₁ ≡ x
          → Created fd w (finish b (or_drop std (fd b) (λ _. x) w₁))
      go (ok u, w') e = (kept w' (ap (λ y. y.1) e), law.nonblocking_set (fd b) true w₁ w' e)
      go (err x, w') e = law.dropped (fd b) w' (opened w) (kept w' (ap (λ y. y.1) e))

  then-finish :
      {B : Type 0} (b : B) (m : Io W (Unit {0})) (w : W) → (m >> pure b) w ≡ finish b (m w)
  then-finish {B} b m w = go (m w)
    where
      go :
          (x : IoResult (Unit {0}) × W)
          → elim x.0 as (λ y. IoResult B × W) [ err e ↦ (err e, x.1) | ok u ↦ (ok b, x.1) ]
            ≡ finish b x
      go (ok u, w') = refl
      go (err e, w') = refl

  -- A call that creates a socket and makes it non-blocking.
  then-Created :
      {C B : Type 0} (m : Io W C) (b : C → B) (fd : B → ℕ) (w : W)
      → Opens opened (λ c. fd (b c)) m
      → Created fd w (
          (m >>= λ c. or_drop std (fd (b c)) (std.set_nonblocking (fd (b c)) true) >> pure (b c)) w)
  then-Created {C} {B} m b fd w (opens, fails) = go (m w) refl
    where
      rest : C → Io W B
      rest c = or_drop std (fd (b c)) (std.set_nonblocking (fd (b c)) true) >> pure (b c)

      go :
          (x : IoResult C × W)
          → m w ≡ x
          → Created fd w
              (elim x.0 as (λ y. IoResult B × W) [ err e ↦ (err e, x.1) | ok c ↦ rest c x.1 ])
      go (ok c, w₁) e =
          rw (then-finish (b c) (or_drop std (fd (b c)) (std.set_nonblocking (fd (b c)) true)) w₁)
            (or_drop-Created fd (b c) w w₁ (opens c w w₁ e))
      go (err x, w₁) e = fails x w w₁ e

  -- If the sockets of the standard library own their descriptors, then `accept` and the `bind` of a
  -- UDP socket have two outcomes: a non-blocking socket, whose descriptor is the one that they
  -- opened, or an error, with no descriptor left open.
  pub accept-bind-Created :
      (listener : TcpListener) (address : SocketAddr) (w : W)
      → Created (λ x. x.0.stream) w (accept std listener w)
        × Created (λ x. x.socket) w (bind_udp std address w)
  unfolding accept bind_udp
  accept-bind-Created listener address w = (
    then-Created (std.accept listener.listener) (λ x. (record { stream = x.0 }, x.1))
        (λ y. y.0.stream) w (law.accept_opens listener.listener),
    then-Created (std.bind_udp address) (λ x. record { socket = x }) (λ y. y.socket) w
        (law.bind_udp_opens address),
  )
