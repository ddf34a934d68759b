-- ===== src/Tests/ServerTests.antt =====
-- examples/tcp_server.rs on concrete inputs: a system with sockets of which some are to be accepted.
use mathlib.Core.Logic.{ite}
use mathlib.Core.List.{erase}
use mathlib.Core.List.Perm
use native.Mathlib.Decide.{ℕ_discrete}
use gaea.Base.{
  ℕ, suc, ◌-◌, ◌≤◌, ◌<◌, ◌≡◌, refl, subst, inl, inr, Bool, false, List, [], ◌∷◌, Perm, arith, ◌==◌,
  if◌then◌else◌, Bool-cases, length, ok, err, would_block, raw, IoResult,
}
use gaea.Base.Io.{Io}
use gaea.Sys.Epoll.Abi.{EpollKernel}
use gaea.Sys.Net.{accept, bind_udp}
use gaea.Sys.Net.Abi.{SocketAddr, v4, StdSockets, OwnsSockets, Opens}
use gaea.Sys.Net.Owned.{Created, accept-bind-Created}
use gaea.Server.{Server, accept_connections, serve}
use gaea.Server.Abi.{IsSystem, IsLog}
use gaea.Server.Sound.{Sound}
use gaea.Server.Accepting.{Accepts, accept_connections-Accepts}
use gaea.Server.Serving.{Serves}
use gaea.Server.Rounds.{serve-Serves}
use gaea.Tests.Sample.{linux}

-- The open descriptors, the last that was opened, the non-blocking ones, the number of connections
-- to accept, and those that were accepted.
record Net : Type 0 where
  fds : List ℕ
  last : ℕ
  nonblocking : ℕ → Bool
  queued : ℕ
  handed : List (ℕ × SocketAddr)

open_socket : Net → Net
open_socket w = record w { fds = suc w.last ∷ w.fds; last = suc w.last }

net_accept : ℕ → Io Net (ℕ × SocketAddr)
unfolding open_socket
net_accept fd w = if w.queued == 0 then (err would_block, w) else (
  ok (suc w.last, v4 1),
  record (open_socket w) { queued = w.queued - 1; handed = (suc w.last, v4 1) ∷ w.handed },
)

-- One descriptor can not be made non-blocking.
net_set : ℕ → Bool → Io Net (Unit {0})
net_set fd b w =
    if fd == 13
    then (err (raw 9), w)
    else (ok tt, record w { nonblocking = λ k. if k == fd then b else w.nonblocking k })

abbrev std : StdSockets Net
std = record {
  accept = net_accept;
  bind_udp = λ a w. (ok (suc w.last), open_socket w);
  try_clone = λ fd w. (ok (suc w.last), open_socket w);
  set_nonblocking = net_set;
  drop = λ fd w. record w { fds = erase ℕ_discrete w.fds fd };
}

pub erase_first : (fd : ℕ) (rest : List ℕ) → erase ℕ_discrete (fd ∷ rest) fd ≡ rest
erase_first fd rest = go (ℕ_discrete fd fd)
  where
    go : (d : Dec (fd ≡ fd)) → ite {C = List ℕ} d rest (fd ∷ erase ℕ_discrete rest fd) ≡ rest
    go (yes e) = refl
    go (no h) = absurd (h refl)

abbrev epolls : EpollKernel Net
epolls = record {
  epoll_create1 = λ w. (ok 3, w);
  close = λ fd w. (ok tt, w);
  epoll_ctl = λ epfd op fd event w. (ok tt, w);
  epoll_wait = λ epfd cap t w.
      (ok (record { events = 1; u64 = 0 } ∷ record { events = 4; u64 = 10 } ∷ []), w);
}

-- What is asked of the outcome of a call that creates a socket.
abbrev Opened : {A : Type 0} → (A → ℕ) → Net → IoResult A × Net → Type 0
Opened fd w (ok a, w') = Perm w'.fds (fd a ∷ w.fds)
Opened fd w (err e, w') = Perm w'.fds w.fds

Opens-Opened :
    {A : Type 0} (fd : A → ℕ) (m : Io Net A)
    → ((w : Net) → Opened fd w (m w))
    → Opens (λ w. w.fds) fd m
Opens-Opened fd m h =
    ((λ a w w' e. subst (Opened fd w) e (h w)), (λ x w w' e. subst (Opened fd w) e (h w)))

accept-Opened : (fd : ℕ) (w : Net) → Opened (λ x. x.0) w (net_accept fd w)
unfolding net_accept open_socket
accept-Opened fd w = elim (Bool-cases (w.queued == 0)) [
  | inl e ↦ rw e Perm.rfl
  | inr e ↦ rw e Perm.rfl
]

-- What is asked of the outcome of `set_nonblocking`.
abbrev Set : ℕ → Bool → Net → IoResult (Unit {0}) × Net → Type 0
Set fd b w (ok u, w') = (w'.fds ≡ w.fds) × (w'.queued ≡ w.queued) × (w'.nonblocking fd ≡ b)
Set fd b w (err e, w') = (w'.fds ≡ w.fds) × (w'.queued ≡ w.queued) × Unit {0}

net_set-Set : (fd : ℕ) (b : Bool) (w : Net) → Set fd b w (net_set fd b w)
unfolding net_set
net_set-Set fd b w = elim (Bool-cases (fd == 13)) [
  | inl e ↦ rw e (refl, refl, tt)
  | inr e ↦ rw e (refl, refl, ground arith)
]

Set-keeps :
    (fd : ℕ) (b : Bool) (w : Net) (x : IoResult (Unit {0}) × Net)
    → Set fd b w x
    → (x.1.fds ≡ w.fds) × (x.1.queued ≡ w.queued)
Set-keeps fd b w (ok u, w') h = (h.0, h.1)
Set-keeps fd b w (err e, w') h = (h.0, h.1)

std-OwnsSockets : OwnsSockets std (λ w. w.fds) (λ w. w.nonblocking)
unfolding open_socket
std-OwnsSockets = record {
  accept_opens =
      λ fd. Opens-Opened (λ (x : ℕ × SocketAddr). x.0) (net_accept fd) (accept-Opened fd);
  bind_udp_opens = λ a. Opens-Opened (λ x. x) (std.bind_udp a) (λ w. Perm.rfl);
  try_clone_opens = λ fd. Opens-Opened (λ x. x) (std.try_clone fd) (λ w. Perm.rfl);
  set_nonblocking_keeps = λ fd b w. (Set-keeps fd b w _ (net_set-Set fd b w)).0;
  nonblocking_set = λ fd b w w' e. (subst (Set fd b w) e (net_set-Set fd b w)).2;
  dropped = λ fd w rest p.
      subst (λ l. Perm (erase ℕ_discrete w.fds fd) l) (erase_first fd rest)
        (Perm.erase ℕ_discrete fd p);
}

-- What is asked of accepting.
abbrev Taken : Net → IoResult (ℕ × SocketAddr) × Net → Type 0
Taken w (ok x, w') = w'.queued < w.queued
Taken w (err e, w') = w'.queued ≤ w.queued

accept-Taken : (fd : ℕ) (w : Net) → Taken w (net_accept fd w)
unfolding net_accept open_socket
accept-Taken fd w = elim (Bool-cases (w.queued == 0)) [
  | inl e ↦ rw e (omega arith)
  | inr e ↦ rw e (ground arith)
]

abbrev write : ℕ → List ℕ → Io Net ℕ
write fd bytes w = (ok (length bytes), w)

system : IsSystem epolls std write (λ w. w.fds) (λ w. w.nonblocking) (λ w. w.queued)
system = record {
  owns = std-OwnsSockets;
  ctl_keeps = λ epfd op fd event w. refl;
  write_keeps = λ fd bytes w. refl;
  accepted = λ fd x w w' e. subst (Taken w) e (accept-Taken fd w);
  accept_failed = λ fd x w w' e. subst (Taken w) e (accept-Taken fd w);
  set_nonblocking_quiet = λ fd b w. omega (arith, (Set-keeps fd b w _ (net_set-Set fd b w)).1);
  ctl_quiet = λ epfd op fd event w. omega arith;
  write_quiet = λ fd bytes w. omega arith;
  wait_keeps = λ epfd cap t w. refl;
  wait_quiet = λ epfd cap t w. omega arith;
  drop_quiet = λ fd w. omega arith;
}

-- What accepting hands out.
abbrev Handed : Net → IoResult (ℕ × SocketAddr) × Net → Type 0
Handed w (ok x, w') = w'.handed ≡ x ∷ w.handed
Handed w (err e, w') = w'.handed ≡ w.handed

accept-Handed : (fd : ℕ) (w : Net) → Handed w (net_accept fd w)
unfolding net_accept open_socket
accept-Handed fd w = elim (Bool-cases (w.queued == 0)) [ inl e ↦ rw e refl | inr e ↦ rw e refl ]

net_set-handed : (fd : ℕ) (b : Bool) (w : Net) → (net_set fd b w).1.handed ≡ w.handed
unfolding net_set
net_set-handed fd b w = elim (Bool-cases (fd == 13)) [ inl e ↦ rw e refl | inr e ↦ rw e refl ]

abbrev Ends : IoResult (Unit {0}) × Net → Type 0
Ends (err would_block, w') = ⊥
Ends x = Unit {0}

net_set-Ends : (fd : ℕ) (b : Bool) (w : Net) → Ends (net_set fd b w)
unfolding net_set
net_set-Ends fd b w = elim (Bool-cases (fd == 13)) [ inl e ↦ rw e tt | inr e ↦ rw e tt ]

system-IsLog : IsLog epolls std (λ w. w.handed)
system-IsLog = record {
  accepted = λ fd x w w' e. subst (Handed w) e (accept-Handed fd w);
  accept_failed = λ fd x w w' e. subst (Handed w) e (accept-Handed fd w);
  set_nonblocking_keeps = net_set-handed;
  set_nonblocking_returns = λ fd b w w' e. subst Ends e (net_set-Ends fd b w);
  ctl_keeps = λ epfd op fd event w. refl;
}

-- The queue and the listener are open, and three connections are to be accepted.
abbrev begun : Net
begun = record { fds = 4 ∷ 3 ∷ []; last = 9; nonblocking = λ fd. false; queued = 3; handed = [] }

abbrev server : Server
server = record {
  listener = record { listener = 4 };
  os_queue = record { selector = record { epfd = 3 } };
  connections = [];
  current_id = 10;
}

begun-Sound : Sound (λ w. w.fds) (λ w. w.queued) (4 ∷ 3 ∷ []) server begun
begun-Sound = record {
  low = omega arith;
  room = omega arith;
  below = tt;
  distinct = tt;
  owned = Perm.rfl;
}

accept-bind-Created_example :
    Created std
      (λ w. w.fds)
      (λ w. w.nonblocking)
      std-OwnsSockets
      (λ x. x.0.stream)
      begun
      (accept std server.listener begun)
    × Created std
        (λ w. w.fds)
        (λ w. w.nonblocking)
        std-OwnsSockets
        (λ x. x.socket)
        begun
        (bind_udp std (v4 7) begun)
accept-bind-Created_example =
    accept-bind-Created std (λ w. w.fds) (λ w. w.nonblocking) std-OwnsSockets server.listener (v4 7)
      begun

accept_connections-Accepts_example :
    Accepts linux epolls std write
      (λ a. 1 ∷ 2 ∷ [])
      (λ w. w.fds)
      (λ w. w.nonblocking)
      (λ w. w.queued)
      system
      (λ w. w.handed)
      system-IsLog
      (4 ∷ 3 ∷ [])
      server
      begun
      (accept_connections linux epolls std 4 server begun)
accept_connections-Accepts_example =
    accept_connections-Accepts linux epolls std write (λ a. 1 ∷ 2 ∷ []) (λ w. w.fds)
      (λ w. w.nonblocking) (λ w. w.queued) system (λ w. w.handed) system-IsLog (4 ∷ 3 ∷ []) 4 server
      begun (omega arith) begun-Sound

serve-Serves_example :
    Serves linux epolls std write
      (λ a. 1 ∷ 2 ∷ [])
      (λ w. w.fds)
      (λ w. w.nonblocking)
      (λ w. w.queued)
      system
      (λ w. w.handed)
      system-IsLog
      (4 ∷ 3 ∷ [])
      server
      begun
      (serve linux epolls std write (λ a. 1 ∷ 2 ∷ []) 4 2 server begun)
serve-Serves_example =
    serve-Serves linux epolls std write (λ a. 1 ∷ 2 ∷ []) (λ w. w.fds) (λ w. w.nonblocking)
      (λ w. w.queued) system (λ w. w.handed) system-IsLog (4 ∷ 3 ∷ []) 4 2 server begun
      (omega arith) begun-Sound
