-- ===== src/Tests/SysTests.antt =====
-- src/sys/unix/awakener.rs and src/sys/unix/tcp.rs on concrete inputs.
use gaea.Base.Io.{Io}
use gaea.Base.{
  ℕ, suc, ◌+◌, ◌-◌, ◌<◌, ◌≡◌, refl, sym, ap, ◌∙◌, true, false, none, some, List, [], ◌∷◌, arith,
  leb, ◌==◌, if◌then◌else◌, ok, err, would_block, raw, IoResult,
}
use gaea.Sys.Awakener as Eventfd
use gaea.Sys.Awakener.Pipe as Pipe
use gaea.Sys.Awakener.Abi.{EventfdKernel, IsEventfd, max_count, PipeKernel, IsPipe}
use gaea.Sys.Awakener.Waking.{wake-eventfd, wake-pipe}
use gaea.Sys.Net.{TcpListener, connect, bind, socket_family}
use gaea.Sys.Net.Abi.{v4, SocketFlags, SocketKernel, TracksOpen, Socket, HasSockets}
use gaea.Sys.Net.Leaks.{connect-bind-leak}
use gaea.Sys.Net.Sockets.{bind_listener}

-- The world is the count of the one eventfd.
eventfd_write : ℕ → ℕ → Io ℕ (Unit {0})
eventfd_write fd n w = if leb (w + n) max_count then (ok tt, w + n) else (err would_block, w)

eventfd_read : ℕ → Io ℕ ℕ
eventfd_read fd w = if w == 0 then (err would_block, 0) else (ok w, 0)

abbrev eventfds : EventfdKernel ℕ
eventfds = record {
  eventfd = λ w. (ok 4, w);
  dup = λ fd w. (ok 5, w);
  read = eventfd_read;
  write = eventfd_write;
}

eventfds-IsEventfd : IsEventfd eventfds (λ w. w) 4
unfolding eventfd_write eventfd_read
eventfds-IsEventfd = record {
  written = λ n w h. (w + n, ground arith, refl);
  full = λ n w h. (w, ground arith, refl);
  taken = λ w h. (0, ground arith, refl);
}

wake-eventfd_example :
    (w' : ℕ) × (Eventfd.wake eventfds 2 (record { fd = 4 }) max_count ≡ some (ok tt, w')) × (0 < w')
wake-eventfd_example =
    wake-eventfd eventfds (λ w. w) (record { fd = 4 }) eventfds-IsEventfd 0 max_count (omega arith)

-- The world is the number of bytes in the one pipe, which has room for two.
pipe_write : ℕ → Io ℕ ℕ
pipe_write fd w = if leb 2 w then (err would_block, w) else (ok 1, suc w)

pipe_read : ℕ → ℕ → Io ℕ ℕ
pipe_read fd len w = if w == 0 then (err would_block, 0) else (ok 1, w - 1)

abbrev pipes : PipeKernel ℕ
pipes = record { dup = λ fd w. (ok 9, w); read = pipe_read; write = pipe_write }

abbrev pipe_awakener : Pipe.Awakener
pipe_awakener = record { sender = 6; receiver = 5 }

pipes-IsPipe : IsPipe pipes (λ w. w) 2 6 5
unfolding pipe_write pipe_read
pipes-IsPipe = record {
  written = λ w h. (suc w, ground arith, refl);
  full = λ w h. (w, ground arith, refl);
  taken = λ w len h k. (0, w - 1, ground arith, omega arith);
  empty = λ w len h. (0, ground arith, refl);
}

wake-pipe_example : (w' : ℕ) × (Pipe.wake pipes 4 pipe_awakener 2 ≡ some (ok tt, w')) × (0 < w')
wake-pipe_example =
    wake-pipe pipes (λ w. w) 2 pipe_awakener pipes-IsPipe 4 2 (omega arith) (omega arith)

-- The open descriptors, newest first, and the state of the sockets.
record World : Type 0 where
  open_fds : List ℕ
  sockets : ℕ → Socket

abbrev fresh : Socket
fresh = record { nonblocking = false; options = []; bound = none; backlog = none }

abbrev set_socket : (ℕ → Socket) → ℕ → Socket → ℕ → Socket
set_socket m fd s k = if fd == k then s else m k

change : ℕ → (Socket → Socket) → Io World (Unit {0})
change fd f w = (ok tt, record w { sockets = set_socket w.sockets fd (f (w.sockets fd)) })

abbrev sockets : SocketKernel World
sockets = record {
  socket = λ family w.
      (ok 7, record { open_fds = 7 ∷ w.open_fds; sockets = set_socket w.sockets 7 fresh });
  pipe = λ w. (err (raw 24), w);
  set_nonblocking = λ fd. change fd (λ s. record s { nonblocking = true });
  setsockopt = λ fd level name value.
      change fd (λ s. record s { options = (level, name, value) ∷ s.options });
  connect = λ fd a w. (err (raw 111), w);
  bind = λ fd a. change fd (λ s. record s { bound = some a });
  listen = λ fd n. change fd (λ s. record s { backlog = some n });
}

abbrev linux_sockets : SocketFlags
linux_sockets = record {
  af_inet = 2;
  af_inet6 = 10;
  sol_socket = 1;
  so_reuseport = 15;
  so_reuseaddr = 2;
}

abbrev nothing_open : World
nothing_open = record { open_fds = []; sockets = λ fd. fresh }

same-socket : (m : ℕ → Socket) (fd : ℕ) (s : Socket) → set_socket m fd s fd ≡ s
same-socket m fd s = ground arith

changed :
    (fd : ℕ) (f : Socket → Socket) (w w' : World)
    → change fd f w ≡ (ok tt, w')
    → w'.sockets fd ≡ f (w.sockets fd)
unfolding change
changed fd f w w' e = ap (λ x. x.1.sockets fd) (sym e) ∙ same-socket w.sockets fd (f (w.sockets fd))

descriptor : IoResult ℕ → ℕ
descriptor (ok fd) = fd
descriptor (err e) = 0

sockets-TracksOpen : TracksOpen sockets (λ w. w.open_fds)
unfolding change descriptor
sockets-TracksOpen = record {
  socket_opens =
      λ family fd w w' e. ap (λ x. x.1.open_fds) (sym e) ∙ ap (λ x. descriptor x.0 ∷ w.open_fds) e;
  set_nonblocking_keeps = λ fd w. refl;
  setsockopt_keeps = λ fd level name value w. refl;
  connect_keeps = λ fd a w. refl;
  bind_keeps = λ fd a w. refl;
  listen_keeps = λ fd n w. refl;
}

sockets-HasSockets : HasSockets sockets (λ w. w.sockets)
unfolding descriptor
sockets-HasSockets = record {
  created = λ family fd w w' e.
      ap (λ x. x.1.sockets (descriptor x.0)) (sym e) ∙ same-socket w.sockets 7 fresh;
  nonblocking_set = λ fd w w' e. changed fd _ w w' e;
  option_set = λ fd level name value w w' e. changed fd _ w w' e;
  bound_to = λ fd a w w' e. changed fd _ w w' e;
  listening = λ fd n w w' e. changed fd _ w w' e;
}

bind_listener_example : (bind linux_sockets sockets (v4 1) nothing_open).1.sockets 7 ≡ record {
  nonblocking = true;
  options = (1, 2, 1) ∷ (1, 15, 1) ∷ [];
  bound = some (v4 1);
  backlog = some 128;
}
unfolding bind change gaea.Sys.Net.enable_socket_option
bind_listener_example =
    bind_listener linux_sockets sockets (λ w. w.sockets) sockets-HasSockets (v4 1)
      (record { listener = 7 }) nothing_open (bind linux_sockets sockets (v4 1) nothing_open).1 refl

connect-bind-leak_example :
    ((connect linux_sockets sockets (v4 1) nothing_open).1.open_fds ≡ 7 ∷ [])
    × ((bind linux_sockets sockets (v4 1) nothing_open).1.open_fds ≡ 7 ∷ [])
connect-bind-leak_example =
    connect-bind-leak linux_sockets sockets (λ w. w.open_fds) sockets-TracksOpen (v4 1) 7
      nothing_open (record { open_fds = 7 ∷ []; sockets = set_socket nothing_open.sockets 7 fresh })
      refl
