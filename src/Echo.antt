-- ===== src/Echo.antt =====
-- src/net/udp.rs: the echo program in the documentation of `UdpSocket`. What it prints is the result
-- of its run: the bytes that are received and the address that they come from.
pub mod Abi
pub mod Messages
use gaea.Base.{
  ℕ, zero, suc, Option, none, some, List, [], ◌∷◌, ◌==◌, if◌then◌else◌, length, ok, err, IoResult,
}
use gaea.Base.Io.{Io, pure, ◌>>=◌, ◌>>◌}
use gaea.Event.{Event, EventId}
use gaea.Event.Sink.{vec_sink}
use gaea.Net.Udp.{UdpSocket, bind, connect, send, recv_from, as_raw_fd}
use gaea.Os.Handles.{udp_socket, register}
use gaea.Os.Interests.{interests_readable, interests_writable}
use gaea.Os.Options.{option_level}
use gaea.Os.Queue.{OsQueue, os_source}
use gaea.Os.Queue as Queue
use gaea.Poll.{poll}
use gaea.Sys.Epoll.Abi.{EpollFlags, EpollKernel}
use gaea.Sys.Net.Abi.{SocketAddr, StdSockets}
use gaea.Sys.Net.Std.{StdUdp}

abbrev pub sender_id : EventId
sender_id = 0

abbrev pub echoer_id : EventId
echoer_id = 1

-- b"Hello world", and the length of the buffer that it is received in.
abbrev pub msg_to_send : List ℕ
msg_to_send = b'H' ∷ b'e' ∷ b'l' ∷ b'l' ∷ b'o' ∷ b' ' ∷ b'w' ∷ b'o' ∷ b'r' ∷ b'l' ∷ b'd' ∷ []

abbrev pub buf_length : ℕ
buf_length = 20

-- What is printed.
abbrev pub Message : Type 0
Message = List ℕ × SocketAddr

-- How a part of the program ends: with what is received, if `main` returns, or with an error. `none`
-- is a panic.
abbrev pub Ends : Type 0 → Type 0
Ends W = Option (IoResult (Option Message) × W)

-- The next part, unless `main` has returned.
unfoldable pub and_then : {W : Type 0} → Ends W → (W → Ends W) → Ends W
and_then none next = none
and_then (some (ok none, w)) next = next w
and_then (some (ok (some message), w)) next = some (ok (some message), w)
and_then (some (err e, w)) next = some (err e, w)

-- The assertion behind `send`.
unfoldable pub after_send : {W : Type 0} → IoResult ℕ × W → Ends W
after_send (ok bytes_sent, w) = if bytes_sent == length msg_to_send then some (ok none, w) else none
after_send (err e, w) = some (err e, w)

unfoldable pub after_recv : {W : Type 0} → IoResult Message × W → Ends W
after_recv (ok message, w) = some (ok (some message), w)
after_recv (err e, w) = some (err e, w)

-- The sockets of the program and its queue.
pub record Program : Type 0 where
  pub sender_socket : UdpSocket
  pub echoer_socket : UdpSocket
  pub os_queue : OsQueue

module _ (flags : EpollFlags) {W : Type 0} (kernel : EpollKernel W) (udp : StdUdp W) where
  unfoldable pub handle_event : Program → Event → W → Ends W
  unfolding after_send after_recv send recv_from
  handle_event p event w =
      if event.id == sender_id
      then after_send (send udp p.sender_socket msg_to_send w)
      else if event.id == echoer_id
      then after_recv (recv_from udp p.echoer_socket buf_length w)
      else none

  unfoldable pub handle_events : Program → List Event → W → Ends W
  unfolding handle_event and_then
  handle_events p [] w = some (ok none, w)
  handle_events p (event ∷ events) w = and_then (handle_event p event w) (handle_events p events)

  -- So many rounds of the loop. The events stay in the vector: the loop only borrows them.
  unfoldable pub run : ℕ → Program → List Event → W → Ends W
  unfolding handle_events and_then
  run zero p events w = some (ok none, w)
  run (suc rounds) p events w =
      let polled =
        poll (os_source flags kernel vec_sink (λ e. e)) (p.os_queue ∷ []) events none w in
      elim polled.result [
        | ok u ↦ and_then (handle_events p polled.sink polled.world) (run rounds p polled.sink)
        | err e ↦ some (err e, polled.world)
      ]

-- `?` behind a registration, and then the next part.
unfoldable pub registered :
    {W A : Type 0}
    → Option (Io W (Unit {0}))
    → (W → Option (IoResult A × W))
    → W
    → Option (IoResult A × W)
registered none next w = none
registered (some call) next w =
    let (r, w') = call w in elim r [ err e ↦ some (err e, w') | ok u ↦ next w' ]

module _ (flags : EpollFlags) {W : Type 0} (kernel : EpollKernel W) (sockets : StdSockets W)
    (udp : StdUdp W) where
  -- The sockets and the queue.
  unfoldable pub create : SocketAddr → SocketAddr → Io W Program
  unfolding bind connect
  create sender_address echoer_address = do
    sender_socket ← bind sockets sender_address
    echoer_socket ← bind sockets echoer_address
    connect udp sender_socket echoer_address
    os_queue ← Queue.new flags kernel
    pure (record {
      sender_socket = sender_socket;
      echoer_socket = echoer_socket;
      os_queue = os_queue;
    })

  unfoldable pub register_both : Program → W → Option (IoResult Program × W)
  unfolding registered as_raw_fd
  register_both p =
      registered
        (register flags kernel p.os_queue (udp_socket (as_raw_fd p.sender_socket)) sender_id
          interests_writable option_level)
        (registered
          (register flags kernel p.os_queue (udp_socket (as_raw_fd p.echoer_socket)) echoer_id
            interests_readable option_level)
          (λ w. some (ok p, w)))

  -- What `main` does before its loop, for the addresses of the sender and the echoer. `none` is a
  -- `debug_assert!` that fails.
  unfoldable pub start : SocketAddr → SocketAddr → W → Option (IoResult Program × W)
  unfolding create register_both
  start sender_address echoer_address w =
      let (r, w') = create sender_address echoer_address w in
      elim r [ err e ↦ some (err e, w') | ok p ↦ register_both p w' ]
