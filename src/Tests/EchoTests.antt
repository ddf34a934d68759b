-- ===== src/Tests/EchoTests.antt =====
-- src/net/udp.rs: the echo program on a host with one inbox, where calls may be interrupted.
use gaea.Base.{
  Bool, false, arith, ltb, ◌||◌, if◌then◌else◌, ap, interrupted, IoResult, ℕ, ◌≡◌, refl, ◌≢◌, ◌⊎◌,
  inl, inr, true, none, some, List, [], ◌∷◌, ◌++◌, length, take, All, ok, err, would_block,
}
use gaea.Base.Io.{Io}
use gaea.Echo.{Message, Program, msg_to_send, run}
use gaea.Echo.Abi.{IsLoopback, has}
use gaea.Echo.Messages.{run-echoes}
use gaea.Sys.Epoll.Abi.{EpEvent, EpollKernel}
use gaea.Sys.Net.Abi.{SocketAddr, v4}
use gaea.Sys.Net.Std.{StdUdp}
use gaea.Tests.Sample.{linux}

-- The inbox, and whether calls are interrupted, which they are for ever then.
record World : Type 0 where
  disturbed : Bool
  inbox : List Message

abbrev sender_address : SocketAddr
sender_address = v4 7000

-- A call that is interrupted changes nothing.
abbrev unless : {A : Type 0} → Bool → Io World A → Io World A
unless test call w = if test then (err interrupted, w) else call w

-- A datagram is sent whole, or is too long.
abbrev send_whole : List ℕ → Io World ℕ
send_whole bytes w =
    unless (w.disturbed || ltb 65_507 (length bytes))
      (λ w'. (ok (length bytes), record w' { inbox = w'.inbox ++ (bytes, sender_address) ∷ [] })) w

take_first : ℕ → List Message → IoResult Message × List Message
take_first n [] = (err would_block, [])
take_first n ((bytes, from) ∷ rest) = (ok (take n bytes, from), rest)

abbrev receive_first : ℕ → Io World Message
receive_first n w =
    unless w.disturbed
      (λ w'. let (r, rest) = take_first n w'.inbox in (r, record w' { inbox = rest })) w

abbrev udp : StdUdp World
udp = record {
  local_addr = λ fd w. (ok sender_address, w);
  send_to = λ fd bytes target. send_whole bytes;
  recv_from = λ fd n. receive_first n;
  peek_from = λ fd n w. ((receive_first n w).0, w);
  connect = λ fd address w. (ok tt, w);
  send = λ fd bytes. send_whole bytes;
  recv = λ fd n w. (err would_block, w);
  peek = λ fd n w. (err would_block, w);
  take_error = λ fd w. (ok none, w);
}

reported : List Message → List EpEvent
reported [] = record { events = 4; u64 = 0 } ∷ []
reported (m ∷ ms) = record { events = 1; u64 = 1 } ∷ record { events = 4; u64 = 0 } ∷ []

abbrev epolls : EpollKernel World
epolls = record {
  epoll_create1 = λ w. (ok 3, w);
  close = λ fd w. (ok tt, w);
  epoll_ctl = λ epfd op fd event w. (ok tt, w);
  epoll_wait = λ epfd cap timeout w. unless w.disturbed (λ w'. (ok (reported w'.inbox), w')) w;
}

abbrev Waited : List Message → List EpEvent → Type 0
Waited inbox es =
    (has 0 es ≡ true)
    × (inbox ≢ [] → has 1 es ≡ true)
    × All (λ e. (e.u64 ≡ 0) ⊎ ((e.u64 ≡ 1) × (inbox ≢ []))) es

reported-Waited : (inbox : List Message) → Waited inbox (reported inbox)
unfolding reported
reported-Waited [] = (refl, (λ h. absurd (h refl)), (inl refl, tt))
reported-Waited (m ∷ ms) = (refl, (λ h. refl), (inr (refl, (λ e. cc)), (inl refl, tt)))

epolls-IsLoopback :
    IsLoopback epolls udp (λ w. w.inbox) sender_address 3 4 5 (λ w. w.disturbed ≡ false)
unfolding take_first
epolls-IsLoopback = record {
  sends = λ bytes w calm fits.
      let sent : (w.disturbed || ltb 65_507 (length bytes)) ≡ false = ground arith in
      (record w { inbox = w.inbox ++ (bytes, sender_address) ∷ [] }, rw sent refl, refl, calm);
  receives =
      λ n bytes from rest w calm e. (record w { inbox = rest }, simp (calm, e) refl, refl, calm);
  waits = λ cap w calm room.
      let (a, b, c) = reported-Waited w.inbox in
      (
        reported w.inbox,
        w,
        ap (λ t. unless t (λ w'. (ok (reported w'.inbox), w')) w) calm,
        calm,
        refl,
        a,
        b,
        c,
      );
}

abbrev program : Program
program = record {
  sender_socket = record { socket = record { socket = 4 } };
  echoer_socket = record { socket = record { socket = 5 } };
  os_queue = record { selector = record { epfd = 3 } };
}

abbrev calm_world : World
calm_world = record { disturbed = false; inbox = [] }

run-echoes_example :
    (w' : World) × (run linux epolls udp 2 program [] calm_world
      ≡ some (ok (some (msg_to_send, sender_address)), w'))
run-echoes_example =
    run-echoes linux epolls udp (λ w. w.inbox) sender_address program (λ w. w.disturbed ≡ false)
      epolls-IsLoopback 0 calm_world refl refl
