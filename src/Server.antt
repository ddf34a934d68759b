-- ===== src/Server.antt =====
-- examples/tcp_server.rs: a server that writes its address to each connection and closes it. The
-- hash map of the connections is an association list. What `write` does with the bytes of a text,
-- the text of an address and the sockets of the standard library are parameters. Printing is left
-- out, and so is what `main` drops when it returns.
pub mod Connections
pub mod Abi
pub mod Sound
pub mod Waiting
pub mod Logging
pub mod Accepting
pub mod Serving
pub mod Rounds
use gaea.Base.{
  ℕ, zero, suc, ◌+◌, ◌%◌, ◌^◌, Bool, true, false, Option, none, some, List, [], ◌∷◌, ◌==◌,
  if◌then◌else◌, length, ok, err, would_block, IoResult,
}
use gaea.Base.Io.{Io, pure, ◌>>=◌, ◌>>◌}
use gaea.Event.{Event, EventId}
use gaea.Event.Sink.{vec_sink}
use gaea.Os.Handles.{tcp_stream, tcp_listener, register}
use gaea.Os.Interests.{interests_readable, interests_both}
use gaea.Os.Options.{option_edge}
use gaea.Os.Queue.{OsQueue, os_source}
use gaea.Os.Queue as Queue
use gaea.Poll.{poll}
use gaea.Sys.Epoll.Abi.{EpollFlags, EpollKernel}
use gaea.Sys.Net.{TcpStream, TcpListener, accept, bind}
use gaea.Sys.Net.Abi.{SocketAddr, SocketFlags, SocketKernel, StdSockets}
use Connections.{HashMap, get, insert, remove}

abbrev pub server_id : EventId
server_id = 0

pub record Server : Type 0 where
  pub listener : TcpListener
  pub os_queue : OsQueue
  pub connections : HashMap (TcpStream × SocketAddr)
  pub current_id : EventId

-- A new id, and the counter behind it, which is a `usize`.
unfoldable pub new_id : EventId → EventId × EventId
new_id current = (current, (current + 1) % 2 ^ 64)

-- How a part of the server returns: its result, and the server and the world that it leaves.
-- `none` is a panic, or the end of the fuel.
abbrev pub Returns : Type 0 → Type 0
Returns W = Option (IoResult (Unit {0}) × Server × W)

-- `?` behind a part of the server, and then the next part.
unfoldable pub and_then : {W : Type 0} → Returns W → (Server → W → Returns W) → Returns W
and_then none next = none
and_then (some (ok u, s, w)) next = next s w
and_then (some (err e, s, w)) next = some (err e, s, w)

module _ (flags : EpollFlags) {W : Type 0} (kernel : EpollKernel W) (std : StdSockets W) where
  -- What `insert` replaces is dropped.
  unfoldable pub drop_replaced : Option (TcpStream × SocketAddr) → W → W
  drop_replaced none w = w
  drop_replaced (some (stream, address)) w = std.drop stream.stream w

  -- What follows the registration of a connection; `again` is the loop.
  unfoldable pub registered :
      (Server → W → Returns W)
      → Server
      → EventId
      → TcpStream × SocketAddr
      → IoResult (Unit {0}) × W
      → Returns W
  unfolding drop_replaced
  registered again s id connection (ok u, w) =
      let (old, connections) = insert id connection s.connections in
      again (record s { connections = connections }) (drop_replaced old w)
  registered again s id (stream, address) (err e, w) = some (err e, s, std.drop stream.stream w)

  -- What follows the accept.
  unfoldable pub accepted :
      (Server → W → Returns W) → Server → IoResult (TcpStream × SocketAddr) × W → Returns W
  unfolding registered new_id
  accepted again s (ok (connection, address), w) =
      let (id, current_id) = new_id s.current_id in
      elim (register flags kernel s.os_queue (tcp_stream connection.stream) id interests_both
        option_edge) [
          | none ↦ none
          | some call ↦
              registered again (record s { current_id = current_id }) id (connection, address)
                (call w)
        ]
  accepted again s (err would_block, w) = some (ok tt, s, w)
  accepted again s (err e, w) = some (err e, s, w)

  unfoldable pub accept_connections : ℕ → Server → W → Returns W
  unfolding accepted
  accept_connections zero s w = none
  accept_connections (suc fuel) s w = accepted (accept_connections fuel) s (accept std s.listener w)

  -- What `main` does before its loop.
  unfoldable pub start :
      SocketFlags → SocketKernel W → SocketAddr → W → Option (IoResult Server × W)
  start c k address w =
      let (r, w₁) = Queue.new flags kernel w in
      elim r [
        | err e ↦ some (err e, w₁)
        | ok os_queue ↦
            let (r', w₂) = bind c k address w₁ in
            elim r' [
              | err e ↦ some (err e, w₂)
              | ok server ↦
                  elim (register flags kernel os_queue (tcp_listener server.listener) server_id
                    interests_readable option_edge) [
                      | none ↦ none
                      | some call ↦
                          let (r'', w₃) = call w₂ in
                          elim r'' [
                            | err e ↦ some (err e, w₃)
                            | ok u ↦ some (
                              ok (record {
                                listener = server;
                                os_queue = os_queue;
                                connections = [];
                                current_id = 10;
                              }),
                              w₃,
                            )
                          ]
                    ]
            ]
      ]

  module _ (write : ℕ → List ℕ → Io W ℕ) (to_string : SocketAddr → List ℕ) where
    -- Whether the connection is done with.
    unfoldable pub write_address : TcpStream → SocketAddr → W → Bool × W
    write_address stream peer_address w =
        let bytes = to_string peer_address in
        let (r, w') = write stream.stream bytes w in
        elim r [
          | ok bytes_written ↦ if bytes_written == length bytes then (true, w') else (true, w')
          | err would_block ↦ (false, w')
          | err e ↦ (true, w')
        ]

    -- The assertion fails if the connection is not in the map.
    unfoldable pub finish_connection : EventId → Server → Bool × W → Returns W
    finish_connection id s (false, w) = some (ok tt, s, w)
    finish_connection id s (true, w) = elim (remove id s.connections) [
      | none ↦ none
      | some ((stream, address), rest) ↦
          some (ok tt, record s { connections = rest }, std.drop stream.stream w)
    ]

    unfoldable pub handle_event : ℕ → Event → Server → W → Returns W
    unfolding accept_connections write_address finish_connection
    handle_event fuel event s w =
        if event.id == server_id
        then accept_connections fuel s w
        else (elim (get event.id s.connections) [
          | none ↦ some (ok tt, s, w)
          | some (stream, peer_address) ↦
              finish_connection event.id s (write_address stream peer_address w)
        ])

    unfoldable pub handle_events : ℕ → List Event → Server → W → Returns W
    unfolding handle_event and_then
    handle_events fuel [] s w = some (ok tt, s, w)
    handle_events fuel (event ∷ events) s w =
        and_then (handle_event fuel event s w) (handle_events fuel events)

    -- A round of the event loop, with an empty sink at its start, as `drain` leaves it.
    unfoldable pub serve_once : ℕ → Server → W → Returns W
    unfolding handle_events
    serve_once fuel s w =
        let polled = poll (os_source flags kernel vec_sink (λ e. e)) (s.os_queue ∷ []) [] none w in
        elim polled.result [
          | ok u ↦ handle_events fuel polled.sink s polled.world
          | err e ↦ some (err e, s, polled.world)
        ]

    -- So many rounds of the event loop.
    unfoldable pub serve : ℕ → ℕ → Server → W → Returns W
    unfolding serve_once and_then
    serve fuel zero s w = some (ok tt, s, w)
    serve fuel (suc rounds) s w = and_then (serve_once fuel s w) (serve fuel rounds)
