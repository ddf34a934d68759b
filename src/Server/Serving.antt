-- ===== src/Server/Serving.antt =====
-- examples/tcp_server.rs: handling events.
use mathlib.Core.List.Perm
use gaea.Base.{
  ℕ, ◌≤◌, ◌<◌, ◌≡◌, refl, sym, subst, inl, inr, Bool, true, false, none, some, List, ◌∷◌, ◌++◌,
  Perm, arith, ◌==◌, if◌then◌else◌, Bool-cases, Option-cases, length, ok, err, would_block,
  interrupted, in_progress, raw, IoResult,
}
use gaea.Base.Io.{Io}
use gaea.Event.{Event, EventId}
use gaea.Sys.Epoll.Abi.{EpollFlags, EpollKernel}
use gaea.Sys.Net.{TcpStream}
use gaea.Sys.Net.Abi.{SocketAddr, StdSockets}
use gaea.Server.{Server, Returns, accept_connections}
use gaea.Server.Abi.{IsSystem, IsLog}
use gaea.Server.Connections.{HashMap, get, remove, remove_found}
use gaea.Server.{server_id, write_address, finish_connection, handle_event}
use gaea.Server.Accepting.{Accepts, accept_connections-Accepts}
use gaea.Server.Sound.{descriptors, Sound, Sound-world, Later, Later-refl}

module _ (flags : EpollFlags) {W : Type 0} (kernel : EpollKernel W) (std : StdSockets W)
    (write : ℕ → List ℕ → Io W ℕ) (to_string : SocketAddr → List ℕ) (opened : W → List ℕ)
    (nonblocking : W → ℕ → Bool) (waiting : W → ℕ)
    (law : IsSystem kernel std write opened nonblocking waiting) (log : W → List (ℕ × SocketAddr))
    (logs : IsLog kernel std log) where
  abbrev IsSound : List ℕ → Server → W → Type 0
  IsSound = Sound opened waiting

  -- How a part of the server returns: it does return, and the server is sound, and gives out no id
  -- again.
  abbrev pub Serves : List ℕ → Server → W → Returns W → Type 0
  Serves base s w none = ⊥
  Serves base s w (some (r, s', w')) = IsSound base s' w' × (waiting w' ≤ waiting w) × Later s s'

  -- Writing to a connection opens and closes nothing.
  abbrev Wrote : W → Bool × W → Type 0
  Wrote w (b, w') = (opened w' ≡ opened w) × (waiting w' ≤ waiting w)

  write_address-Wrote :
      (stream : TcpStream) (a : SocketAddr) (w : W)
      → Wrote w (write_address flags kernel std write to_string stream a w)
  unfolding write_address
  write_address-Wrote stream a w =
      go (write stream.stream (to_string a) w) (law.write_keeps stream.stream (to_string a) w)
        (law.write_quiet stream.stream (to_string a) w)
    where
      go :
          (x : IoResult ℕ × W)
          → opened x.1 ≡ opened w
          → waiting x.1 ≤ waiting w
          → Wrote w (elim x.0 as (λ y. Bool × W) [
            | ok n ↦ if n == length (to_string a) then (true, x.1) else (true, x.1)
            | err would_block ↦ (false, x.1)
            | err e ↦ (true, x.1)
          ])
      go (ok n, w') k q = elim (Bool-cases (n == length (to_string a))) [
        | inl e ↦ rw e (k, q)
        | inr e ↦ rw e (k, q)
      ]
      go (err would_block, w') k q = (k, q)
      go (err interrupted, w') k q = (k, q)
      go (err in_progress, w') k q = (k, q)
      go (err (raw c), w') k q = (k, q)

  finish_removed :
      (id : EventId) (s : Server) (c : TcpStream × SocketAddr)
      (rest : HashMap (TcpStream × SocketAddr)) (w : W)
      → remove id s.connections ≡ some (c, rest)
      → finish_connection flags kernel std write to_string id s (true, w)
        ≡ some (ok tt, record s { connections = rest }, std.drop c.0.stream w)
  unfolding finish_connection
  finish_removed id s c rest w e = rw (e, finish_connection) refl

  finish_connection-Serves :
      (base : List ℕ) (id : EventId) (s : Server) (c : TcpStream × SocketAddr) (w : W)
      → get id s.connections ≡ some c
      → IsSound base s w
      → (x : Bool × W) → Wrote w x
      → Serves base s w (finish_connection flags kernel std write to_string id s x)
  unfolding finish_connection
  finish_connection-Serves base id s c w found sound (false, w') (kept, less) = (
    Sound-world opened waiting base s w w' less (subst (λ l. Perm l (opened w)) (sym kept) Perm.rfl)
        sound,
    less,
    Later-refl s,
  )
  finish_connection-Serves base id s c w found sound (true, w') (kept, less) =
      let (rest, r) = remove_found id s.connections c found in
      let quiet = law.drop_quiet c.0.stream w' in
      let others =
        subst (λ l. Perm l (c.0.stream ∷ (descriptors rest ++ base))) (sym kept)
          (Perm.trans sound.owned
            (Perm.append_right base (Perm.map (λ x. x.1.0.stream) (Perm.symm r.perm)))) in
      rw (finish_removed id s c rest w' r.removed) (
        record {
          low = sound.low;
          room = omega (arith, sound.room);
          below = r.below s.current_id sound.below;
          distinct = r.distinct sound.distinct;
          owned = law.owns.dropped c.0.stream w' (descriptors rest ++ base) others;
        },
        omega arith,
        record { grows = omega arith; unused = λ id l. r.others sound.distinct id },
      )

  Accepts-Serves :
      (base : List ℕ) (s : Server) (w : W) (r : Returns W)
      → Accepts flags kernel std write to_string opened nonblocking waiting law log logs base s w r
      → Serves base s w r
  Accepts-Serves base s w none h = h
  Accepts-Serves base s w (some (r, s', w')) h = (h.0, h.1, h.3)

  spurious :
      (fuel : ℕ) (event : Event) (s : Server) (w : W)
      → (event.id == server_id) ≡ false
      → get event.id s.connections ≡ none
      → handle_event flags kernel std write to_string fuel event s w ≡ some (ok tt, s, w)
  unfolding handle_event
  spurious fuel event s w other e = rw (other, e) refl

  of_connection :
      (fuel : ℕ) (event : Event) (s : Server) (w : W) (stream : TcpStream) (a : SocketAddr)
      → (event.id == server_id) ≡ false
      → get event.id s.connections ≡ some (stream, a)
      → handle_event flags kernel std write to_string fuel event s w
        ≡ finish_connection flags kernel std write to_string event.id s
            (write_address flags kernel std write to_string stream a w)
  unfolding handle_event
  of_connection fuel event s w stream a other e = rw (other, e) refl

  of_server :
      (fuel : ℕ) (event : Event) (s : Server) (w : W)
      → (event.id == server_id) ≡ true
      → handle_event flags kernel std write to_string fuel event s w
        ≡ accept_connections flags kernel std fuel s w
  unfolding handle_event
  of_server fuel event s w hit = rw hit refl

  -- An event is handled, whichever it is: one of the listener, of a connection, or of neither.
  pub handle_event-Serves :
      (base : List ℕ) (fuel : ℕ) (event : Event) (s : Server) (w : W)
      → waiting w < fuel
      → IsSound base s w
      → Serves base s w (handle_event flags kernel std write to_string fuel event s w)
  handle_event-Serves base fuel event s w enough sound = elim (Bool-cases (event.id == server_id)) [
    | inl hit ↦ rw (of_server fuel event s w hit) (
        Accepts-Serves base s w _ (
          accept_connections-Accepts flags kernel std write to_string opened nonblocking waiting law
            log logs base fuel s w enough sound))
    | inr other ↦ elim (Option-cases (get event.id s.connections)) [
      | inl e ↦ rw (spurious fuel event s w other e) (sound, omega arith, Later-refl s)
      | inr ((stream, a), e) ↦ rw (of_connection fuel event s w stream a other e) (
          finish_connection-Serves base event.id s (stream, a) w e sound _
            (write_address-Wrote stream a w))
    ]
  ]
