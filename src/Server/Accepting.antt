-- ===== src/Server/Accepting.antt =====
-- examples/tcp_server.rs: accepting connections.
use mathlib.Core.List.{map-append}
use mathlib.Core.List.Perm
use gaea.Base.{
  ℕ, zero, suc, ◌+◌, ◌^◌, ◌≤◌, ◌<◌, ◌≡◌, refl, sym, ap, subst, ◌∙◌, Bool, Option, none, some, List,
  [], ◌∷◌, ◌++◌, Perm, append_assoc, arith, ok, err, would_block, interrupted, in_progress, raw,
  IoResult,
}
use gaea.Base.Io.{Io}
use gaea.Event.{EventId}
use gaea.Os.Handles.{tcp_stream, register, register_handles}
use gaea.Os.Interests.{interests_both}
use gaea.Os.Options.{option_edge}
use gaea.Sys.Epoll as Epoll
use gaea.Sys.Epoll.Abi.{EpollFlags, EpollKernel}
use gaea.Sys.Net.{TcpStream, accept}
use gaea.Sys.Net.Abi.{SocketAddr, v4, StdSockets}
use gaea.Sys.Net.Owned.{Created, accept-bind-Created}
use gaea.Server.{Server, new_id, Returns, drop_replaced, registered, accepted, accept_connections}
use gaea.Server.Waiting.{Fewer, accept-Fewer}
use gaea.Server.Sound.{Sound, Sound-world, Later, Later-refl, Later-trans}
use gaea.Base.{◌==◌, false, inr, map}
use gaea.Server.Abi.{IsSystem, IsLog}
use gaea.Server.Logging.{Logged, accept-Logged}
use gaea.Server.Connections.{HashMap, Below-le, get, get_fresh, insert_fresh}

module _ (flags : EpollFlags) {W : Type 0} (kernel : EpollKernel W) (std : StdSockets W)
    (write : ℕ → List ℕ → Io W ℕ) (to_string : SocketAddr → List ℕ) (opened : W → List ℕ)
    (nonblocking : W → ℕ → Bool) (waiting : W → ℕ)
    (law : IsSystem kernel std write opened nonblocking waiting) (log : W → List (ℕ × SocketAddr))
    (logs : IsLog kernel std log) where
  register-some :
      (s : Server) (fd : ℕ) (id : EventId)
      → register flags kernel s.os_queue (tcp_stream fd) id interests_both option_edge
        ≡ some (Epoll.register flags kernel s.os_queue.selector fd id interests_both option_edge)
  unfolding gaea.Os.Handles.as_raw_fd
  register-some s fd id =
      (register_handles flags kernel s.os_queue (tcp_stream fd) id interests_both option_edge).0

  -- The descriptors and the addresses of connections.
  abbrev pub handed_out : HashMap (TcpStream × SocketAddr) → List (ℕ × SocketAddr)
  handed_out m = map (λ x. (x.1.0.stream, x.1.1)) m

  -- How accepting returns: the server is sound and has only gained connections. If it succeeds,
  -- these are the ones that the system has handed out, all of them, and the last accept would have
  -- blocked.
  abbrev pub Accepts : List ℕ → Server → W → Returns W → Type 0
  Accepts base s w none = ⊥
  Accepts base s w (some (r, s', w')) =
      Sound opened waiting base s' w'
      × (waiting w' ≤ waiting w)
      × (s'.listener ≡ s.listener)
      × Later s s'
      × ((new : HashMap (TcpStream × SocketAddr)) × (s'.connections ≡ new ++ s.connections)
          × (r ≡ ok tt → log w' ≡ handed_out new ++ log w))
      × (r ≡ ok tt → (w₀ : W) × (accept std s.listener w₀ ≡ (err would_block, w')))

  -- The server with a new connection.
  abbrev with_connection : Server → TcpStream × SocketAddr → Server
  with_connection s c = record s {
    connections = (s.current_id, c) ∷ s.connections;
    current_id = s.current_id + 1;
  }

  with_connection-Later : (s : Server) (c : TcpStream × SocketAddr) → Later s (with_connection s c)
  unfolding get
  with_connection-Later s c = record {
    grows = omega arith;
    unused = λ id l. let miss : (s.current_id == id) ≡ false = ground arith in inr (rw miss refl);
  }

  Accepts-grown :
      (base : List ℕ) (s : Server) (c : TcpStream × SocketAddr) (w w₂ : W)
      → waiting w₂ ≤ waiting w
      → log w₂ ≡ (c.0.stream, c.1) ∷ log w
      → (r : Returns W) → Accepts base (with_connection s c) w₂ r
      → Accepts base s w r
  Accepts-grown base s c w w₂ less one none h = h
  Accepts-grown base s c w w₂ less one (some (r, s', w'))
        (sound, fewer, listens, later, (new, e, logged), blocked) =
      (
        sound,
        omega arith,
        listens,
        Later-trans s (with_connection s c) s' (with_connection-Later s c) later,
        (
          new ++ (s.current_id, c) ∷ [],
          e ∙ sym (append_assoc new _ s.connections),
          λ fine.
              logged fine
              ∙ ap (λ l. handed_out new ++ l) one
              ∙ sym (append_assoc (handed_out new) _ (log w))
              ∙ ap (λ l. l ++ log w) (sym (map-append _ new ((s.current_id, c) ∷ []))),
        ),
        blocked,
      )

  registered-Accepts :
      (base : List ℕ) (again : Server → W → Returns W) (s : Server) (w w₁ : W) (stream : TcpStream)
      (a : SocketAddr)
      → Sound opened waiting base s w
      → waiting w₁ < waiting w
      → log w₁ ≡ (stream.stream, a) ∷ log w
      → Perm (opened w₁) (stream.stream ∷ opened w)
      → ((w₂ : W)
          → waiting w₂ ≤ waiting w₁
          → Sound opened waiting base (with_connection s (stream, a)) w₂
          → Accepts base
              (with_connection s (stream, a))
              w₂
              (again (with_connection s (stream, a)) w₂))
      → (x : IoResult (Unit {0}) × W) → waiting x.1 ≤ waiting w₁
      → log x.1 ≡ log w₁
      → opened x.1 ≡ opened w₁
      → Accepts base s w (
          registered flags kernel std again
            (record s { current_id = s.current_id + 1 })
            s.current_id
            (stream, a)
            x)
  unfolding registered drop_replaced
  registered-Accepts base again s w w₁ stream a sound fewer one perm ih (ok u, w₂) less kept same =
      let grown = with_connection s (stream, a) in
      let perm' = subst (λ l. Perm l (stream.stream ∷ opened w)) (sym same) perm in
      let fresh = get_fresh s.current_id s.connections sound.below in
      let sound' : Sound opened waiting base grown w₂ = record {
        low = omega (arith, sound.low);
        room = omega (arith, sound.room);
        below = (omega arith, Below-le _ _ s.connections (omega arith) sound.below);
        distinct = (fresh, sound.distinct);
        owned = Perm.trans perm' (Perm.cons stream.stream sound.owned);
      } in
      rw (insert_fresh s.current_id (stream, a) s.connections fresh) (
        Accepts-grown base s (stream, a) w w₂ (omega arith) (kept ∙ one) (again grown w₂)
          (ih w₂ less sound'))
  registered-Accepts base again s w w₁ stream a sound fewer one perm ih (err e, w₂) less kept same =
      let perm' = subst (λ l. Perm l (stream.stream ∷ opened w)) (sym same) perm in
      let quiet = law.drop_quiet stream.stream w₂ in
      (
        record {
          low = omega (arith, sound.low);
          room = omega (arith, sound.room);
          below = Below-le _ _ s.connections (omega arith) sound.below;
          distinct = sound.distinct;
          owned = Perm.trans (law.owns.dropped stream.stream w₂ (opened w) perm') sound.owned;
        },
        omega arith,
        refl,
        record { grows = omega arith; unused = λ id l. inr refl },
        ([], refl, λ never. cc),
        λ never. cc,
      )

  failed-Accepts :
      (base : List ℕ) (s : Server) (w w' : W) (r : IoResult (Unit {0}))
      → waiting w' ≤ waiting w
      → Perm (opened w') (opened w)
      → (r ≡ ok tt → log w' ≡ log w)
      → (r ≡ ok tt → (w₀ : W) × (accept std s.listener w₀ ≡ (err would_block, w')))
      → Sound opened waiting base s w
      → Accepts base s w (some (r, s, w'))
  failed-Accepts base s w w' r less perm kept blocked sound = (
    Sound-world opened waiting base s w w' less perm sound,
    less,
    refl,
    Later-refl s,
    ([], refl, kept),
    blocked,
  )

  abbrev registration : Server → ℕ → Io W (Unit {0})
  registration s fd =
      Epoll.register flags kernel s.os_queue.selector fd s.current_id interests_both option_edge

  register_quiet : (s : Server) (fd : ℕ) (w : W) → waiting (registration s fd w).1 ≤ waiting w
  unfolding Epoll.register Epoll.epoll_ctl
  register_quiet s fd w = law.ctl_quiet _ _ _ _ w

  register_keeps : (s : Server) (fd : ℕ) (w : W) → opened (registration s fd w).1 ≡ opened w
  unfolding Epoll.register Epoll.epoll_ctl
  register_keeps s fd w = law.ctl_keeps _ _ _ _ w

  register_logs : (s : Server) (fd : ℕ) (w : W) → log (registration s fd w).1 ≡ log w
  unfolding Epoll.register Epoll.epoll_ctl
  register_logs s fd w = logs.ctl_keeps _ _ _ _ w

  accepted-registers :
      (again : Server → W → Returns W) (s : Server) (stream : TcpStream) (a : SocketAddr) (w : W)
      → s.current_id + 1 < 2 ^ 64
      → accepted flags kernel std again s (ok (stream, a), w)
        ≡ registered flags kernel std again
            (record s { current_id = s.current_id + 1 })
            s.current_id
            (stream, a)
            (registration s stream.stream w)
  unfolding accepted new_id
  accepted-registers again s stream a w room =
      ap
        (λ n. continue n (
          register flags kernel s.os_queue (tcp_stream stream.stream) s.current_id interests_both
            option_edge))
        (omega arith)
      ∙ ap (continue (s.current_id + 1)) (register-some s stream.stream s.current_id)
    where
      continue : ℕ → Option (Io W (Unit {0})) → Returns W
      continue n none = none
      continue n (some call) =
          registered flags kernel std again (record s { current_id = n }) s.current_id (stream, a)
            (call w)

  accepted-Accepts :
      (base : List ℕ) (fuel : ℕ) (again : Server → W → Returns W) (s : Server) (w : W)
      → waiting w < suc fuel
      → Sound opened waiting base s w
      → ((s' : Server) (w' : W)
          → waiting w' < fuel
          → Sound opened waiting base s' w'
          → Accepts base s' w' (again s' w'))
      → (x : IoResult (TcpStream × SocketAddr) × W) → accept std s.listener w ≡ x
      → Fewer waiting w x
      → Logged log w x
      → Created std opened nonblocking law.owns (λ c. c.0.stream) w x
      → Accepts base s w (accepted flags kernel std again s x)
  unfolding accepted
  accepted-Accepts base fuel again s w enough sound ih (ok (stream, a), w₁) e fewer one
        (perm, set) =
      rw (accepted-registers again s stream a w₁ (omega (arith, sound.room))) (
        registered-Accepts base again s w w₁ stream a sound fewer one perm
          (λ w₂ less grown. ih _ w₂ (omega arith) grown) (registration s stream.stream w₁)
          (register_quiet s stream.stream w₁) (register_logs s stream.stream w₁)
          (register_keeps s stream.stream w₁))
  accepted-Accepts base fuel again s w enough sound ih (err would_block, w₁) e fewer one perm =
      failed-Accepts base s w w₁ (ok tt) fewer perm (λ _. one) (λ _. (w, e)) sound
  accepted-Accepts base fuel again s w enough sound ih (err interrupted, w₁) e fewer one perm =
      failed-Accepts base s w w₁ (err interrupted) fewer perm (λ never. cc) (λ never. cc) sound
  accepted-Accepts base fuel again s w enough sound ih (err in_progress, w₁) e fewer one perm =
      failed-Accepts base s w w₁ (err in_progress) fewer perm (λ never. cc) (λ never. cc) sound
  accepted-Accepts base fuel again s w enough sound ih (err (raw c), w₁) e fewer one perm =
      failed-Accepts base s w w₁ (err (raw c)) fewer perm (λ never. cc) (λ never. cc) sound

  -- If the system behaves as documented and the server is sound, accepting ends, with fuel for each
  -- connection that is to be accepted and one more, and the server is then sound. It keeps its
  -- connections and only gains new ones, under ids that were not given out before. If it succeeds,
  -- those that it has gained are exactly the connections that the system has handed out meanwhile,
  -- and the last accept would have blocked, as an edge-triggered registration needs it.
  pub accept_connections-Accepts :
      (base : List ℕ) (fuel : ℕ) (s : Server) (w : W)
      → waiting w < fuel
      → Sound opened waiting base s w
      → Accepts base s w (accept_connections flags kernel std fuel s w)
  unfolding accept_connections
  accept_connections-Accepts base zero s w enough sound = absurd (omega arith)
  accept_connections-Accepts base (suc fuel) s w enough sound =
      accepted-Accepts base fuel (accept_connections flags kernel std fuel) s w enough sound
        (λ s' w' enough' sound'. accept_connections-Accepts base fuel s' w' enough' sound')
        (accept std s.listener w) refl
        (accept-Fewer kernel std write opened nonblocking waiting law s.listener w)
        (accept-Logged kernel std log logs s.listener w)
        (accept-bind-Created std opened nonblocking law.owns s.listener (v4 0) w).0
