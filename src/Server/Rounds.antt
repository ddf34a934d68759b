-- ===== src/Server/Rounds.antt =====
-- examples/tcp_server.rs: the rounds of the event loop.
use mathlib.Core.List.Perm
use gaea.Base.{
  ℕ, zero, suc, ◌≤◌, ◌<◌, ◌≡◌, refl, sym, subst, inl, inr, Bool, Option, none, some, List, [], ◌∷◌,
  Perm, arith, ◌==◌, Bool-cases, Result, ok, err, IoError, IoResult,
}
use gaea.Base.Io.{Io}
use gaea.Event.{Event}
use gaea.Sys.Epoll.Abi.{EpollFlags, EpollKernel}
use gaea.Sys.Net.Abi.{SocketAddr, StdSockets}
use gaea.Server.{Server, Returns}
use gaea.Server.Abi.{IsSystem, IsLog}
use gaea.Server.{and_then, handle_events, serve}
use gaea.Server.Sound.{Sound, Sound-world, Later, Later-refl, Later-trans}
use gaea.Event.{capacity_min}
use gaea.Event.Sink.{vec_sink}
use gaea.Event.Source.{Polled, Duration}
use gaea.Os.Queue.{OsQueue, os_source, blocking_poll, map_err}
use gaea.Poll.{poll, poll_rest, and_then as then_rest, fold_timeouts}
use gaea.Poll.Order.{poll_first}
use gaea.Sys.{events_cap}
use gaea.Sys.Epoll.{select}
use gaea.Server.{serve_once}
use gaea.Server.Serving.{Serves, handle_event-Serves}

module _ (flags : EpollFlags) {W : Type 0} (kernel : EpollKernel W) (std : StdSockets W)
    (write : ℕ → List ℕ → Io W ℕ) (to_string : SocketAddr → List ℕ) (opened : W → List ℕ)
    (nonblocking : W → ℕ → Bool) (waiting : W → ℕ)
    (law : IsSystem kernel std write opened nonblocking waiting) (log : W → List (ℕ × SocketAddr))
    (logs : IsLog kernel std log) where
  abbrev IsSound : List ℕ → Server → W → Type 0
  IsSound = Sound opened waiting

  abbrev IsServed : List ℕ → Server → W → Returns W → Type 0
  IsServed = Serves flags kernel std write to_string opened nonblocking waiting law log logs

  -- Only the wait of a poll changes the world.
  abbrev Waited : W → W → Type 0
  Waited w w' = (opened w' ≡ opened w) × (waiting w' ≤ waiting w)

  select-Waited :
      (q : OsQueue) (s : List Event) (t : Option Duration) (w : W)
      → Waited w (select flags kernel vec_sink q.selector s t w).2
  unfolding select
  select-Waited q s t w =
      elim (Bool-cases (capacity_min (vec_sink.capacity_left s) events_cap == 0)) [
        | inl full ↦ rw full (refl, omega arith)
        | inr open_ ↦ rw open_ (law.wait_keeps _ _ _ w, law.wait_quiet _ _ _ w)
      ]

  -- The source is the only one.
  one_source :
      (first : Polled OsQueue (List Event) W IoError)
      → (then_rest
          (os_source flags kernel vec_sink (λ e. e))
          first
          []
          (poll_rest (os_source flags kernel vec_sink (λ e. e)) [] first.sink first.world)).world
        ≡ first.world
  unfolding poll_rest
  one_source first = go first.result
    where
      go :
          (r : Result (Unit {0}) IoError)
          → (then_rest
              (os_source flags kernel vec_sink (λ e. e))
              (record first { result = r })
              []
              (poll_rest
                (os_source flags kernel vec_sink (λ e. e))
                []
                first.sink
                first.world)).world
            ≡ first.world
      go (ok u) = refl
      go (err e) = refl

  poll-Waited :
      (q : OsQueue) (s : List Event) (w : W)
      → Waited w (poll (os_source flags kernel vec_sink (λ e. e)) (q ∷ []) s none w).world
  unfolding fold_timeouts poll_rest blocking_poll gaea.Poll.min_timeout gaea.Os.Queue.max_timeout
  poll-Waited q s w =
      let methods = os_source flags kernel {E = IoError} vec_sink (λ e. e) in
      let (r, s', w') = select flags kernel vec_sink q.selector s none w in
      rw (poll_first methods q [] s none w) (
        rw (one_source (record { source = q; sink = s'; world = w'; result = map_err (λ e. e) r }))
          (select-Waited q s none w))

  longer :
      (base : List ℕ) (s s' : Server) (w w' : W)
      → waiting w' ≤ waiting w
      → Later s s'
      → (r : Returns W) → IsServed base s' w' r
      → IsServed base s w r
  longer base s s' w w' less later none k = k
  longer base s s' w w' less later (some (x, t, w'')) (sound, less', later') =
      (sound, omega arith, Later-trans s s' t later later')

  then-Serves :
      (base : List ℕ) (fuel : ℕ) (next : Server → W → Returns W) (s : Server) (w : W)
      → waiting w < fuel
      → ((s' : Server) (w' : W)
          → waiting w' < fuel
          → IsSound base s' w'
          → IsServed base s' w' (next s' w'))
      → (r : Returns W) → IsServed base s w r
      → IsServed base s w (and_then r next)
  unfolding and_then
  then-Serves base fuel next s w enough h none k = k
  then-Serves base fuel next s w enough h (some (ok u, s', w')) (sound, less, later) =
      longer base s s' w w' less later (next s' w') (h s' w' (omega arith) sound)
  then-Serves base fuel next s w enough h (some (err e, s', w')) k = k

  -- Any number of events is handled.
  pub handle_events-Serves :
      (base : List ℕ) (fuel : ℕ) (events : List Event) (s : Server) (w : W)
      → waiting w < fuel
      → IsSound base s w
      → IsServed base s w (handle_events flags kernel std write to_string fuel events s w)
  unfolding handle_events
  handle_events-Serves base fuel [] s w enough sound = (sound, omega arith, Later-refl s)
  handle_events-Serves base fuel (event ∷ events) s w enough sound =
      then-Serves base fuel _ s w enough
        (λ s' w' enough' sound'. handle_events-Serves base fuel events s' w' enough' sound') _
        (handle_event-Serves flags kernel std write to_string opened nonblocking waiting law log
          logs base fuel event s w enough sound)

  serve_once-Serves :
      (base : List ℕ) (fuel : ℕ) (s : Server) (w : W)
      → waiting w < fuel
      → IsSound base s w
      → IsServed base s w (serve_once flags kernel std write to_string fuel s w)
  unfolding serve_once
  serve_once-Serves base fuel s w enough sound =
      let polled = poll (os_source flags kernel vec_sink (λ e. e)) (s.os_queue ∷ []) [] none w in
      let (kept, less) = poll-Waited s.os_queue [] w in
      let sound' =
        Sound-world opened waiting base s w polled.world less
          (subst (λ l. Perm l (opened w)) (sym kept) Perm.rfl) sound in
      go polled.result polled.sink polled.world less sound'
    where
      go :
          (r : IoResult (Unit {0})) (events : List Event) (w' : W)
          → waiting w' ≤ waiting w
          → IsSound base s w'
          → IsServed base s w (elim r [
            | ok u ↦ handle_events flags kernel std write to_string fuel events s w'
            | err e ↦ some (err e, s, w')
          ])
      go (ok u) events w' less sound' =
          longer base s s w w' less (Later-refl s)
            (handle_events flags kernel std write to_string fuel events s w')
            (handle_events-Serves base fuel events s w' (omega arith) sound')
      go (err e) events w' less sound' = (sound', less, Later-refl s)

  -- If the system behaves as documented and the server is sound, then for any number of rounds,
  -- whatever the events and errors, the server returns: its assertion does not fail, and the fuel
  -- is enough if it is more than the connections that are to be accepted. It is then sound again:
  -- no two connections have the same id, every id was given out before, and the descriptors that
  -- are open are those of its connections and those that were open before. The counter of the ids
  -- has only grown, and an id that had been given out is that of the same connection as at the
  -- start or of none: no id is given out again.
  pub serve-Serves :
      (base : List ℕ) (fuel rounds : ℕ) (s : Server) (w : W)
      → waiting w < fuel
      → IsSound base s w
      → IsServed base s w (serve flags kernel std write to_string fuel rounds s w)
  unfolding serve
  serve-Serves base fuel zero s w enough sound = (sound, omega arith, Later-refl s)
  serve-Serves base fuel (suc rounds) s w enough sound =
      then-Serves base fuel _ s w enough
        (λ s' w' enough' sound'. serve-Serves base fuel rounds s' w' enough' sound') _
        (serve_once-Serves base fuel s w enough sound)
