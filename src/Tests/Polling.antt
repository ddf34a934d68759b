-- ===== src/Tests/Polling.antt =====
-- src/lib.rs, src/user_space.rs, src/timers.rs and src/event.rs on concrete inputs.
use gaea.Sources.Round.{Took, poll_in_order}
use gaea.Sources.Readiness.{HoldsKnown, AreKnown, poll-AreKnown}
use gaea.Base.{
  Option, raw, ℕ, ◌+◌, ◌-◌, ◌≡◌, refl, ◌↔◌, ◌⊎◌, false, none, some, List, [], ◌∷◌, ◌++◌, map, Perm,
  arith, ◌==◌, length, All, ok, IoError, interrupted,
}
use mathlib.Core.List.{Mem}
use gaea.Event.{
  Event, Capacity, limited, Ready, ready_readable, ready_writable, event_new, contains, bitor,
}
use gaea.Event.Sink.{vec_sink, vec_sink-IsSink}
use gaea.Event.Source.{Duration, Adds}
use gaea.Poll
use gaea.Poll.Order.{StoppedAt, poll_failed}
use gaea.Poll.Timeout.{NoLonger, limits, fold_timeouts_least}
use gaea.UserSpace.{Queue, max_timeout}
use gaea.UserSpace.Delivery.{poll_fifo}
use gaea.UserSpace as UserSpace
use gaea.Timers as Timers
use gaea.Os.Queue.{OsQueue}
use gaea.Event.{capacity_min, growable}
use gaea.Sys.{events_cap}
use gaea.Timers.Heap.{Deadline}
use gaea.Timers.Scan.{scan_heap, scan_heap-IsMinHeap}
use gaea.Timers.Delivery.{Delivers, timer_event, poll-Delivers, poll_timely}
use gaea.Timers.Deadlines.{remove_deadline_cases}
use gaea.Sources.{AnySource, queue, timers, os_queue, Platform, any_source, any_blocking_poll}
use gaea.Sources.Waiting.{nanos, answered, idle, GoesOn, poll_waits}
use gaea.Sources.Guarantees.{poll_within_capacity}
use gaea.Tests.Sample.{
  epoll, linux, World, epoll-WaitsWithin, interrupted_epoll, clock, platform, start, readable_event,
  writable_event, early, late,
}

abbrev one_event : Queue
one_event = record { events = readable_event ∷ [] }

abbrev two_events : Queue
two_events = record { events = readable_event ∷ writable_event ∷ [] }

abbrev two_deadlines : Timers.Timers (List Deadline)
two_deadlines = record { deadlines = late ∷ early ∷ [] }

abbrev system : AnySource (List Deadline)
system = os_queue (record { selector = record { epfd = 3 } })

abbrev all_sources : List (AnySource (List Deadline))
all_sources = queue one_event ∷ timers two_deadlines ∷ system ∷ []

abbrev user_sources : List (AnySource (List Deadline))
user_sources = queue one_event ∷ timers two_deadlines ∷ []

abbrev some_sources : List (AnySource (List Deadline))
some_sources = queue one_event ∷ system ∷ queue two_events ∷ []

-- A platform on which `epoll_wait` is interrupted.
abbrev interrupted_platform : Platform (List Deadline) (List Event) World IoError
interrupted_platform = record platform { kernel = interrupted_epoll }

poll_failed_example :
    StoppedAt
      (any_source interrupted_platform)
      interrupted
      some_sources
      (Poll.poll (any_source interrupted_platform) some_sources [] none start)
unfolding Poll.poll gaea.Sources.any_blocking_poll gaea.Event.Source.default_blocking_poll
    UserSpace.poll Poll.poll_rest gaea.Sources.any_poll gaea.Os.Queue.poll gaea.Sys.Epoll.select
    gaea.Event.capacity_min
poll_failed_example =
    poll_failed (any_source interrupted_platform) some_sources [] none start interrupted refl

fold_timeouts_least_example :
    NoLonger (some 0) (Poll.fold_timeouts (any_source platform) (some 7) all_sources start).0 ↔ (
      NoLonger (some 0) (some 7)
      × All (NoLonger (some 0)) (limits (any_source platform) all_sources start))
fold_timeouts_least_example =
    fold_timeouts_least (any_source platform) (some 0) (some 7) all_sources start

poll_within_capacity_example :
    Adds vec_sink (λ s. s) [] (Poll.poll (any_source platform) all_sources [] none start).sink
poll_within_capacity_example =
    poll_within_capacity platform (λ s. s) scan_heap-IsMinHeap vec_sink-IsSink epoll-WaitsWithin
      all_sources [] none start

poll-AreKnown_example :
    let r = Poll.poll (any_source platform) all_sources [] none start in
    All HoldsKnown r.source × AreKnown r.sink
poll-AreKnown_example =
    poll-AreKnown platform (λ s. s) scan_heap-IsMinHeap vec_sink-IsSink epoll-WaitsWithin
      all_sources [] none start ((omega arith, tt), (tt, (tt, tt))) tt

poll_in_order_example :
    (out : List Deadline) × (rest : List Deadline) × Took scan_heap scan_heap-IsMinHeap clock
      (raw 0)
      linux
      epoll
      (λ e. e)
      5
      (record { deadlines = late ∷ early ∷ [] })
      out
      rest
    × (Poll.poll
          (any_source platform)
          (system ∷ timers two_deadlines ∷ queue one_event ∷ [])
          []
          none
          start
        ≡ record {
          source =
              system ∷ timers (record { deadlines = rest }) ∷ queue (record { events = [] }) ∷ [];
          sink =
              record { id = 9; readiness = record { bits = 3 } } ∷ []
              ++ map timer_event out
              ++ one_event.events;
          world = record start { pending = [] };
          result = ok tt;
        })
unfolding Poll.fold_timeouts gaea.Sources.any_max_timeout Timers.max_timeout scan_heap
    gaea.Sys.Epoll.ep_event_to_event gaea.Sys.Epoll.contains_flag gaea.Event.bitor_assign
poll_in_order_example =
    poll_in_order scan_heap scan_heap-IsMinHeap clock (raw 0) linux epoll (λ e. e)
      (record { selector = record { epfd = 3 } }) two_deadlines one_event [] none start.pending
      start (record start { pending = [] }) refl

poll-Delivers_example :
    let r = Timers.poll scan_heap vec_sink clock interrupted two_deadlines [] start in
    (out : List Deadline) × Delivers scan_heap scan_heap-IsMinHeap vec_sink
      (λ s. s)
      vec_sink-IsSink
      5
      2
      (late ∷ early ∷ [])
      []
      out
      r.source.deadlines
      r.sink
    × (r.result ≡ ok tt)
    × (r.world ≡ start)
unfolding gaea.Event.capacity_min scan_heap
poll-Delivers_example =
    poll-Delivers scan_heap scan_heap-IsMinHeap vec_sink (λ s. s) vec_sink-IsSink clock interrupted
      two_deadlines [] start

poll_timely_example :
    (d : Deadline) × (out : List Deadline) × ((Timers.poll scan_heap vec_sink clock interrupted
        two_deadlines [] start).sink
      ≡ timer_event d ∷ map timer_event out)
unfolding Timers.timeout_at scan_heap gaea.Event.capacity_min
poll_timely_example =
    poll_timely scan_heap scan_heap-IsMinHeap vec_sink (λ s. s) vec_sink-IsSink clock interrupted
      two_deadlines [] start 1 2 refl (omega arith) refl

remove_deadline_cases_example :
    ((Timers.remove_deadline scan_heap two_deadlines 2 ≡ some two_deadlines)
      × ((d : Deadline) → Mem d (late ∷ early ∷ []) → (d.id == 2) ≡ false))
    ⊎ ((d : Deadline) × (t' : Timers.Timers (List Deadline)) × (Timers.remove_deadline scan_heap
            two_deadlines 2
          ≡ some t')
        × (d.id ≡ 2)
        × Perm (d ∷ t'.deadlines) (late ∷ early ∷ []))
unfolding scan_heap
remove_deadline_cases_example = remove_deadline_cases scan_heap scan_heap-IsMinHeap two_deadlines 2

poll_waits_example :
    let xs = system ∷ queue one_event ∷ timers two_deadlines ∷ [] in
    let rest = queue one_event ∷ timers two_deadlines ∷ [] in
    let o : OsQueue = record { selector = record { epfd = 3 } } in
    let w₁ = (Poll.fold_timeouts (any_source platform) none xs start).1 in
    let cap = capacity_min growable events_cap in
    ((cap ≡ 0) × GoesOn platform o rest [] none start (idle platform o [] w₁))
    ⊎ ((millis : Option ℕ) × GoesOn platform o rest [] none start
          (answered platform o [] (epoll.epoll_wait 3 cap millis w₁))
        × NoLonger (nanos millis) none
        × All (NoLonger (nanos millis)) (limits (any_source platform) xs start))
poll_waits_example =
    poll_waits platform (record { selector = record { epfd = 3 } })
      (queue one_event ∷ timers two_deadlines ∷ []) [] none start

poll_fifo_example :
    let r = UserSpace.poll vec_sink interrupted two_events (writable_event ∷ []) start in
    (r.sink ++ r.source.events ≡ writable_event ∷ readable_event ∷ writable_event ∷ [])
    × (length r.source.events + 2 ≡ 2)
    × (r.result ≡ ok tt)
unfolding gaea.Event.capacity_min
poll_fifo_example =
    poll_fifo vec_sink (λ s. s) vec_sink-IsSink interrupted two_events (writable_event ∷ []) start

-- A sink with a capacity, and what it holds.
abbrev add_within : ℕ × List Event → Event → ℕ × List Event
add_within (left, held) e = (left - 1, held ++ e ∷ [])
