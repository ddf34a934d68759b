-- ===== src/Sources/Readiness.antt =====
-- src/event.rs and the sources of the crate: which bits the readiness of an event has.
use gaea.Base.{
  ℕ, ◌^◌, ◌<◌, sym, subst, inl, inr, Option, some, List, [], ◌∷◌, ◌++◌, map, arith, Bool-cases, All,
}
use gaea.Bits.{bit_or-lt}
use gaea.Event.{
  Event, Ready, ready_empty, ready_readable, ready_writable, ready_error, ready_hup, bitor_assign,
}
use gaea.Event.Sink.{IsSink}
use gaea.Event.Source.{Polled, Duration, default_blocking_poll}
use gaea.UserSpace.{Queue}
use gaea.UserSpace.Delivery as QueueDelivery
use gaea.Timers.Heap.{IsMinHeap, Deadline}
use gaea.Timers.Delivery as TimersDelivery
use gaea.Os.Queue.{OsQueue, blocking_poll}
use gaea.Sys.Epoll.Abi.{EpollFlags, EpEvent, WaitsWithin}
use gaea.Sys.Epoll.{ep_event_to_event, note, select}
use gaea.Sys.Epoll.Selection.{select_cases}
use gaea.Poll.{poll}
use gaea.Poll.Invariants.{poll-preserves}
use gaea.Sources.{
  AnySource, queue, timers, os_queue, Platform, any_poll, any_blocking_poll, any_source,
}

-- A readiness with no bits but the five flags.
abbrev pub IsKnown : Ready → Type 0
IsKnown r = r.bits < 2 ^ 5

abbrev pub AreKnown : List Event → Type 0
AreKnown es = All (λ e. IsKnown e.readiness) es

-- The events that a source holds are those that were added to it.
abbrev pub HoldsKnown : {H : Type 0} → AnySource H → Type 0
HoldsKnown (queue q) = AreKnown q.events
HoldsKnown (timers t) = Unit {0}
HoldsKnown (os_queue o) = Unit {0}

AreKnown-append : (es fs : List Event) → AreKnown es → AreKnown fs → AreKnown (es ++ fs)
AreKnown-append [] fs a b = b
AreKnown-append (e ∷ es) fs (x, a) b = (x, AreKnown-append es fs a b)

AreKnown-left : (es fs : List Event) → AreKnown (es ++ fs) → AreKnown es
AreKnown-left [] fs a = tt
AreKnown-left (e ∷ es) fs (x, a) = (x, AreKnown-left es fs a)

AreKnown-right : (es fs : List Event) → AreKnown (es ++ fs) → AreKnown fs
AreKnown-right [] fs a = a
AreKnown-right (e ∷ es) fs (x, a) = AreKnown-right es fs a

note-IsKnown :
    (epoll flag : ℕ) (ready r : Ready)
    → IsKnown ready
    → IsKnown r
    → IsKnown (note epoll flag ready r)
unfolding bitor_assign
note-IsKnown epoll flag ready r known known' =
    elim (Bool-cases (gaea.Sys.Epoll.contains_flag epoll flag)) [
      | inl e ↦ rw e (bit_or-lt 5 r.bits ready.bits known' known)
      | inr e ↦ rw e known'
    ]

-- What the selector makes of an event of the system has no bits but the flags, whatever the system
-- says.
ep_event_to_event-IsKnown :
    (flags : EpollFlags) (e : EpEvent) → IsKnown (ep_event_to_event flags e).readiness
unfolding ep_event_to_event
ep_event_to_event-IsKnown flags e = note-IsKnown e.events _ ready_hup _ (omega arith) (
    note-IsKnown e.events flags.epollerr ready_error _ (omega arith) (
      note-IsKnown e.events flags.epollout ready_writable _ (omega arith)
        (note-IsKnown e.events _ ready_readable ready_empty (omega arith) (omega arith))))

converted-AreKnown :
    (flags : EpollFlags) (es : List EpEvent) → AreKnown (map (ep_event_to_event flags) es)
converted-AreKnown flags [] = tt
converted-AreKnown flags (e ∷ es) = (ep_event_to_event-IsKnown flags e, converted-AreKnown flags es)

timers-AreKnown : (ds : List Deadline) → AreKnown (map TimersDelivery.timer_event ds)
timers-AreKnown [] = tt
timers-AreKnown (d ∷ ds) = (omega arith, timers-AreKnown ds)

module _ {H ES W E : Type 0} (p : Platform H ES W E) (contents : ES → List Event)
    (heap_law : IsMinHeap p.heap) (sink_law : IsSink p.sink contents)
    (within : WaitsWithin p.kernel) where
  abbrev Stores : ES → Type 0
  Stores s = AreKnown (contents s)

  -- What a call on a source leaves.
  abbrev Leaves : Polled (AnySource H) ES W E → Type 0
  Leaves r = HoldsKnown r.source × Stores r.sink

  queue-Leaves :
      (q : Queue) (s : ES) (w : W)
      → AreKnown q.events
      → Stores s
      → Leaves (any_poll p (queue q) s w)
  unfolding any_poll
  queue-Leaves q s w held stored =
      let (moved, count, fine) = QueueDelivery.poll_fifo p.sink contents sink_law p.panic q s w in
      let all = subst AreKnown (sym moved) (AreKnown-append (contents s) q.events stored held) in
      (AreKnown-right _ _ all, AreKnown-left _ _ all)

  timers-Leaves :
      (t : gaea.Timers.Timers H) (s : ES) (w : W) → Stores s → Leaves (any_poll p (timers t) s w)
  unfolding any_poll
  timers-Leaves t s w stored =
      let (out, del, fine, same) =
        TimersDelivery.poll-Delivers p.heap heap_law p.sink contents sink_law p.clock p.panic t s
          w in
      (
        tt,
        subst AreKnown (sym del.stored)
            (AreKnown-append (contents s) _ stored (timers-AreKnown out)),
      )

  select-Stores :
      (o : OsQueue) (s : ES) (t : Option Duration) (w : W)
      → Stores s
      → Stores (select p.flags p.kernel p.sink o.selector s t w).1
  select-Stores o s t w stored =
      elim (select_cases p.flags p.sink contents sink_law p.kernel within o.selector s t w) [
        | inl (full, same) ↦ rw same stored
        | inr (inl (open_, e, w', failed, same)) ↦ rw same stored
        | inr (inr (open_, es, w', got, fine, held, left, world)) ↦
            subst AreKnown (sym held)
              (AreKnown-append (contents s) _ stored (converted-AreKnown p.flags es))
      ]

  any_poll-Leaves :
      (x : AnySource H) (s : ES) (w : W) → HoldsKnown x → Stores s → Leaves (any_poll p x s w)
  unfolding any_poll gaea.Os.Queue.poll blocking_poll
  any_poll-Leaves (queue q) s w held stored = queue-Leaves q s w held stored
  any_poll-Leaves (timers t) s w held stored = timers-Leaves t s w stored
  any_poll-Leaves (os_queue o) s w held stored = (tt, select-Stores o s (some 0) w stored)

  any_blocking_poll-Leaves :
      (x : AnySource H) (s : ES) (t : Option Duration) (w : W)
      → HoldsKnown x
      → Stores s
      → Leaves (any_blocking_poll p x s t w)
  unfolding any_blocking_poll default_blocking_poll blocking_poll any_poll
  any_blocking_poll-Leaves (queue q) s t w held stored = queue-Leaves q s w held stored
  any_blocking_poll-Leaves (timers x) s t w held stored = timers-Leaves x s w stored
  any_blocking_poll-Leaves (os_queue o) s t w held stored = (tt, select-Stores o s t w stored)

  -- If the heap of the timers, the sink and `epoll_wait` behave as documented, then over any list
  -- of queues, timers and queues of the operating system, also when it fails, `poll` keeps this:
  -- the events in the sink and those that the sources still hold have a readiness with no bits but
  -- the five flags, whatever bits the system reports.
  pub poll-AreKnown :
      (xs : List (AnySource H)) (s : ES) (t : Option Duration) (w : W)
      → All HoldsKnown xs
      → AreKnown (contents s)
      → All HoldsKnown (poll (any_source p) xs s t w).source
        × AreKnown (contents (poll (any_source p) xs s t w).sink)
  poll-AreKnown xs s t w held stored =
      poll-preserves (any_source p) HoldsKnown Stores any_poll-Leaves any_blocking_poll-Leaves xs s
        t w held stored
