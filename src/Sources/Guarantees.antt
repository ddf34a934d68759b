-- ===== src/Sources/Guarantees.antt =====
-- src/lib.rs: what `poll` promises for any list of the sources of the crate.
use gaea.Base.{Option, List}
use gaea.Event.{Event}
use gaea.Event.Sink.{IsSink}
use gaea.Event.Source.{Duration, Adds, default_blocking_poll}
use gaea.UserSpace.Delivery as QueueDelivery
use gaea.Timers.Heap.{IsMinHeap}
use gaea.Timers.Delivery as TimersDelivery
use gaea.Os.Queue.Polling
use gaea.Sys.Epoll.Abi.{WaitsWithin}
use gaea.Poll.{poll}
use gaea.Poll.Order
use gaea.Sources.{
  AnySource, queue, timers, os_queue, Platform, any_poll, any_blocking_poll, any_source,
}

-- A source of user space: not the queue of the operating system.
abbrev pub InUserSpace : {H : Type 0} → AnySource H → Type 0
InUserSpace (queue q) = Unit {0}
InUserSpace (timers t) = Unit {0}
InUserSpace (os_queue o) = ⊥

module _ {H ES W E : Type 0} (p : Platform H ES W E) (contents : ES → List Event)
    (heap_law : IsMinHeap p.heap) (sink_law : IsSink p.sink contents)
    (within : WaitsWithin p.kernel) where
  any_poll-Adds :
      (x : AnySource H) (s : ES) (w : W) → Adds p.sink contents s (any_poll p x s w).sink
  unfolding any_poll
  any_poll-Adds (queue q) s w = QueueDelivery.poll-Adds p.sink contents sink_law p.panic q s w
  any_poll-Adds (timers t) s w =
      TimersDelivery.poll-Adds p.heap heap_law p.sink contents sink_law p.clock p.panic t s w
  any_poll-Adds (os_queue o) s w =
      Polling.poll-Adds p.flags p.kernel p.sink p.from contents sink_law within o s w

  any_blocking_poll-Adds :
      (x : AnySource H) (s : ES) (t : Option Duration) (w : W)
      → Adds p.sink contents s (any_blocking_poll p x s t w).sink
  unfolding any_blocking_poll default_blocking_poll
  any_blocking_poll-Adds (queue q) s t w =
      QueueDelivery.poll-Adds p.sink contents sink_law p.panic q s w
  any_blocking_poll-Adds (timers x) s t w =
      TimersDelivery.poll-Adds p.heap heap_law p.sink contents sink_law p.clock p.panic x s w
  any_blocking_poll-Adds (os_queue o) s t w =
      Polling.blocking_poll-Adds p.flags p.kernel p.sink p.from contents sink_law within o s t w

  -- If the heap of the timers, the sink and `epoll_wait` behave as documented, then over any list
  -- of queues, timers and queues of the operating system, with any timeout and also when it fails,
  -- `poll` only adds events to the sink, at the end, and all sources together add no more than the
  -- sink had capacity for.
  pub poll_within_capacity :
      (xs : List (AnySource H)) (s : ES) (t : Option Duration) (w : W)
      → Adds p.sink contents s (poll (any_source p) xs s t w).sink
  poll_within_capacity xs s t w =
      Order.poll-Adds (any_source p) p.sink contents any_poll-Adds any_blocking_poll-Adds xs s t w
