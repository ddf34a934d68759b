-- ===== src/Sources.antt =====
-- The three event sources of the crate together: a list of them under `poll` of src/lib.rs. The
-- errors of the caller are those of the operating system, turned by `from`; `panic` stands for a
-- panic of the timers or of a queue.
pub mod Guarantees
pub mod Waiting
pub mod Readiness
pub mod Steps
pub mod Round
use gaea.Base.{ℕ, Option, IoError}
use gaea.Event.{Event}
use gaea.Event.Sink.{Sink}
use gaea.Event.Source.{Source, Polled, Duration}
use gaea.UserSpace.{Queue, queue_source}
use gaea.Timers.Heap.{MinHeap}
use gaea.Timers.{Timers, timers_source}
use gaea.Os.Queue.{OsQueue, os_source}
use gaea.Sys.Epoll.Abi.{EpollFlags, EpollKernel}

-- What `&mut dyn event::Source` refers to.
pub data AnySource (H : Type 0) : Type 0 where
  queue : Queue → AnySource H
  timers : Timers H → AnySource H
  os_queue : OsQueue → AnySource H

-- A call on a source of one kind is a call on any source.
abbrev pub any :
    {S H ES W E : Type 0} → (S → AnySource H) → Polled S ES W E → Polled (AnySource H) ES W E
any kind r = record { source = kind r.source; sink = r.sink; world = r.world; result = r.result }

-- What the sources need from outside.
pub record Platform (H ES W E : Type 0) : Type 0 where
  pub heap : MinHeap H
  pub sink : Sink ES
  pub clock : W → ℕ × W
  pub panic : E
  pub flags : EpollFlags
  pub kernel : EpollKernel W
  pub from : IoError → E

module _ {H ES W E : Type 0} (p : Platform H ES W E) where
  abbrev pub queue_methods : Source Queue ES W E
  queue_methods = queue_source p.sink p.panic

  abbrev pub timers_methods : Source (Timers H) ES W E
  timers_methods = timers_source p.heap p.sink p.clock p.panic

  abbrev pub os_methods : Source OsQueue ES W E
  os_methods = os_source p.flags p.kernel p.sink p.from

  unfoldable pub any_max_timeout : AnySource H → W → Option Duration × W
  any_max_timeout (queue q) w = queue_methods.max_timeout q w
  any_max_timeout (timers t) w = timers_methods.max_timeout t w
  any_max_timeout (os_queue o) w = os_methods.max_timeout o w

  unfoldable pub any_poll : AnySource H → ES → W → Polled (AnySource H) ES W E
  any_poll (queue q) s w = any queue (queue_methods.poll q s w)
  any_poll (timers t) s w = any timers (timers_methods.poll t s w)
  any_poll (os_queue o) s w = any os_queue (os_methods.poll o s w)

  unfoldable pub any_blocking_poll :
      AnySource H → ES → Option Duration → W → Polled (AnySource H) ES W E
  any_blocking_poll (queue q) s t w = any queue (queue_methods.blocking_poll q s t w)
  any_blocking_poll (timers x) s t w = any timers (timers_methods.blocking_poll x s t w)
  any_blocking_poll (os_queue o) s t w = any os_queue (os_methods.blocking_poll o s t w)

  -- Dynamic dispatch.
  abbrev pub any_source : Source (AnySource H) ES W E
  any_source = record {
    max_timeout = any_max_timeout;
    poll = any_poll;
    blocking_poll = any_blocking_poll;
  }
