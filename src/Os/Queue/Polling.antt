-- ===== src/Os/Queue/Polling.antt =====
-- src/os/mod.rs: polling the queue of the operating system.
use gaea.Base.{◌≡◌, ◌≢◌, Option, some, List, err, IoError}
use gaea.Event.{Event, capacity_min}
use gaea.Event.Sink.{Sink, IsSink}
use gaea.Event.Source.{Duration, Adds}
use gaea.Sys.{events_cap}
use gaea.Sys.Epoll.Abi.{EpollFlags, EpollKernel, WaitsWithin}
use gaea.Sys.Epoll.{duration_to_millis}
use gaea.Sys.Epoll.Selection.{select-Adds, select_failed}
use gaea.Os.Queue.{OsQueue, poll, blocking_poll}

module _ (flags : EpollFlags) {W ES E : Type 0} (kernel : EpollKernel W) (sink : Sink ES)
    (from : IoError → E) where
  -- A poll that is not to block, into a sink with capacity left, makes a system call that does not
  -- wait: its timeout is zero milliseconds. If that call fails, its error is the error of the poll,
  -- turned into the caller's type, and the sink is as it was.
  pub poll_immediate :
      (q : OsQueue) (s : ES) (w w' : W) (e : IoError)
      → capacity_min (sink.capacity_left s) events_cap ≢ 0
      → kernel.epoll_wait q.selector.epfd
          (capacity_min (sink.capacity_left s) events_cap)
          (some 0)
          w
        ≡ (err e, w')
      → poll flags kernel sink from q s w
        ≡ record { source = q; sink = s; world = w'; result = err (from e) }
  unfolding poll duration_to_millis
  poll_immediate q s w w' e open_ failed =
      rw (select_failed flags kernel sink q.selector s (some 0) w w' e open_ failed)

  module _ (contents : ES → List Event) (sink_law : IsSink sink contents)
      (within : WaitsWithin kernel) where
    pub blocking_poll-Adds :
        (q : OsQueue) (s : ES) (t : Option Duration) (w : W)
        → Adds sink contents s (blocking_poll flags kernel sink from q s t w).sink
    unfolding blocking_poll
    blocking_poll-Adds q s t w =
        select-Adds flags sink contents sink_law kernel within q.selector s t w

    pub poll-Adds :
        (q : OsQueue) (s : ES) (w : W)
        → Adds sink contents s (poll flags kernel sink from q s w).sink
    unfolding poll
    poll-Adds q s w = blocking_poll-Adds q s (some 0) w
