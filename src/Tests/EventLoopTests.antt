-- ===== src/Tests/EventLoopTests.antt =====
-- src/lib.rs: the event loop of the documentation on concrete inputs.
use gaea.Base.{ℕ, zero, suc, ◌+◌, ◌≡◌, refl, List, [], ◌∷◌, ok, err, interrupted, IoResult}
use gaea.Event.{event_new, ready_readable, Event}
use gaea.EventLoop.{Program, start, run}
use gaea.EventLoop.Printing.{output, reference, run-reference}
use gaea.Os.Queue.{OsQueue}
use gaea.Sources.Steps.{vec_platform}
use gaea.Sys.Epoll.Abi.{EpollKernel, EpEvent}
use gaea.Timers.Scan.{scan_heap}
use gaea.Tests.Sample.{linux}

-- The world counts the waits; the second answers with an event, and the third fails.
answer : ℕ → IoResult (List EpEvent)
answer (suc zero) = ok (record { events = 1; u64 = 7 } ∷ [])
answer (suc (suc zero)) = err interrupted
answer _ = ok []

abbrev kernel : EpollKernel ℕ
kernel = record {
  epoll_create1 = λ w. (ok 3, w);
  close = λ fd w. (ok tt, w);
  epoll_ctl = λ epfd op fd ev w. (ok tt, w);
  epoll_wait = λ epfd cap t w. (answer w, w + 1);
}

abbrev os_queue : OsQueue
os_queue = record { selector = record { epfd = 3 } }

abbrev queued : List Event
queued = event_new 0 ready_readable ∷ []

run-reference_example :
    output (
      run (vec_platform scan_heap (λ w. (w, w)) interrupted linux kernel (λ e. e)) 5 (record {
        program = record { os_queue = os_queue; queue = record { events = queued } };
        lines = [];
        world = 0;
      }))
    ≡ reference linux kernel 3 5 queued [] 0
run-reference_example =
    run-reference scan_heap (λ w. (w, w)) interrupted linux kernel 5 os_queue queued [] 0

-- The event of the queue, that of the system, and then the error.
reference_prints : reference linux kernel 3 5 queued [] 0 ≡ (
  err interrupted,
  record { id = 0; readiness = ready_readable }
      ∷ record { id = 7; readiness = ready_readable }
      ∷ [],
  3,
)
unfolding reference answer gaea.Sys.Epoll.ep_event_to_event gaea.Event.bitor_assign
    gaea.Sys.Epoll.contains_flag
reference_prints = refl

abbrev started : Program
started = record { os_queue = os_queue; queue = record { events = queued } }

-- The program starts with the event in its queue.
start_queues :
    start (vec_platform scan_heap (λ w. (w, w)) interrupted linux kernel (λ e. e)) 0
    ≡ (ok started, 0)
unfolding start gaea.Os.Queue.new gaea.UserSpace.add gaea.UserSpace.new
start_queues = refl
