-- ===== src/Tests/TimerTests.antt =====
-- src/timers.rs: a run of the timers against the reference, on concrete inputs.
use gaea.Base.{◌≡◌, refl, List, [], ◌∷◌, IoError, interrupted}
use gaea.Event.{ready_timer, event_new, Event, growable}
use gaea.Event.Sink.{vec_sink, vec_sink-IsSink}
use gaea.Timers.Heap.{Deadline}
use gaea.Timers.Scan.{scan_heap, scan_heap-IsMinHeap}
use gaea.Timers.Reference.{
  Reference, Running, Call, adding_deadline, adding_timeout, asking, polling, reference_run,
  timers_run,
}
use gaea.Timers.Equivalence.{Agrees, timers_run-Agrees}
use gaea.Tests.Sample.{World, clock, start, early, late}

abbrev calls : List Call
calls = adding_timeout 7 4 ∷ adding_deadline 9 5 ∷ polling ∷ asking ∷ []

abbrev running : Running (List Deadline) (List Event) World
running = record { source = record { deadlines = late ∷ early ∷ [] }; sink = []; world = start }

abbrev reference : Reference World
reference = record { queue = early ∷ late ∷ []; events = []; left = growable; world = start }

running-Agrees :
    Agrees scan_heap scan_heap-IsMinHeap vec_sink (λ s. s) vec_sink-IsSink running reference
unfolding gaea.Timers.Ordered.ordered scan_heap
running-Agrees = record { queue = refl; events = refl; left = refl; world = refl }

timers_run-Agrees_example :
    ((timers_run scan_heap vec_sink clock interrupted calls running).0
      ≡ (reference_run clock IoError calls reference).0)
    × Agrees scan_heap scan_heap-IsMinHeap vec_sink
        (λ s. s)
        vec_sink-IsSink
        (timers_run scan_heap vec_sink clock interrupted calls running).1
        (reference_run clock IoError calls reference).1
timers_run-Agrees_example =
    timers_run-Agrees scan_heap scan_heap-IsMinHeap vec_sink (λ s. s) vec_sink-IsSink clock
      interrupted calls running reference running-Agrees

-- The deadlines at 3 and 5 have passed when the timers are polled at 5.
run_events :
    (reference_run clock IoError calls reference).1.events
    ≡ event_new 1 ready_timer ∷ event_new 9 ready_timer ∷ []
unfolding reference_run gaea.Event.capacity_min
run_events = refl
