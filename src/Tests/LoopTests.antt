-- ===== src/Tests/LoopTests.antt =====
-- examples/signals.rs on concrete inputs.
use gaea.Base.{ℕ, ◌≡◌, refl, true, some, List, [], ◌∷◌, arith, ok}
use gaea.Os.Signals.{from_raw}
use gaea.Sys.Epoll.Abi.{EpEvent, EpollKernel}
use gaea.Tests.Sample.{linux}
use gaea.Tests.SignalTests.{World, numbers, system, handler, system-IsSignalfd}
use gaea.SignalLoop.{run, got_interrupt, got_unknown_signal, got_terminate}
use gaea.SignalLoop.Handling.{ReportsSignals, run-returns}

abbrev report : EpEvent
report = record { events = 1; u64 = 10 }

-- Pending signals are reported, and the next read is interrupted once.
wait : List ℕ → World → List EpEvent × World
wait [] w = ([], w)
wait (n ∷ ns) w = (report ∷ [], record w { interruptions = 1 })

-- An epoll with the descriptor of the signals.
abbrev epolls : EpollKernel World
unfolding wait
epolls = record {
  epoll_create1 = λ w. (ok 3, w);
  close = λ fd w. (ok tt, w);
  epoll_ctl = λ epfd op fd event w. (ok tt, w);
  epoll_wait = λ epfd cap timeout w. let (es, w') = wait w.pending w in (ok es, w');
}

epolls-ReportsSignals : ReportsSignals epolls (λ w. w.pending) (λ w. w.interruptions) 3 2 report
unfolding wait
epolls-ReportsSignals = record {
  id = refl;
  waits = λ cap n ns w room e. (record w { interruptions = 1 }, rw e refl, e, omega arith);
}

abbrev four_signals : World
four_signals = record { pending = 2 ∷ 10 ∷ 15 ∷ 3 ∷ []; interruptions = 0; blocked = [] }

run-returns_example :
    (w' : World) × (run numbers system linux epolls 2 5
        (record { selector = record { epfd = 3 } })
        (record { inner = handler })
        []
        four_signals
      ≡ some (
        ok true,
        got_interrupt
            ∷ got_unknown_signal (record { id = 10; readiness = record { bits = 1 } })
            ∷ got_terminate
            ∷ [],
        w',
      ))
    × (w'.pending ≡ 3 ∷ [])
unfolding from_raw gaea.SignalLoop.print_signal gaea.Sys.Epoll.ep_event_to_event
    gaea.Sys.Epoll.contains_flag gaea.Event.bitor_assign
run-returns_example =
    run-returns numbers system linux epolls (record { selector = record { epfd = 3 } })
      (record { inner = handler }) (λ w. w.pending) (λ w. w.interruptions) 2 report
      system-IsSignalfd epolls-ReportsSignals 5 [] four_signals (2 ∷ 10 ∷ []) 15 (3 ∷ []) refl
      ((λ e. cc), ((λ e. cc), tt)) refl (omega arith)
