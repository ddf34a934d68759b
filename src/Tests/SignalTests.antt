-- ===== src/Tests/SignalTests.antt =====
-- src/sys/unix/signals.rs on concrete inputs.
use gaea.Base.Io.{Io}
use gaea.Base.{
  ℕ, zero, suc, ◌<◌, ◌≡◌, refl, ◌⊎◌, none, List, [], ◌∷◌, ◌++◌, arith, ok, err, would_block,
  interrupted, raw,
}
use gaea.Os.Signals.{SignalSet, SignalNumbers, quit, from_raw}
use gaea.Sys.Epoll.Abi.{EpollKernel}
use gaea.Sys.SignalFd.Abi.{SignalKernel, IsSignalfd, siginfo_size}
use gaea.Sys.SignalFd.{Signals, returned, receive, new}
use gaea.Sys.SignalFd.Receiving.{receive-next}
use gaea.Sys.SignalFd.Blocking.{TracksMask, new_failed}
use gaea.Tests.Sample.{linux}
use gaea.Os.Signals.{Signal, from, contains}

abbrev pub numbers : SignalNumbers
numbers = record { sigint = 2; sigquit = 3; sigterm = 15 }

-- The signals that are pending, how often reads are still interrupted, and the blocked signals.
pub record World : Type 0 where
  pub pending : List ℕ
  pub interruptions : ℕ
  pub blocked : List ℕ

calm_read : List ℕ → Io World (ℕ × ℕ)
calm_read [] w = (err would_block, w)
calm_read (n ∷ ns) w = (ok (siginfo_size, n), record w { pending = ns })

pub read : ℕ → ℕ → Io World (ℕ × ℕ)
unfolding calm_read
read fd zero w = calm_read w.pending w
read fd (suc i) w = (err interrupted, record w { interruptions = i })

abbrev pub system : SignalKernel World (List ℕ)
system = record {
  sigemptyset = λ w. (ok [], w);
  sigaddset = λ set n w. (ok (n ∷ set), w);
  signalfd = λ set w. (ok 8, w);
  sigprocmask_block = λ set w. (ok tt, record w { blocked = set ++ w.blocked });
  read = λ fd w. read fd w.interruptions w;
}

abbrev pub handler : Signals
handler = record { fd = 8 }

interrupts-read :
    (i : ℕ) (w : World)
    → w.interruptions ≡ i
    → 0 < i
    → (w' : World) × (read 8 i w ≡ (err interrupted, w'))
      × (suc w'.interruptions ≡ i)
      × (w'.pending ≡ w.pending)
unfolding read
interrupts-read zero w e h = absurd (omega arith)
interrupts-read (suc i) w e h = (record w { interruptions = i }, refl, refl, refl)

pub system-IsSignalfd : IsSignalfd system (λ w. w.pending) (λ w. w.interruptions) 8
unfolding read calm_read
system-IsSignalfd = record {
  interrupts = λ w h. interrupts-read w.interruptions w refl h;
  blocks = λ w h e. (w, rw (h, e) refl, e);
  takes = λ n ns w h e. (record w { pending = ns }, rw (h, e) refl, refl);
}

abbrev busy : World
busy = record { pending = 3 ∷ 2 ∷ []; interruptions = 2; blocked = [] }

receive-next_example :
    ((busy.pending ≡ [])
      × (w' : World) × (receive numbers system 3 handler busy ≡ returned (ok none) w')
      × (w'.pending ≡ []))
    ⊎ ((n : ℕ) × (ns : List ℕ) × (w' : World) × (busy.pending ≡ n ∷ ns)
        × (receive numbers system 3 handler busy ≡ returned (ok (from_raw numbers n)) w')
        × (w'.pending ≡ ns))
receive-next_example =
    receive-next numbers system handler (λ w. w.pending) (λ w. w.interruptions) system-IsSignalfd 3
      busy (omega arith)

-- An epoll that refuses every registration.
abbrev refusing : EpollKernel World
refusing = record {
  epoll_create1 = λ w. (ok 3, w);
  close = λ fd w. (ok tt, w);
  epoll_ctl = λ epfd op fd event w. (err (raw 12), w);
  epoll_wait = λ epfd cap timeout w. (ok [], w);
}

system-TracksMask : TracksMask system refusing (λ w. w.blocked)
system-TracksMask = record {
  sigemptyset_keeps = λ w. refl;
  sigaddset_keeps = λ set n w. refl;
  signalfd_keeps = λ set w. refl;
  epoll_ctl_keeps = λ epfd fd op event w. refl;
  sigprocmask_keeps = λ set w w' e r. cc;
}

abbrev pub two_signals : SignalSet
two_signals = record { bits = 3 }

new_failed_example :
    (new numbers system linux refusing (record { epfd = 3 }) two_signals 1 busy).1.blocked ≡ []
unfolding new gaea.Os.Signals.each gaea.Sys.Epoll.register
new_failed_example =
    new_failed numbers system linux refusing (λ w. w.blocked) system-TracksMask
      (record { epfd = 3 }) two_signals 1 busy
      (new numbers system linux refusing (record { epfd = 3 }) two_signals 1 busy).1 (raw 12) refl
