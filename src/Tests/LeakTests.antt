-- ===== src/Tests/LeakTests.antt =====
-- src/sys/unix/awakener.rs and src/sys/unix/signals.rs on a system that refuses registrations.
use gaea.Base.{ℕ, ◌+◌, ◌≡◌, refl, List, [], ◌∷◌, length, ok, err, would_block, raw}
use gaea.Base.Io.{Io}
use gaea.Os.Signals.{SignalSet}
use gaea.Sys.Awakener as Eventfd
use gaea.Sys.Awakener.Abi.{EventfdKernel}
use gaea.Sys.Epoll.Abi.{EpollKernel}
use gaea.Sys.Leaks.{TracksHandles, new_leaks}
use gaea.Sys.SignalFd as SignalFd
use gaea.Sys.SignalFd.Abi.{SignalKernel}
use gaea.Tests.Sample.{linux}
use gaea.Tests.SignalTests.{numbers, two_signals}

-- The world is the list of the descriptors that are open.
open_next : Io (List ℕ) ℕ
open_next w = (ok (3 + length w), (3 + length w) ∷ w)

abbrev eventfds : EventfdKernel (List ℕ)
eventfds = record {
  eventfd = open_next;
  dup = λ fd. open_next;
  read = λ fd w. (err would_block, w);
  write = λ fd n w. (ok tt, w);
}

abbrev signalfds : SignalKernel (List ℕ) (List ℕ)
signalfds = record {
  sigemptyset = λ w. (ok [], w);
  sigaddset = λ set n w. (ok (n ∷ set), w);
  signalfd = λ set. open_next;
  sigprocmask_block = λ set w. (ok tt, w);
  read = λ fd w. (err would_block, w);
}

abbrev full_epoll : EpollKernel (List ℕ)
full_epoll = record {
  epoll_create1 = open_next;
  close = λ fd w. (ok tt, w);
  epoll_ctl = λ epfd op fd event w. (err (raw 28), w);
  epoll_wait = λ epfd cap timeout w. (ok [], w);
}

system-TracksHandles : TracksHandles eventfds signalfds full_epoll (λ w. w)
unfolding open_next
system-TracksHandles = record {
  eventfd_opens = λ fd w w' e. cc;
  signalfd_opens = λ set fd w w' e. cc;
  sigemptyset_keeps = λ w. refl;
  sigaddset_keeps = λ set n w. refl;
  sigprocmask_keeps = λ set w. refl;
  epoll_ctl_keeps = λ epfd op fd event w. refl;
}

new_leaks_example :
    ((SignalFd.new numbers signalfds linux full_epoll
        (record { epfd = 3 })
        two_signals
        1
        (3 ∷ [])).1
      ≡ 4 ∷ 3 ∷ [])
    × ((Eventfd.new eventfds linux full_epoll (record { epfd = 3 }) 2 (3 ∷ [])).1 ≡ 4 ∷ 3 ∷ [])
unfolding open_next gaea.Os.Signals.each SignalFd.create_sigset gaea.Os.Signals.into_raw Eventfd.new
    gaea.Sys.Epoll.register
new_leaks_example =
    new_leaks numbers eventfds signalfds linux full_epoll (λ w. w) system-TracksHandles
      (record { epfd = 3 }) two_signals 1 (3 ∷ 2 ∷ []) 4 4 (3 ∷ []) (3 ∷ []) (4 ∷ 3 ∷ []) (3 ∷ [])
      (4 ∷ 3 ∷ []) refl refl refl
