-- ===== src/Tests/Sample.antt =====
-- A small system that the tests run on: the constants of Linux, a clock, and an epoll with an
-- interest list and a list of pending events.
use gaea.Base.Io.{Io}
use gaea.Base.{
  true, ℕ, ◌≤◌, refl, subst, Option, none, some, List, [], ◌∷◌, arith, ◌==◌, if◌then◌else◌, length,
  take, drop, length-take, ok, err, IoError, interrupted, raw, IoResult,
}
use gaea.Event.{Event, event_new, ready_readable, ready_writable}
use gaea.Event.Sink.{vec_sink}
use gaea.Timers.Heap.{Deadline}
use gaea.Timers.Scan.{scan_heap}
use gaea.Sources.{Platform}
use gaea.Sys.Kqueue.Abi.{KqueueFlags}
use gaea.Sys.Epoll.Abi.{
  EpollFlags, AreFlags, EpEvent, CtlOp, ctl_add, ctl_mod, ctl_del, EpollKernel, WaitsWithin,
}

abbrev pub linux : EpollFlags
linux = record {
  epollin = 1;
  epollpri = 2;
  epollout = 4;
  epollrdhup = 8192;
  epollerr = 8;
  epollhup = 16;
  epollet = 2147483648;
  epolloneshot = 1073741824;
  debug_assertions = true;
}

pub linux-AreFlags : AreFlags linux
linux-AreFlags = record {
  in_in = omega arith;
  pri_pri = omega arith;
  out_out = omega arith;
  rdhup_rdhup = omega arith;
  et_et = omega arith;
  oneshot_oneshot = omega arith;
  pri_in = refl;
  pri_out = refl;
  pri_et = refl;
  pri_oneshot = refl;
  rdhup_in = refl;
  rdhup_out = refl;
  rdhup_et = refl;
  rdhup_oneshot = refl;
  in_out = refl;
  in_et = refl;
  in_oneshot = refl;
  out_et = refl;
  out_oneshot = refl;
  et_oneshot = refl;
}

-- The time, the events that are pending, and the interest list of the one instance.
pub record World : Type 0 where
  pub time : ℕ
  pub pending : List EpEvent
  pub list : ℕ → Option EpEvent

abbrev pub update : (ℕ → Option EpEvent) → ℕ → Option EpEvent → ℕ → Option EpEvent
update m fd v k = if fd == k then v else m k

-- `EEXIST`, `ENOENT` and `EINVAL` are refused.
unfoldable pub ctl : ℕ → CtlOp → ℕ → Option EpEvent → Io World (Unit {0})
ctl epfd ctl_add fd (some ev) w = elim (w.list fd) [
  | none ↦ (ok tt, record w { list = update w.list fd (some ev) })
  | some old ↦ (err (raw 17), w)
]
ctl epfd ctl_mod fd (some ev) w = elim (w.list fd) [
  | none ↦ (err (raw 2), w)
  | some old ↦ (ok tt, record w { list = update w.list fd (some ev) })
]
ctl epfd ctl_del fd none w = elim (w.list fd) [
  | none ↦ (err (raw 2), w)
  | some old ↦ (ok tt, record w { list = update w.list fd none })
]
ctl epfd op fd ev w = (err (raw 22), w)

abbrev pub epoll : EpollKernel World
epoll = record {
  epoll_create1 = λ w. (ok 3, w);
  close = λ fd w. (ok tt, w);
  epoll_ctl = ctl;
  epoll_wait =
      λ epfd cap timeout w. (ok (take cap w.pending), record w { pending = drop cap w.pending });
}

count : IoResult (List EpEvent) → ℕ
count (ok es) = length es
count (err e) = 0

pub epoll-WaitsWithin : WaitsWithin epoll
unfolding count
epoll-WaitsWithin epfd cap timeout w es e =
    subst (λ r. count r ≤ cap) e (omega (arith, length-take cap w.pending))

-- One whose calls are interrupted.
abbrev pub interrupted_epoll : EpollKernel World
interrupted_epoll = record {
  epoll_create1 = λ w. (ok 3, w);
  close = λ fd w. (ok tt, w);
  epoll_ctl = ctl;
  epoll_wait = λ epfd cap timeout w. (err interrupted, w);
}

abbrev pub clock : World → ℕ × World
clock w = (w.time, w)

abbrev pub platform : Platform (List Deadline) (List Event) World IoError
platform = record {
  heap = scan_heap;
  sink = vec_sink;
  clock = clock;
  panic = raw 0;
  flags = linux;
  kernel = epoll;
  from = λ e. e;
}

abbrev pub start : World
start = record { time = 5; pending = record { events = 5; u64 = 9 } ∷ []; list = λ fd. none }

abbrev pub readable_event : Event
readable_event = event_new 4 ready_readable

abbrev pub writable_event : Event
writable_event = event_new 6 ready_writable

abbrev pub early : Deadline
early = record { deadline = 3; id = 1 }

abbrev pub late : Deadline
late = record { deadline = 8; id = 2 }

-- The constants of macOS; a negative filter is that of 16 bits.
abbrev pub macos : KqueueFlags
macos = record {
  ev_add = 1;
  ev_delete = 2;
  ev_receipt = 64;
  ev_clear = 32;
  ev_oneshot = 16;
  ev_error = 16384;
  ev_eof = 32768;
  evfilt_read = 65535;
  evfilt_write = 65534;
  evfilt_user = 65526;
  evfilt_signal = 65530;
  note_trigger = 16777216;
  enoent = 2;
}
