-- ===== src/Sys/Epoll.antt =====
-- src/sys/unix/epoll.rs: `Selector` on Linux. The constants of libc and the system calls are
-- parameters, in `Abi`: a call that returns -1 gives the error of `last_os_error`. `Drop`, which
-- only logs an error of `close`, is left out.
pub mod Abi
pub mod Conversion
pub mod Selection
pub mod Registry
use gaea.Base.{
  ℕ, ◌*◌, ◌/◌, min, bit_and, bit_or, Bool, Option, none, some, List, [], ◌∷◌, map, ◌==◌, ◌!=◌,
  if◌then◌else◌, ok, err, IoResult,
}
use mathlib.Core.Option
use gaea.Base.Io.{Io, pure, ◌>>=◌}
use gaea.Sys.{events_cap}
use gaea.Event.{
  Event, EventId, Ready, ready_empty, ready_readable, ready_writable, ready_error, ready_hup,
  event_new, bitor_assign, capacity_min,
}
use gaea.Event.Sink.{Sink}
use gaea.Event.Source.{Duration}
use gaea.Os.Interests.{Interests, is_readable, is_writable}
use gaea.Os.Options.{RegisterOption, is_edge, is_oneshot}
use Abi.{EpollFlags, EpEvent, CtlOp, ctl_add, ctl_mod, ctl_del, EpollKernel}

pub record Selector : Type 0 where
  pub epfd : ℕ

unfoldable pub contains_flag : ℕ → ℕ → Bool
contains_flag flags flag = bit_and flags flag != 0

-- A duration of nanoseconds in milliseconds, as `as_millis` gives it, at most 24 hours.
unfoldable pub duration_to_millis : Duration → ℕ
duration_to_millis duration = min (duration / 1_000_000) (24 * 60 * 60 * 1_000)

-- `if test { events |= flag; }`.
abbrev pub set_if : Bool → ℕ → ℕ → ℕ
set_if test flag events = if test then bit_or events flag else events

-- `if contains_flag(epoll, flag) { readiness |= ready; }`.
abbrev pub note : ℕ → ℕ → Ready → Ready → Ready
note epoll flag ready readiness =
    if contains_flag epoll flag then bitor_assign readiness ready else readiness

module _ (flags : EpollFlags) where
  unfoldable pub ep_event_to_event : EpEvent → Event
  ep_event_to_event ep_event =
      let epoll = ep_event.events in
      let r₀ = ready_empty in
      let r₁ = note epoll (bit_or flags.epollin flags.epollpri) ready_readable r₀ in
      let r₂ = note epoll flags.epollout ready_writable r₁ in
      let r₃ = note epoll flags.epollerr ready_error r₂ in
      let r₄ = note epoll (bit_or flags.epollrdhup flags.epollhup) ready_hup r₃ in
      event_new ep_event.u64 r₄

  unfoldable pub to_epoll_events : Interests → RegisterOption → ℕ
  to_epoll_events interests opt =
      let e₀ = bit_or flags.epollpri flags.epollrdhup in
      let e₁ = set_if (is_readable interests) flags.epollin e₀ in
      let e₂ = set_if (is_writable interests) flags.epollout e₁ in
      let e₃ = set_if (is_edge opt) flags.epollet e₂ in
      set_if (is_oneshot opt) flags.epolloneshot e₃

  unfoldable pub new_epoll_event : Interests → RegisterOption → EventId → EpEvent
  new_epoll_event interests opt id = record { events = to_epoll_events interests opt; u64 = id }

  module _ {ES : Type 0} (sink : Sink ES) where
    -- The `match` on the number of events: none are pulled when the time limit is reached.
    unfoldable pub deliver : IoResult (List EpEvent) → ES → IoResult (Unit {0}) × ES
    deliver (err e) event_sink = (err e, event_sink)
    deliver (ok []) event_sink = (ok tt, event_sink)
    deliver (ok (e ∷ es)) event_sink =
        (ok tt, sink.extend event_sink (map ep_event_to_event (e ∷ es)))

  module _ {W : Type 0} (kernel : EpollKernel W) where
    -- `Drop`: an error of `close` is logged only.
    unfoldable pub drop : Selector → W → W
    drop self w = (kernel.close self.epfd w).1

    unfoldable pub selector_new : Io W Selector
    selector_new = do epfd ← kernel.epoll_create1; pure (record { epfd = epfd })

    -- -1 is the error of `last_os_error`, and any other result is `Ok(())`.
    unfoldable pub epoll_ctl : ℕ → CtlOp → ℕ → Option EpEvent → Io W (Unit {0})
    epoll_ctl epfd op fd event = kernel.epoll_ctl epfd op fd event

    unfoldable pub register : Selector → ℕ → EventId → Interests → RegisterOption → Io W (Unit {0})
    unfolding epoll_ctl
    register self fd id interests opt =
        epoll_ctl self.epfd ctl_add fd (some (new_epoll_event interests opt id))

    unfoldable pub reregister :
        Selector → ℕ → EventId → Interests → RegisterOption → Io W (Unit {0})
    unfolding epoll_ctl
    reregister self fd id interests opt =
        epoll_ctl self.epfd ctl_mod fd (some (new_epoll_event interests opt id))

    unfoldable pub deregister : Selector → ℕ → Io W (Unit {0})
    unfolding epoll_ctl
    deregister self fd = epoll_ctl self.epfd ctl_del fd none

    module _ {ES : Type 0} (sink : Sink ES) where
      -- `none` as the timeout of the system call is its -1: to wait for ever.
      unfoldable pub select : Selector → ES → Option Duration → W → IoResult (Unit {0}) × ES × W
      unfolding deliver
      select self event_sink timeout w =
          let cap = capacity_min (sink.capacity_left event_sink) events_cap in
          if cap == 0
          then (ok tt, event_sink, w)
          else (let (n_events, w') =
                kernel.epoll_wait self.epfd cap (Option.map duration_to_millis timeout) w in
              let (r, s) = deliver sink n_events event_sink in (r, s, w'))
