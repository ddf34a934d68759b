-- ===== src/Tests/EpollTests.antt =====
-- src/sys/unix/epoll.rs and src/os/mod.rs on concrete inputs.
use mathlib.Core.Option
use gaea.Base.{
  ℕ, ◌+◌, ◌*◌, ◌^◌, ◌≤◌, ◌<◌, ◌≡◌, refl, sym, ap, ◌≢◌, ◌⊎◌, inl, inr, true, false, Option, none,
  some, List, [], ◌∷◌, arith, Option-cases, ok, err, IoError,
}
use gaea.Event as Event
use gaea.Event.{event_new, capacity_min}
use gaea.Os.Interests.{interests_readable, interests_both}
use gaea.Os.Options.{option_edge, option_level}
use gaea.Sys.{events_cap}
use gaea.Sys.Epoll.Abi.{EpEvent, CtlOp, ctl_add, ctl_mod, ctl_del}
use gaea.Sys.Epoll.{
  Selector, contains_flag, duration_to_millis, ep_event_to_event, to_epoll_events, select,
}
use gaea.Sys.Epoll.Conversion.{
  duration_to_millis_bounds, ep_event_to_event-tests, to_epoll_events-tests,
}
use gaea.Base.{◌⊎◌, ◌++◌}
use gaea.Os.Handles.{receiver}
use gaea.Os.Handles.Histories.{
  HandleCall, registers_handle, reregisters_handle, all_accepted, handle_calls, Ends,
  handle_calls-Refines,
}
use gaea.Sys.Epoll.Registry.{
  request, Watches, Registration, Call, registers, reregisters, deregisters, Allowed, run_call,
  run_calls, run_call-Allowed, run_calls-Refines,
}
use gaea.Tests.Sample.{linux, linux-AreFlags, World, ctl, update, epoll, start}

abbrev selector : Selector
selector = record { epfd = 3 }

abbrev watched : World → ℕ → ℕ → Option EpEvent
watched w epfd = w.list

add-list :
    (p fd : ℕ) (ev : EpEvent) (w w' : World)
    → ctl p ctl_add fd (some ev) w ≡ (ok tt, w')
    → (w.list fd ≡ none) × ((k : ℕ) → w'.list k ≡ update w.list fd (some ev) k)
unfolding ctl
add-list p fd ev w w' e = elim (Option-cases (w.list fd)) [
  | inl free ↦ (free, λ k. ap (λ x. x.1.list k) (sym (rw (ctl, free) at e)))
  | inr (old, taken) ↦ (let c = rw (ctl, taken) at e in cc)
]

modify-list :
    (p fd : ℕ) (ev : EpEvent) (w w' : World)
    → ctl p ctl_mod fd (some ev) w ≡ (ok tt, w')
    → (w.list fd ≢ none) × ((k : ℕ) → w'.list k ≡ update w.list fd (some ev) k)
unfolding ctl
modify-list p fd ev w w' e = elim (Option-cases (w.list fd)) [
  | inl free ↦ (let c = rw (ctl, free) at e in cc)
  | inr (old, taken) ↦ (λ q. cc, λ k. ap (λ x. x.1.list k) (sym (rw (ctl, taken) at e)))
]

delete-list :
    (p fd : ℕ) (w w' : World)
    → ctl p ctl_del fd none w ≡ (ok tt, w')
    → (w.list fd ≢ none) × ((k : ℕ) → w'.list k ≡ update w.list fd none k)
unfolding ctl
delete-list p fd w w' e = elim (Option-cases (w.list fd)) [
  | inl free ↦ (let c = rw (ctl, free) at e in cc)
  | inr (old, taken) ↦ (λ q. cc, λ k. ap (λ x. x.1.list k) (sym (rw (ctl, taken) at e)))
]

refuse-list :
    (p fd : ℕ) (op : CtlOp) (ev : Option EpEvent) (w w' : World) (e : IoError)
    → ctl p op fd ev w ≡ (err e, w')
    → (k : ℕ) → w'.list k ≡ w.list k
unfolding ctl
refuse-list p fd op ev w w' e r k = ground arith

epoll-Watches : Watches epoll watched
epoll-Watches = record {
  added = add-list;
  modified = modify-list;
  deleted = delete-list;
  refused = refuse-list;
}

abbrev listener : Registration
listener = record { id = 1; interests = interests_readable; opt = option_edge }

abbrev stream : Registration
stream = record { id = 2; interests = interests_both; opt = option_level }

-- Two of these calls fail.
abbrev history : List Call
history =
    registers 7 listener
    ∷ registers 7 stream
    ∷ reregisters 7 stream
    ∷ deregisters 8
    ∷ registers 9 listener
    ∷ []

run_calls-Refines_example :
    let (m, w) = run_calls linux epoll selector history (λ fd. none) start in
    w.list 7 ≡ Option.map (request linux epoll selector) (m 7)
run_calls-Refines_example =
    run_calls-Refines linux epoll selector watched epoll-Watches history (λ fd. none) start
      (λ fd. refl) 7

-- The reading end of a pipe is registered, then asked for writing, which panics.
abbrev reading : List HandleCall
reading = registers_handle (receiver 7) listener ∷ []

abbrev refusing : List HandleCall
refusing = reading ++ reregisters_handle (receiver 7) stream ∷ []

handle_calls-Refines_example :
    ((all_accepted true refusing ≡ true)
      × Ends linux epoll
          (record { selector = selector })
          watched
          epoll-Watches
          refusing
          (λ fd. none)
          start)
    ⊎ ((all_accepted true refusing ≡ false)
        × (handle_calls linux epoll (record { selector = selector }) refusing (λ fd. none) start
            ≡ none))
handle_calls-Refines_example =
    handle_calls-Refines linux epoll (record { selector = selector }) watched epoll-Watches refusing
      (λ fd. none) start (λ fd. refl)

reading_accepted : all_accepted true reading ≡ true
unfolding gaea.Os.Interests.is_writable
reading_accepted = refl

run_call-Allowed_example : Allowed (registers 7 listener) (λ fd. none)
unfolding run_call gaea.Sys.Epoll.register ctl
run_call-Allowed_example =
    run_call-Allowed linux epoll selector watched epoll-Watches (registers 7 listener) (λ fd. none)
      start (run_call linux epoll selector (registers 7 listener) start).1 (λ fd. refl) refl

abbrev hung_up : EpEvent
hung_up = record { events = 8209; u64 = 4 }

ep_event_to_event-tests_example :
    let event = ep_event_to_event linux hung_up in
    (event.id ≡ 4)
    × (Event.is_readable event.readiness ≡ true)
    × (Event.is_writable event.readiness ≡ false)
    × (Event.is_error event.readiness ≡ false)
    × (Event.is_hup event.readiness ≡ true)
    × (Event.is_timer event.readiness ≡ false)
unfolding contains_flag
ep_event_to_event-tests_example = ep_event_to_event-tests linux hung_up

to_epoll_events-tests_example :
    let events = to_epoll_events linux interests_both option_edge in
    (contains_flag events 1 ≡ true)
    × (contains_flag events 4 ≡ true)
    × (contains_flag events 2147483648 ≡ true)
    × (contains_flag events 1073741824 ≡ false)
    × (contains_flag events 2 ≡ true)
    × (contains_flag events 8192 ≡ true)
unfolding gaea.Os.Interests.is_readable gaea.Os.Interests.is_writable gaea.Os.Options.is_edge
    gaea.Os.Options.is_oneshot
to_epoll_events-tests_example =
    to_epoll_events-tests linux linux-AreFlags interests_both option_edge

duration_to_millis_bounds_example :
    (duration_to_millis 2_500_000 * 1_000_000 ≤ 2_500_000)
    × (duration_to_millis 2_500_000 ≤ 86_400_000)
    × (duration_to_millis 2_500_000 < 2 ^ 31)
    × ((86_400_000 * 1_000_000 ≤ 2_500_000)
        ⊎ (2_500_000 < (duration_to_millis 2_500_000 + 1) * 1_000_000))
duration_to_millis_bounds_example = duration_to_millis_bounds 2_500_000
