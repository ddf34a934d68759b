-- ===== src/Sys/Epoll/Conversion.antt =====
-- src/sys/unix/epoll.rs: what a system event becomes, and what a registration asks the system for.
use gaea.Base.{
  ℕ, ◌+◌, ◌*◌, ◌%◌, ◌^◌, ◌≤◌, ◌<◌, bit_or, ◌≡◌, refl, ◌∙◌, ◌≢◌, ◌⊎◌, Bool, true, false, ◌&&◌, ◌||◌,
  arith,
}
use gaea.Bits.{bit_and_comm}
use gaea.Bits.Flags.{has_all, bit_or-has_any, bit_or-has_flag}
use gaea.Event.{
  Ready, bitor_assign, ready_empty, ready_readable, ready_writable, ready_error, ready_hup,
}
use gaea.Event
use gaea.Event.Source.{Duration}
use gaea.Os.Interests.{Interests, is_readable, is_writable}
use gaea.Os.Options.{RegisterOption, is_edge, is_oneshot}
use gaea.Sys.Epoll.Abi.{EpollFlags, AreFlags, EpEvent}
use gaea.Sys.Epoll.{
  contains_flag, duration_to_millis, note, ep_event_to_event, set_if, to_epoll_events,
}

-- Milliseconds never exceed the duration that was asked for, nor 24 hours, and so fit a `c_int`;
-- below 24 hours less than a millisecond is cut off.
pub duration_to_millis_bounds :
    (d : Duration)
    → (duration_to_millis d * 1_000_000 ≤ d)
      × (duration_to_millis d ≤ 86_400_000)
      × (duration_to_millis d < 2 ^ 31)
      × ((86_400_000 * 1_000_000 ≤ d) ⊎ (d < (duration_to_millis d + 1) * 1_000_000))
unfolding duration_to_millis
duration_to_millis_bounds d = omega arith

-- The system call waits for less than the timeout whenever that is no whole number of
-- milliseconds: the timeout is rounded down.
duration_to_millis_short : (d : Duration) → d % 1_000_000 ≢ 0 → duration_to_millis d * 1_000_000 < d
unfolding duration_to_millis
duration_to_millis_short d h = omega arith

contains_flag-bit_or :
    (events f g : ℕ)
    → contains_flag events (bit_or f g) ≡ (contains_flag events f || contains_flag events g)
unfolding contains_flag
contains_flag-bit_or events f g =
    rw (bit_and_comm events (bit_or f g), bit_and_comm events f, bit_and_comm events g)
      (bit_or-has_any f g events)

bit_or-contains_flag :
    (a b f : ℕ) → contains_flag (bit_or a b) f ≡ (contains_flag a f || contains_flag b f)
unfolding contains_flag
bit_or-contains_flag a b f = bit_or-has_any a b f

-- A flag of the readiness after one test of the system event.
note-has :
    (k epoll f : ℕ) (r readiness : Ready)
    → has_all (note epoll f r readiness).bits (2 ^ k)
      ≡ (has_all readiness.bits (2 ^ k) || (contains_flag epoll f && has_all r.bits (2 ^ k)))
unfolding bitor_assign
note-has k epoll f r readiness = ground (arith, bit_or-has_flag k readiness.bits r.bits)

module _ (flags : EpollFlags) where
  event-has :
      (k : ℕ) (e : EpEvent)
      → has_all (ep_event_to_event flags e).readiness.bits (2 ^ k) ≡ (
          (((has_all 0 (2 ^ k)
                || (contains_flag e.events (bit_or flags.epollin flags.epollpri)
                    && has_all 1 (2 ^ k)))
              || (contains_flag e.events flags.epollout && has_all 2 (2 ^ k)))
            || (contains_flag e.events flags.epollerr && has_all 4 (2 ^ k)))
          || (contains_flag e.events (bit_or flags.epollrdhup flags.epollhup)
              && has_all 16 (2 ^ k)))
  unfolding ep_event_to_event
  event-has k e = simp (note-has k)

  -- The event keeps the identifier of the registration. It is readable when the system event has
  -- `EPOLLIN` or `EPOLLPRI`, which CHANGELOG.md denies of `EPOLLPRI` since v0.2.2, writable when it
  -- has `EPOLLOUT`, an error when it has `EPOLLERR`, and hung up when it has `EPOLLRDHUP` or
  -- `EPOLLHUP`, and only then; it is never a timer event.
  pub ep_event_to_event-tests :
      (e : EpEvent)
      → let event = ep_event_to_event flags e in
        (event.id ≡ e.u64)
        × (Event.is_readable event.readiness
            ≡ (contains_flag e.events flags.epollin || contains_flag e.events flags.epollpri))
        × (Event.is_writable event.readiness ≡ contains_flag e.events flags.epollout)
        × (Event.is_error event.readiness ≡ contains_flag e.events flags.epollerr)
        × (Event.is_hup event.readiness
            ≡ (contains_flag e.events flags.epollrdhup || contains_flag e.events flags.epollhup))
        × (Event.is_timer event.readiness ≡ false)
  unfolding Event.is_readable Event.is_writable Event.is_error Event.is_hup Event.is_timer
  ep_event_to_event-tests e = (
    unfold ep_event_to_event in refl,
    event-has 0 e ∙ ground (arith, contains_flag-bit_or e.events flags.epollin flags.epollpri),
    event-has 1 e ∙ ground arith,
    event-has 2 e ∙ ground arith,
    event-has 4 e ∙ ground (arith, contains_flag-bit_or e.events flags.epollrdhup flags.epollhup),
    event-has 3 e ∙ ground arith,
  )

  set_if-contains :
      (f : ℕ) (test : Bool) (g events : ℕ)
      → contains_flag (set_if test g events) f
        ≡ (contains_flag events f || (test && contains_flag g f))
  set_if-contains f test g events = ground (arith, bit_or-contains_flag events g f)

  request-contains :
      (f : ℕ) (i : Interests) (o : RegisterOption)
      → contains_flag (to_epoll_events flags i o) f ≡ (
          ((((contains_flag flags.epollpri f || contains_flag flags.epollrdhup f)
                || (is_readable i && contains_flag flags.epollin f))
              || (is_writable i && contains_flag flags.epollout f))
            || (is_edge o && contains_flag flags.epollet f))
          || (is_oneshot o && contains_flag flags.epolloneshot f))
  unfolding to_epoll_events
  request-contains f i o = simp (set_if-contains f, bit_or-contains_flag)

  module _ (are : AreFlags flags) where
    -- If the flags of epoll are bits that differ, a registration asks the system for `EPOLLIN`
    -- exactly when the interests are readable, for `EPOLLOUT` exactly when they are writable, for
    -- `EPOLLET` exactly when the option is edge, and for `EPOLLONESHOT` exactly when it is oneshot;
    -- it always asks for `EPOLLPRI` and `EPOLLRDHUP`.
    pub to_epoll_events-tests :
        (i : Interests) (o : RegisterOption)
        → let events = to_epoll_events flags i o in
          (contains_flag events flags.epollin ≡ is_readable i)
          × (contains_flag events flags.epollout ≡ is_writable i)
          × (contains_flag events flags.epollet ≡ is_edge o)
          × (contains_flag events flags.epolloneshot ≡ is_oneshot o)
          × (contains_flag events flags.epollpri ≡ true)
          × (contains_flag events flags.epollrdhup ≡ true)
    unfolding contains_flag
    to_epoll_events-tests i o = (
      request-contains flags.epollin i o
          ∙ ground (
            arith,
            bit_and_comm flags.epollout flags.epollin,
            bit_and_comm flags.epollet flags.epollin,
            bit_and_comm flags.epolloneshot flags.epollin,
          ),
      request-contains flags.epollout i o
          ∙ ground (
            arith,
            bit_and_comm flags.epollet flags.epollout,
            bit_and_comm flags.epolloneshot flags.epollout,
          ),
      request-contains flags.epollet i o
          ∙ ground (arith, bit_and_comm flags.epolloneshot flags.epollet),
      request-contains flags.epolloneshot i o ∙ ground arith,
      request-contains flags.epollpri i o ∙ ground arith,
      request-contains flags.epollrdhup i o ∙ ground arith,
    )
