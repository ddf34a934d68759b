-- ===== src/Sys/Kqueue/Conversion.antt =====
-- src/sys/unix/kqueue.rs: the conversions of system events and of timeouts.
use gaea.Base.{
  ℕ, ◌+◌, ◌*◌, ◌^◌, ◌≤◌, ◌<◌, ◌≡◌, refl, ◌∙◌, ◌⊎◌, Bool, false, ◌&&◌, ◌||◌, arith, ◌==◌, ◌!=◌,
}
use gaea.Bits.Flags.{has_all, bit_or-has_flag}
use gaea.Event.{Ready, bitor_assign}
use gaea.Event
use gaea.Event.Source.{Duration}
use gaea.Sys.Kqueue.Abi.{Kevent, KqueueFlags, AreFilters, Timespec}
use gaea.Sys.Kqueue.{
  note_filter, contains_flag, timespec_from_duration, time_t_max, note, kevent_to_event,
}

-- The time that a `timespec` stands for, in nanoseconds.
abbrev nanos : Timespec → ℕ
nanos t = t.tv_sec * 1_000_000_000 + t.tv_nsec

-- A `timespec` is well formed, with less than a second of nanoseconds and seconds that fit the
-- type. It stands for no longer a time than the duration, and for exactly that time if the seconds
-- of the duration fit.
timespec_from_duration_lem :
    (d : Duration)
    → let t = timespec_from_duration d in
      (t.tv_nsec < 1_000_000_000)
      × (t.tv_sec < 2 ^ 63)
      × (nanos t ≤ d)
      × ((nanos t ≡ d) ⊎ (time_t_max * 1_000_000_000 < d))
unfolding timespec_from_duration
timespec_from_duration_lem d = omega arith

note-has :
    (k : ℕ) (test : Bool) (r readiness : Ready)
    → has_all (note test r readiness).bits (2 ^ k)
      ≡ (has_all readiness.bits (2 ^ k) || (test && has_all r.bits (2 ^ k)))
unfolding bitor_assign
note-has k test r readiness = ground (arith, bit_or-has_flag k readiness.bits r.bits)

module _ (c : KqueueFlags) (filters : AreFilters c) where
  filter-has :
      (k filter : ℕ) (r : Ready)
      → has_all (note_filter c filter r).bits (2 ^ k) ≡ (
          has_all r.bits (2 ^ k)
          || (((filter == c.evfilt_read || filter == c.evfilt_user) && has_all 1 (2 ^ k))
              || ((filter == c.evfilt_write) && has_all 2 (2 ^ k))))
  unfolding note_filter bitor_assign
  filter-has k filter r = ground (arith, bit_or-has_flag k r.bits 1, bit_or-has_flag k r.bits 2)

  event-has :
      (k : ℕ) (e : Kevent)
      → has_all (kevent_to_event c e).readiness.bits (2 ^ k) ≡ (
          (((has_all 0 (2 ^ k) || (contains_flag e.flags c.ev_error && has_all 4 (2 ^ k)))
              || (contains_flag e.flags c.ev_eof && has_all 16 (2 ^ k)))
            || ((contains_flag e.flags c.ev_eof && (e.fflags != 0)) && has_all 4 (2 ^ k)))
          || (((e.filter == c.evfilt_read || e.filter == c.evfilt_user) && has_all 1 (2 ^ k))
              || ((e.filter == c.evfilt_write) && has_all 2 (2 ^ k))))
  unfolding kevent_to_event
  event-has k e = simp (filter-has k, note-has k)

  -- If the filters differ from one another, the event keeps the identifier of the change. It is
  -- readable when its filter is that of reading or of the awakener, writable when its filter is
  -- that of writing, an error when `EV_ERROR` is set, or `EV_EOF` with an error in `fflags`, and
  -- hung up when `EV_EOF` is set, and only then; it is never a timer event.
  pub kevent_to_event-tests :
      (e : Kevent)
      → let event = kevent_to_event c e in
        (event.id ≡ e.udata)
        × (Event.is_readable event.readiness
            ≡ (e.filter == c.evfilt_read || e.filter == c.evfilt_user))
        × (Event.is_writable event.readiness ≡ (e.filter == c.evfilt_write))
        × (Event.is_error event.readiness ≡ (
            contains_flag e.flags c.ev_error
            || (contains_flag e.flags c.ev_eof && (e.fflags != 0))))
        × (Event.is_hup event.readiness ≡ contains_flag e.flags c.ev_eof)
        × (Event.is_timer event.readiness ≡ false)
  unfolding Event.is_readable Event.is_writable Event.is_error Event.is_hup Event.is_timer
  kevent_to_event-tests e = (
    unfold kevent_to_event in refl,
    event-has 0 e ∙ ground arith,
    event-has 1 e ∙ ground arith,
    event-has 2 e ∙ ground arith,
    event-has 4 e ∙ ground arith,
    event-has 3 e ∙ ground arith,
  )
