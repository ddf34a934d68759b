-- ===== src/Sys/Kqueue.antt =====
-- src/sys/unix/kqueue.rs: `Selector` on macOS and the BSDs. The constants of libc and the system
-- calls are parameters, in `Abi`. The types of the fields of `kevent`, which differ between the
-- platforms, are numbers; `EVFILT_USER` is that of macOS and FreeBSD, which alone have it.
pub mod Abi
pub mod Conversion
pub mod Changes
pub mod Selection
pub mod Knotes
pub mod Settings
pub mod Registry
pub mod SignalKnotes
pub mod Effects
pub mod Owned
use mathlib.Core.Option
use gaea.Base.Io.{Io, pure, ◌>>=◌}
use gaea.Base.{
  ℕ, ◌-◌, ◌/◌, ◌%◌, ◌^◌, min, bit_and, bit_or, Bool, false, not, ◌&&◌, ◌||◌, Option, List, [], ◌∷◌,
  ◌++◌, map, ◌==◌, ◌!=◌, if◌then◌else◌, ok, err, interrupted, IoResult,
}
use gaea.Event.{
  Event, EventId, Ready, ready_empty, ready_readable, ready_writable, ready_error, ready_hup,
  event_new, bitor_assign, capacity_min,
}
use gaea.Event.Sink.{Sink}
use gaea.Event.Source.{Duration}
use gaea.Os.Interests.{Interests, is_readable, is_writable}
use gaea.Os.Options.{RegisterOption, is_edge, is_oneshot}
use gaea.Os.Signals.{each, Signal, SignalSet, SignalNumbers, into_raw, collect}
use gaea.Sys.{events_cap}
use Abi.{Kevent, KqueueFlags, Timespec, KqueueKernel}

pub record Selector : Type 0 where
  pub kq : ℕ

unfoldable pub contains_flag : ℕ → ℕ → Bool
contains_flag flags flag = bit_and flags flag != 0

-- The largest `time_t`.
abbrev pub time_t_max : ℕ
time_t_max = 2 ^ 63 - 1

unfoldable pub timespec_from_duration : Duration → Timespec
timespec_from_duration duration = record {
  tv_sec = min (duration / 1_000_000_000) time_t_max;
  tv_nsec = duration % 1_000_000_000;
}

unfoldable pub new_kevent : ℕ → ℕ → ℕ → EventId → Kevent
new_kevent ident filter flags id = record {
  ident = ident;
  filter = filter;
  flags = flags;
  fflags = 0;
  datum = 0;
  udata = id;
}

-- `ignored_errors.contains(&data)`.
unfoldable pub ignores : List ℕ → ℕ → Bool
ignores [] n = false
ignores (e ∷ es) n = e == n || ignores es n

-- `usize::MAX`, the identifier of a change that has none.
abbrev pub no_id : EventId
no_id = 2 ^ 64 - 1

-- `if test { readiness |= ready; }`.
abbrev pub note : Bool → Ready → Ready → Ready
note test ready readiness = if test then bitor_assign readiness ready else readiness

module _ (c : KqueueFlags) where
  -- `match kevent.filter`.
  unfoldable pub note_filter : ℕ → Ready → Ready
  note_filter filter readiness =
      if filter == c.evfilt_read
      then bitor_assign readiness ready_readable
      else if filter == c.evfilt_write
      then bitor_assign readiness ready_writable
      else if filter == c.evfilt_user
      then bitor_assign readiness ready_readable
      else readiness

  unfoldable pub kevent_to_event : Kevent → Event
  kevent_to_event k =
      let eof = contains_flag k.flags c.ev_eof in
      let r₁ = note (contains_flag k.flags c.ev_error) ready_error ready_empty in
      let r₂ = note eof ready_hup r₁ in
      let r₃ = note (eof && (k.fflags != 0)) ready_error r₂ in
      event_new k.udata (note_filter k.filter r₃)

  unfoldable pub opt_to_flags : RegisterOption → ℕ
  opt_to_flags opt =
      let f₀ = c.ev_receipt in
      let f₁ = if is_edge opt then bit_or f₀ c.ev_clear else f₀ in
      if is_oneshot opt then bit_or f₁ c.ev_oneshot else f₁

  -- The lists of changes that the methods build.
  unfoldable pub register_changes : ℕ → EventId → Interests → RegisterOption → List Kevent
  register_changes fd id interests opt =
      let flags = bit_or (opt_to_flags opt) c.ev_add in
      let write =
        if is_writable interests then new_kevent fd c.evfilt_write flags id ∷ [] else [] in
      let read = if is_readable interests then new_kevent fd c.evfilt_read flags id ∷ [] else [] in
      write ++ read

  unfoldable pub reregister_changes : ℕ → EventId → Interests → RegisterOption → List Kevent
  reregister_changes fd id interests opt =
      let flags = opt_to_flags opt in
      let write_flags = bit_or flags (if is_writable interests then c.ev_add else c.ev_delete) in
      let read_flags = bit_or flags (if is_readable interests then c.ev_add else c.ev_delete) in
      new_kevent fd c.evfilt_write write_flags id ∷ new_kevent fd c.evfilt_read read_flags id ∷ []

  unfoldable pub deregister_changes : ℕ → List Kevent
  deregister_changes fd =
      let flags = bit_or c.ev_delete c.ev_receipt in
      new_kevent fd c.evfilt_write flags no_id ∷ new_kevent fd c.evfilt_read flags no_id ∷ []

  pub signal_changes : SignalNumbers → EventId → List Signal → List Kevent
  signal_changes numbers id [] = []
  signal_changes numbers id (signal ∷ signals) =
      new_kevent (into_raw numbers signal) c.evfilt_signal (bit_or c.ev_receipt c.ev_add) id
      ∷ signal_changes numbers id signals

  -- The test of `check_errors`: an entry with `EV_ERROR` and an error number that is not ignored.
  unfoldable pub is_error : List ℕ → Kevent → Bool
  is_error ignored_errors event =
      contains_flag event.flags c.ev_error
      && ((event.datum != 0) && not (ignores ignored_errors event.datum))

  module _ {W : Type 0} (kernel : KqueueKernel W) where
    unfoldable pub check_errors : List Kevent → List ℕ → IoResult (Unit {0})
    check_errors [] ignored_errors = ok tt
    check_errors (event ∷ events) ignored_errors =
        if is_error ignored_errors event
        then err (kernel.from_raw_os_error event.datum)
        else check_errors events ignored_errors

    unfoldable pub kevent_register : ℕ → List Kevent → List ℕ → Io W (Unit {0})
    kevent_register kq changes ignored_errors w =
        let (r, w') = kernel.changes kq changes w in
        elim r [
          | err interrupted ↦ (ok tt, w')
          | err e ↦ (err e, w')
          | ok written ↦ (check_errors written ignored_errors, w')
        ]

    unfoldable pub selector_new : Io W Selector
    selector_new = do kq ← kernel.kqueue; pure (record { kq = kq })

    unfoldable pub register : Selector → ℕ → EventId → Interests → RegisterOption → Io W (Unit {0})
    register self fd id interests opt =
        kevent_register self.kq (register_changes fd id interests opt) []

    unfoldable pub reregister :
        Selector → ℕ → EventId → Interests → RegisterOption → Io W (Unit {0})
    reregister self fd id interests opt =
        kevent_register self.kq (reregister_changes fd id interests opt) (c.enoent ∷ [])

    unfoldable pub deregister : Selector → ℕ → Io W (Unit {0})
    deregister self fd = kevent_register self.kq (deregister_changes fd) (c.enoent ∷ [])

    unfoldable pub setup_awakener : Selector → EventId → Io W (Unit {0})
    setup_awakener self id =
        let flags = bit_or (bit_or c.ev_add c.ev_clear) c.ev_receipt in
        kevent_register self.kq (new_kevent 0 c.evfilt_user flags id ∷ []) []

    -- `Drop`: an error of `close` is logged only.
    unfoldable pub drop : Selector → W → W
    drop self w = (kernel.close self.kq w).1

    -- The rest of a function that owns the selector until it succeeds: on an error it is dropped.
    abbrev pub or_drop : {A : Type 0} → Selector → Io W A → Io W A
    or_drop self m w =
        let (r, w') = m w in elim r [ ok a ↦ (ok a, w') | err e ↦ (err e, drop self w') ]

    unfoldable pub try_clone : Selector → Io W Selector
    try_clone self = do new_kq ← kernel.dup self.kq; pure (record { kq = new_kq })

    unfoldable pub wake : Selector → EventId → Io W (Unit {0})
    wake self id =
        let kevent = new_kevent 0 c.evfilt_user (bit_or c.ev_add c.ev_receipt) id in
        kevent_register self.kq (record kevent { fflags = c.note_trigger } ∷ []) []

    unfoldable pub register_signals :
        Selector → SignalNumbers → EventId → SignalSet → Io W (Unit {0})
    unfolding signal_changes
    register_signals self numbers id signals =
        kevent_register self.kq (signal_changes numbers id (each signals)) []

    module _ {ES : Type 0} (sink : Sink ES) where
      unfoldable pub deliver : IoResult (List Kevent) → ES → IoResult (Unit {0}) × ES
      deliver (err e) event_sink = (err e, event_sink)
      deliver (ok []) event_sink = (ok tt, event_sink)
      deliver (ok (e ∷ es)) event_sink =
          (ok tt, sink.extend event_sink (map kevent_to_event (e ∷ es)))

      unfoldable pub select : Selector → ES → Option Duration → W → IoResult (Unit {0}) × ES × W
      unfolding deliver
      select self event_sink timeout w =
          let cap = capacity_min (sink.capacity_left event_sink) events_cap in
          let (n_events, w') =
            kernel.wait self.kq cap (Option.map timespec_from_duration timeout) w in
          let (r, s) = deliver n_events event_sink in (r, s, w')
