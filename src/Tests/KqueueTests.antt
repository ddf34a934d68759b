-- ===== src/Tests/KqueueTests.antt =====
-- src/sys/unix/kqueue.rs on concrete inputs.
use gaea.Base.{ℕ, bit_or, ◌≡◌, refl, none, [], ◌∷◌, map, ◌==◌, if◌then◌else◌, take, ok, raw}
use gaea.Event.Sink.{vec_sink}
use gaea.Sys.Kqueue.Abi.{Kevent, KqueueKernel}
use gaea.Sys.Kqueue as Kqueue
use gaea.Sys.Kqueue.{Selector, new_kevent, deregister, select}
use gaea.Tests.Sample.{macos}

-- The entry of a change: for reading nothing is registered.
entry : Kevent → Kevent
entry k = record k { flags = bit_or k.flags 16384; datum = if k.filter == 65535 then 2 else 0 }

abbrev closed : Kevent
closed = record { ident = 7; filter = 65535; flags = 32768; fflags = 54; datum = 0; udata = 1 }

-- One on which a descriptor was closed, if there is room for the event.
abbrev kqueues : KqueueKernel ℕ
kqueues = record {
  kqueue = λ w. (ok 3, w);
  dup = λ fd w. (ok 4, w);
  changes = λ kq ks w. (ok (map entry ks), w);
  wait = λ kq cap t w. (ok (take cap (closed ∷ [])), w);
  close = λ fd w. (ok tt, w);
  from_raw_os_error = raw;
}

abbrev selector : Selector
selector = record { kq = 3 }

-- The entry with ENOENT does not count.
deregister_missing : deregister macos kqueues selector 7 0 ≡ (ok tt, 0)
unfolding deregister Kqueue.kevent_register Kqueue.check_errors Kqueue.deregister_changes entry
    new_kevent Kqueue.is_error Kqueue.contains_flag Kqueue.ignores
deregister_missing = refl

-- It is readable, hung up, and an error.
select_closed :
    select macos kqueues vec_sink selector [] none 5
    ≡ (ok tt, record { id = 1; readiness = record { bits = 21 } } ∷ [], 5)
unfolding select gaea.Event.capacity_min Kqueue.deliver Kqueue.kevent_to_event Kqueue.note_filter
    Kqueue.contains_flag gaea.Event.bitor_assign
select_closed = refl
