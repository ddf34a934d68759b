-- ===== src/Tests/UserEventTests.antt =====
-- src/sys/unix/awakener.rs on a kqueue, on concrete inputs: a call of `wake` between polls.
use mathlib.Core.List.{Mem, mem-cons_self}
use gaea.Base.{
  ℕ, zero, suc, ◌≤◌, ◌≡◌, refl, sym, ap, subst, ◌∙◌, ◌⊎◌, inl, inr, Bool, true, false, ◌&&◌, ◌||◌,
  Option, none, List, [], ◌∷◌, ◌++◌, arith, ◌==◌, length, ok, err, raw, IoResult,
}
use gaea.Base.Io.{Io}
use gaea.Event.{Event, growable, capacity_min}
use gaea.Event.Sink.{vec_sink, vec_sink-IsSink}
use gaea.Sys.{events_cap}
use gaea.Sys.Awakener.Abi.{IsUserEvent}
use gaea.Sys.Awakener.Kqueue.{Awakener, wake}
use gaea.Sys.Awakener.System.{reports}
use gaea.Sys.Awakener.UserSystem.{Waking, woken, wakes, Reached, here, then_}
use gaea.Sys.Awakener.UserEvents.{wake-reports}
use gaea.Sys.Kqueue.Abi.{Kevent, AreFilters, KqueueKernel, Timespec, WaitsWithin}
use gaea.Sys.Kqueue.{Selector, select, kevent_register}
use gaea.Sys.Kqueue as Kqueue
use gaea.Sys.Kqueue.Knotes.{receipt, AreChanges}
use gaea.Tests.Sample.{macos}

-- The world says whether the user event is triggered.
trigger_all : List Kevent → Bool → Bool
trigger_all [] w = w
trigger_all (k ∷ ks) w = trigger_all ks (w || ((k.filter == 65526) && (k.fflags == 16777216)))

receipts : List Kevent → List Kevent
receipts [] = []
receipts (k ∷ ks) = receipt macos k 0 ∷ receipts ks

abbrev report : Kevent
report = record { ident = 0; filter = 65526; flags = 33; fflags = 16777216; datum = 0; udata = 7 }

wait : ℕ → ℕ → Option Timespec → Io Bool (List Kevent)
wait kq zero t w = (ok [], w)
wait kq (suc cap) t true = (ok (report ∷ []), false)
wait kq (suc cap) t false = (ok [], false)

abbrev kqueues : KqueueKernel Bool
kqueues = record {
  kqueue = λ w. (ok 3, w);
  dup = λ fd w. (ok 4, w);
  changes = λ kq ks w. (ok (receipts ks), trigger_all ks w);
  wait = wait;
  close = λ fd w. (ok tt, w);
  from_raw_os_error = raw;
}

abbrev Waited : ℕ → Bool → IoResult (List Kevent) × Bool → Type 0
Waited cap w (ok es, w') =
    w ≡ true
    → ((e : Kevent) × Mem e es × (e.udata ≡ 7) × (e.filter ≡ 65526))
      ⊎ ((length es ≡ cap) × (w' ≡ true))
Waited cap w (err e, w') = w' ≡ w

wait-Waited : (kq cap : ℕ) (t : Option Timespec) (w : Bool) → Waited cap w (wait kq cap t w)
unfolding wait
wait-Waited kq zero t w = λ p. inr (refl, p)
wait-Waited kq (suc cap) t true = λ p. inl (report, mem-cons_self, refl, refl)
wait-Waited kq (suc cap) t false = λ p. absurd (ground arith)

kqueues-IsUserEvent : IsUserEvent macos kqueues (λ kq. Unit {0}) (λ w. w) 7
unfolding trigger_all receipts
kqueues-IsUserEvent = record {
  applied = λ kq k es w w' on (ident, filter, fflags, id, asks, add, delete) e.
      (0, cc, (λ z. sym (ap (λ p. p.1) e) ∙ ground (arith, filter, fflags)), λ n. absurd (n refl));
  was_interrupted = λ kq k w w' on is e. cc;
  failed = λ kq k w w' x on is e other. cc;
  returned = λ kq cap t w w' es on e. subst (Waited cap w) e (wait-Waited kq cap t w);
  wait_failed = λ kq cap t w w' x on e. subst (Waited cap w) e (wait-Waited kq cap t w);
}

Few : ℕ → IoResult (List Kevent) → Type 0
Few cap (ok es) = length es ≤ cap
Few cap (err e) = Unit

wait-Few : (kq cap : ℕ) (t : Option Timespec) (w : Bool) → Few cap (wait kq cap t w).0
unfolding wait Few
wait-Few kq zero t w = omega arith
wait-Few kq (suc cap) t true = omega arith
wait-Few kq (suc cap) t false = omega arith

kqueues-WaitsWithin : WaitsWithin kqueues
unfolding Few
kqueues-WaitsWithin kq cap t w es e = subst (Few cap) e (wait-Few kq cap t w)

macos-AreFilters : AreFilters macos
macos-AreFilters = omega arith

macos-AreChanges : AreChanges macos
macos-AreChanges = omega arith

abbrev awakener : Awakener
awakener = record { selector = record { kq = 4 }; id = 7 }

abbrev selector : Selector
selector = record { kq = 3 }

abbrev quiet : Waking Bool
quiet = record { world = false; owed = false }

abbrev owing : Waking Bool
owing = record { world = true; owed = true }

quiet-Reached :
    Reached macos kqueues vec_sink (λ s. s) (λ kq. Unit {0}) (λ w. w) 7 selector quiet owing
unfolding woken wake Kqueue.wake kevent_register trigger_all receipts Kqueue.is_error Kqueue.ignores
    Kqueue.contains_flag Kqueue.check_errors Kqueue.new_kevent
quiet-Reached = then_ here (wakes quiet awakener tt refl)

wake-reports_example :
    (events : List Event) × ((select macos kqueues vec_sink selector [] none true).1 ≡ [] ++ events)
    × ((reports 7 events ≡ true) ⊎ (length events ≡ capacity_min growable events_cap))
unfolding capacity_min select wait
wake-reports_example =
    wake-reports macos kqueues vec_sink (λ s. s) vec_sink-IsSink kqueues-WaitsWithin
      macos-AreFilters macos-AreChanges (λ kq. Unit {0}) (λ w. w) 7 kqueues-IsUserEvent selector tt
      quiet owing [] none refl quiet-Reached refl refl
