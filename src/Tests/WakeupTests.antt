-- ===== src/Tests/WakeupTests.antt =====
-- src/sys/unix/awakener.rs on concrete inputs: a call of `wake` between polls.
use gaea.Base.{
  ℕ, zero, suc, ◌+◌, ◌≤◌, ◌<◌, ◌≡◌, refl, subst, ◌⊎◌, inl, inr, Bool, true, false, ◌&&◌, Option,
  none, List, [], ◌∷◌, ◌++◌, arith, ltb, leb, ◌==◌, if◌then◌else◌, Bool-cases, length, ok, err,
  would_block, IoResult,
}
use mathlib.Core.List.{Mem, mem-cons_self}
use gaea.Base.Io.{Io}
use gaea.Event.{Event, growable, capacity_min}
use gaea.Event.Sink.{vec_sink, vec_sink-IsSink}
use gaea.Sys.{events_cap}
use gaea.Sys.Awakener.{Awakener}
use gaea.Sys.Awakener.Abi.{EventfdKernel, IsEdgeTriggered, max_count}
use gaea.Sys.Awakener.Steps.{writing, wake_step}
use gaea.Sys.Awakener.System.{reports, Threads, stepped, calls, steps, Reached, here, then_}
use gaea.Sys.Awakener.Wakeups.{wake-reported}
use gaea.Sys.Epoll.Abi.{EpEvent, EpollKernel, WaitsWithin}
use gaea.Sys.Epoll.{Selector, select, contains_flag}
use gaea.Tests.Sample.{linux}

-- The count of the one eventfd, and whether its registration is pending.
record Kernel : Type 0 where
  count : ℕ
  pending : Bool

write : ℕ → ℕ → Io Kernel (Unit {0})
write fd n w =
    if leb (w.count + n) max_count
    then (ok tt, record { count = w.count + n; pending = true })
    else (err would_block, w)

read : ℕ → Io Kernel ℕ
read fd w = if w.count == 0 then (err would_block, w) else (ok w.count, record w { count = 0 })

abbrev eventfds : EventfdKernel Kernel
eventfds = record { eventfd = λ w. (ok 4, w); dup = λ fd w. (ok 5, w); read = read; write = write }

abbrev report : EpEvent
report = record { events = 1; u64 = 7 }

-- What is pending is reported, if there is room.
wait : ℕ → ℕ → Option ℕ → Io Kernel (List EpEvent)
wait epfd zero t w = (ok [], w)
wait epfd (suc cap) t w =
    if w.pending && ltb 0 w.count
    then (ok (report ∷ []), record w { pending = false })
    else (ok [], w)

abbrev epolls : EpollKernel Kernel
epolls = record {
  epoll_create1 = λ w. (ok 3, w);
  close = λ fd w. (ok tt, w);
  epoll_ctl = λ epfd op fd ev w. (ok tt, w);
  epoll_wait = wait;
}

-- What is asked of the outcome of a wait.
abbrev Waited : ℕ → Kernel → IoResult (List EpEvent) × Kernel → Type 0
Waited cap w (ok es, w') =
    (w'.count ≡ w.count)
    × (w.pending ≡ true
        → 0 < w.count
        → ((e : EpEvent) × Mem e es × (e.u64 ≡ 7) × (contains_flag e.events 1 ≡ true))
          ⊎ ((length es ≡ cap) × (w'.pending ≡ true)))
Waited cap w (err e, w') = (w'.count ≡ w.count) × (w'.pending ≡ w.pending)

wait-Waited : (epfd cap : ℕ) (t : Option ℕ) (w : Kernel) → Waited cap w (wait epfd cap t w)
unfolding wait contains_flag
wait-Waited epfd zero t w = (refl, λ p c. inr (refl, p))
wait-Waited epfd (suc cap) t w = elim (Bool-cases (w.pending && ltb 0 w.count)) [
  | inl e ↦ rw e (refl, λ p c. inl (report, mem-cons_self, refl, refl))
  | inr e ↦ rw e (refl, λ p c. absurd (ground arith))
]

kernel-IsEdgeTriggered : IsEdgeTriggered eventfds epolls linux (λ w. w.count) (λ w. w.pending) 4 7
unfolding write read
kernel-IsEdgeTriggered = record {
  written = λ n w h. (record { count = w.count + n; pending = true }, ground arith, refl, refl);
  full = λ n w h. (w, ground arith, refl, refl);
  taken = λ w h. (record w { count = 0 }, ground arith, refl);
  empty = λ w h. (w, ground arith, h);
  reported = λ epfd cap t w w' es e. subst (Waited cap w) e (wait-Waited epfd cap t w);
  wait_failed = λ epfd cap t w w' x e. subst (Waited cap w) e (wait-Waited epfd cap t w);
}

Few : ℕ → IoResult (List EpEvent) → Type 0
Few cap (ok es) = length es ≤ cap
Few cap (err e) = Unit

wait-Few : (epfd cap : ℕ) (t : Option ℕ) (w : Kernel) → Few cap (wait epfd cap t w).0
unfolding wait Few
wait-Few epfd zero t w = omega arith
wait-Few epfd (suc cap) t w = elim (Bool-cases (w.pending && ltb 0 w.count)) [
  | inl e ↦ rw e (omega arith)
  | inr e ↦ rw e (omega arith)
]

epolls-WaitsWithin : WaitsWithin epolls
unfolding Few
epolls-WaitsWithin epfd cap t w es e = subst (Few cap) e (wait-Few epfd cap t w)

abbrev awakener : Awakener
awakener = record { fd = 4 }

abbrev selector : Selector
selector = record { epfd = 3 }

abbrev quiet : Threads Kernel
quiet = record { world = record { count = 0; pending = false }; wakers = []; owed = false }

abbrev woken : Threads Kernel
woken = record { world = record { count = 1; pending = true }; wakers = []; owed = true }

quiet-Reached : Reached eventfds epolls linux vec_sink (λ s. s) awakener selector 7 quiet woken
unfolding stepped wake_step write
quiet-Reached = then_ (then_ here (calls quiet)) (steps quiet.world [] [] writing false tt)

wake-reported_example :
    (events : List Event) × ((select linux epolls vec_sink selector [] none woken.world).1
      ≡ [] ++ events)
    × ((reports 7 events ≡ true) ⊎ (length events ≡ capacity_min growable events_cap))
unfolding capacity_min select wait
wake-reported_example =
    wake-reported eventfds epolls linux vec_sink (λ s. s) awakener selector 7 vec_sink-IsSink
      epolls-WaitsWithin (λ w. w.count) (λ w. w.pending) kernel-IsEdgeTriggered quiet woken [] none
      refl quiet-Reached refl refl (omega arith) refl
