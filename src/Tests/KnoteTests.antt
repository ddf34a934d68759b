-- ===== src/Tests/KnoteTests.antt =====
-- src/sys/unix/kqueue.rs and src/sys/unix/signals.rs on concrete inputs: a kqueue as the map of its
-- filters, and one with signals that are pending.
use gaea.Base.{
  ◌≢◌, ◌⊎◌, ℕ, zero, suc, ◌≤◌, ◌≡◌, refl, subst, ◌∙◌, Option, none, some, List, [], ◌∷◌, arith,
  length, ok, err, raw, IoResult,
}
use gaea.Base.Io.{Io}
use gaea.Os.Signals.{SignalNumbers, SignalSet}
use gaea.Sys.Kqueue as Kqueue
use gaea.Sys.Kqueue.{Selector, new_kevent}
use gaea.Sys.Kqueue.Abi.{Kevent, KqueueKernel, Timespec}
use gaea.Sys.Kqueue.Knotes.{none_refused, Knotes, Same, put, apply_all}
use gaea.Sys.SignalKq.{Signals, receive}
use gaea.Sys.SignalKq.Receiving.{IsSignalQueue, Receives, receive-Receives}
use gaea.Tests.Sample.{macos}

abbrev kqueues : KqueueKernel Knotes
kqueues = record {
  kqueue = λ w. (ok 3, w);
  dup = λ fd w. (ok 4, w);
  changes =
      λ kq ks w. (ok (apply_all macos ks none_refused w).1, (apply_all macos ks none_refused w).0);
  wait = λ kq cap t w. (ok [], w);
  close = λ fd w. (ok tt, w);
  from_raw_os_error = raw;
}

-- What is asked of the outcome of a call with changes.
abbrev Applied : List Kevent → Knotes → IoResult (List Kevent) × Knotes → Type 0
Applied ks w (ok entries, w') =
    (refusals : ℕ → ℕ) × ((n : ℕ) → (refusals n ≡ 0) ⊎ (refusals n ≢ macos.enoent))
    × (entries ≡ (apply_all macos ks refusals w).1)
    × Same w' (apply_all macos ks refusals w).0
Applied ks w (err e, w') = ⊥

-- Descriptor 7 is registered for writing.
abbrev writing : Knotes
writing = put (λ k f. none) 7 65534 (some 1)

-- The world is the list of the signals that are pending.
signal_wait : ℕ → Option Timespec → Io (List ℕ) (List Kevent)
signal_wait cap t [] = (ok [], [])
signal_wait zero t (n ∷ ns) = (ok [], n ∷ ns)
signal_wait (suc cap) t (n ∷ ns) = (ok (new_kevent n 65530 0 5 ∷ []), ns)

abbrev signal_queue : KqueueKernel (List ℕ)
signal_queue = record {
  kqueue = λ w. (ok 3, w);
  dup = λ fd w. (ok 4, w);
  changes = λ kq ks w. (ok ks, w);
  wait = λ kq cap t w. signal_wait cap t w;
  close = λ fd w. (ok tt, w);
  from_raw_os_error = raw;
}

-- What is asked of the outcome of a wait.
abbrev Waited : ℕ → List ℕ → IoResult (List Kevent) × List ℕ → Type 0
Waited cap w (ok [], w') = (cap ≡ 1 → w ≡ []) × (w' ≡ w) × (0 ≤ cap)
Waited cap w (ok (k ∷ []), w') = (k.filter ≡ 65530) × (w ≡ k.ident ∷ w') × (1 ≤ cap)
Waited cap w x = ⊥

wait-Waited : (cap : ℕ) (t : Option Timespec) (w : List ℕ) → Waited cap w (signal_wait cap t w)
unfolding signal_wait new_kevent
wait-Waited cap t [] = ((λ _. refl), refl, omega arith)
wait-Waited zero t (n ∷ ns) = ((λ e. absurd (omega arith)), refl, omega arith)
wait-Waited (suc cap) t (n ∷ ns) = (refl, refl, omega arith)

Few : ℕ → IoResult (List Kevent) → Type 0
Few cap (ok es) = length es ≤ cap
Few cap (err e) = Unit

wait-Few : (cap : ℕ) (t : Option Timespec) (w : List ℕ) → Few cap (signal_wait cap t w).0
unfolding signal_wait Few
wait-Few cap t [] = omega arith
wait-Few zero t (n ∷ ns) = omega arith
wait-Few (suc cap) t (n ∷ ns) = omega arith

signal_queue-IsSignalQueue : IsSignalQueue macos signal_queue (λ w. w) 3
unfolding Few
signal_queue-IsSignalQueue = record {
  few = λ kq cap t w es e. subst (Few cap) e (wait-Few cap t w);
  nothing = λ t w w' e.
      let (h, same, _) = subst (Waited 1 w) e (wait-Waited 1 t w) in (h refl, same ∙ h refl);
  signal = λ t w w' k e. let (f, p, _) = subst (Waited 1 w) e (wait-Waited 1 t w) in (f, p);
  failed = λ t w w' x e. absurd (subst (Waited 1 w) e (wait-Waited 1 t w));
}

abbrev numbers : SignalNumbers
numbers = record { sigint = 2; sigquit = 3; sigterm = 15 }

abbrev handler : Signals
handler = record { kq = record { kq = 3 } }

receive-Receives_example :
    Receives numbers macos signal_queue handler
      (λ w. w)
      signal_queue-IsSignalQueue
      (3 ∷ 2 ∷ [])
      (receive numbers macos signal_queue handler (3 ∷ 2 ∷ []))
receive-Receives_example =
    receive-Receives numbers macos signal_queue handler (λ w. w) signal_queue-IsSignalQueue
      (3 ∷ 2 ∷ [])

abbrev two_signals : SignalSet
two_signals = record { bits = 6 }
