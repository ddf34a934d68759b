-- ===== src/Tests/OwnedTests.antt =====
-- src/sys/unix/awakener.rs and src/sys/unix/signals.rs on a kqueue that refuses every change.
use mathlib.Core.List.{erase}
use mathlib.Core.List.Perm
use native.Mathlib.Decide.{ℕ_discrete}
use gaea.Base.{ℕ, ◌+◌, ◌≡◌, refl, subst, List, [], ◌∷◌, Perm, length, ok, err, would_block, raw}
use gaea.Base.Io.{Io}
use gaea.Sys.Awakener.Kqueue as Kq
use gaea.Sys.Kqueue.Abi.{KqueueKernel}
use gaea.Sys.Kqueue.Owned.{TracksKqueues, new-Owns}
use gaea.Sys.SignalKq as SignalKq
use gaea.Sys.SignalFd.Abi.{SignalKernel}
use gaea.Tests.Sample.{macos}
use gaea.Tests.ServerTests.{erase_first}
use gaea.Tests.SignalTests.{numbers, two_signals}

-- The world is the list of the descriptors that are open.
open_next : Io (List ℕ) ℕ
open_next w = (ok (3 + length w), (3 + length w) ∷ w)

abbrev full_kqueue : KqueueKernel (List ℕ)
full_kqueue = record {
  kqueue = open_next;
  dup = λ fd. open_next;
  changes = λ kq ks w. (err (raw 12), w);
  wait = λ kq cap t w. (ok [], w);
  close = λ fd w. (ok tt, erase ℕ_discrete w fd);
  from_raw_os_error = raw;
}

abbrev masks : SignalKernel (List ℕ) (List ℕ)
masks = record {
  sigemptyset = λ w. (ok [], w);
  sigaddset = λ set n w. (ok (n ∷ set), w);
  signalfd = λ set w. (err (raw 12), w);
  sigprocmask_block = λ set w. (ok tt, w);
  read = λ fd w. (err would_block, w);
}

opened_next : (fd : ℕ) (w w' : List ℕ) → open_next w ≡ (ok fd, w') → Perm w' (fd ∷ w)
unfolding open_next
opened_next fd w w' e = let same : w' ≡ fd ∷ w = cc in rw same Perm.rfl

kqueue-TracksKqueues : TracksKqueues masks full_kqueue (λ w. w)
unfolding open_next
kqueue-TracksKqueues = record {
  kqueue_opens = (opened_next, (λ e w w' h. cc));
  dup_opens = λ old. (opened_next, (λ e w w' h. cc));
  closes = λ fd w rest p.
      subst (λ l. Perm (erase ℕ_discrete w fd) l) (erase_first fd rest)
        (Perm.erase ℕ_discrete fd p);
  changes_keeps = λ kq ks w. refl;
  sigemptyset_keeps = λ w. refl;
  sigaddset_keeps = λ set n w. refl;
  sigprocmask_keeps = λ set w. refl;
}

new-Owns_example :
    Perm (Kq.new macos full_kqueue (record { kq = 3 }) 7 (3 ∷ [])).1 (3 ∷ [])
    × Perm
        (SignalKq.new numbers macos full_kqueue masks (record { kq = 3 }) two_signals 7 (3 ∷ [])).1
        (3 ∷ [])
unfolding open_next Kq.new SignalKq.new gaea.Sys.Kqueue.try_clone gaea.Os.Signals.each
    gaea.Sys.Kqueue.setup_awakener gaea.Sys.Kqueue.selector_new gaea.Sys.Kqueue.kevent_register
    gaea.Sys.Kqueue.register_signals
new-Owns_example =
    new-Owns numbers macos masks full_kqueue (λ w. w) kqueue-TracksKqueues (record { kq = 3 })
      two_signals 7 (3 ∷ [])
