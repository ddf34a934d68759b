-- ===== src/Sys/SignalKq/Blocking.antt =====
-- src/sys/unix/signals.rs: the order of the steps of `Signals::new` on a kqueue.
use gaea.Base.{◌∙◌, sym, ap, ℕ, ◌≡◌, refl, sym, ap, ◌∙◌, List, [], ok, err, IoError, IoResult}
use gaea.Base.Io.{Io, pure, ◌>>=◌, ◌>>◌}
use gaea.Event.{EventId}
use gaea.Os.Interests.{interests_readable}
use gaea.Os.Options.{option_level}
use gaea.Os.Signals.{SignalSet, SignalNumbers}
use gaea.Sys.Kqueue as Kqueue
use gaea.Sys.Kqueue.Effects.{kevent_register-Keeps}
use gaea.Sys.Kqueue.Abi.{Kevent, KqueueFlags, KqueueKernel}
use gaea.Sys.SignalFd.{create_sigset, block_signals}
use gaea.Sys.SignalFd.Abi.{SignalKernel}
use gaea.Sys.SignalFd.Blocking.{
  Keeps, KeepsOnError, then-KeepsOnError, last-KeepsOnError, create_sigset-Keeps,
}
use gaea.Sys.SignalKq.{Signals, new}

-- The mask of blocked signals as the manual pages have it: only `sigprocmask` changes it, and not
-- when it fails.
pub record KqueueTracksMask {W G M : Type 0} (k : SignalKernel W G) (kernel : KqueueKernel W)
    (mask : W → M) : Type 0 where
  pub sigemptyset_keeps : Keeps mask k.sigemptyset
  pub sigaddset_keeps : (set : G) (n : ℕ) → Keeps mask (k.sigaddset set n)
  pub kqueue_keeps : Keeps mask kernel.kqueue
  pub changes_keeps : (kq : ℕ) (ks : List Kevent) → Keeps mask (kernel.changes kq ks)
  pub close_keeps : (fd : ℕ) → Keeps mask (kernel.close fd)
  pub sigprocmask_keeps : (set : G) → KeepsOnError mask (k.sigprocmask_block set)

module _ (c : SignalNumbers) (flags : KqueueFlags) {W G M : Type 0} (k : SignalKernel W G)
    (kernel : KqueueKernel W) (mask : W → M) (law : KqueueTracksMask k kernel mask) where
  -- What is left to do at each step of `new`.
  abbrev to_block : G → Kqueue.Selector → Io W Signals
  to_block set kq = k.sigprocmask_block set >> pure (record { kq = kq })

  abbrev to_register : Kqueue.Selector → EventId → G → Kqueue.Selector → Io W Signals
  to_register selector id set kq =
      Kqueue.register flags kernel selector kq.kq id interests_readable option_level
      >> to_block set kq

  abbrev to_add : Kqueue.Selector → SignalSet → EventId → G → Kqueue.Selector → Io W Signals
  to_add selector signals id set kq =
      Kqueue.register_signals flags kernel kq c id signals >> to_register selector id set kq

  abbrev to_open : Kqueue.Selector → SignalSet → EventId → G → Io W Signals
  to_open selector signals id set = Kqueue.selector_new flags kernel >>= λ kq.
      Kqueue.or_drop flags kernel kq (to_add selector signals id set kq)

  or_drop-KeepsOnError :
      (kq : Kqueue.Selector) (m : Io W Signals)
      → KeepsOnError mask m
      → KeepsOnError mask (Kqueue.or_drop flags kernel kq m)
  unfolding Kqueue.drop
  or_drop-KeepsOnError kq m keeps w w' e r = go (m w) refl r
    where
      go :
          (x : IoResult Signals × W)
          → m w ≡ x
          → Kqueue.or_drop flags kernel kq (λ _. x) w ≡ (err e, w')
          → mask w' ≡ mask w
      go (ok a, w₁) s t = cc
      go (err e', w₁) s t = ap (λ y. mask y.1) (sym t) ∙ law.close_keeps kq.kq w₁ ∙ keeps w w₁ e' s

  selector_new-Keeps : Keeps mask (Kqueue.selector_new flags kernel)
  unfolding Kqueue.selector_new
  selector_new-Keeps w = go (kernel.kqueue w) (law.kqueue_keeps w)
    where
      go :
          (x : IoResult ℕ × W)
          → mask x.1 ≡ mask w
          → mask
              (elim x.0 as (λ y. IoResult Kqueue.Selector × W) [
                | err e ↦ (err e, x.1)
                | ok kq ↦ (ok (record { kq = kq }), x.1)
              ]).1
            ≡ mask w
      go (ok kq, w') h = h
      go (err e, w') h = h

  -- If only `sigprocmask` changes the mask of blocked signals, and not when it fails, then a
  -- `Signals` on a kqueue that cannot be created leaves the mask as it was: the signals are blocked
  -- only when they are registered and the kqueue is, and nothing can fail after that.
  new-unblocked :
      (selector : Kqueue.Selector) (signals : SignalSet) (id : EventId) (w w' : W) (e : IoError)
      → new c flags kernel k selector signals id w ≡ (err e, w')
      → mask w' ≡ mask w
  unfolding new block_signals Kqueue.register_signals Kqueue.register
  new-unblocked selector signals id w w' e r =
      then-KeepsOnError mask (create_sigset c k signals) (to_open selector signals id)
        (create_sigset-Keeps c k mask law.sigemptyset_keeps law.sigaddset_keeps signals)
        (λ set.
          then-KeepsOnError mask (Kqueue.selector_new flags kernel) _ selector_new-Keeps (λ kq.
            or_drop-KeepsOnError kq (to_add selector signals id set kq) (
              then-KeepsOnError mask _ (λ _. to_register selector id set kq)
                (kevent_register-Keeps flags kernel mask law.changes_keeps kq.kq _ [])
                (λ _.
                  then-KeepsOnError mask _ (λ _. to_block set kq)
                    (kevent_register-Keeps flags kernel mask law.changes_keeps selector.kq _ [])
                    (λ _.
                      last-KeepsOnError mask (k.sigprocmask_block set) (record { kq = kq })
                        (law.sigprocmask_keeps set))))))
        w w' e r
