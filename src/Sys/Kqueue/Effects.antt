-- ===== src/Sys/Kqueue/Effects.antt =====
-- src/sys/unix/kqueue.rs: what `kevent_register` leaves as it is.
use gaea.Base.{subst, inl, inr, ℕ, ◌≡◌, List, IoResult}
use gaea.Sys.Kqueue.{kevent_register}
use gaea.Sys.Kqueue.Changes.{kevent_register_cases}
use gaea.Sys.Kqueue.Abi.{Kevent, KqueueFlags, KqueueKernel}
use gaea.Sys.SignalFd.Blocking.{Keeps}

module _ (flags : KqueueFlags) {W M : Type 0} (kernel : KqueueKernel W) (mask : W → M)
    (changes_keeps : (kq : ℕ) (ks : List Kevent) → Keeps mask (kernel.changes kq ks)) where
  after_changes :
      (kq : ℕ) (ks : List Kevent) (w : W) (r : IoResult (List Kevent)) (w' : W)
      → kernel.changes kq ks w ≡ (r, w')
      → mask w' ≡ mask w
  after_changes kq ks w r w' e = subst (λ x. mask x.1 ≡ mask w) e (changes_keeps kq ks w)

  -- A registration changes only what its system call changes.
  pub kevent_register-Keeps :
      (kq : ℕ) (ks : List Kevent) (ignored : List ℕ)
      → Keeps mask (kevent_register flags kernel kq ks ignored)
  kevent_register-Keeps kq ks ignored w =
      elim (kevent_register_cases flags kernel kq ks ignored w) [
        | inl (entries, w', e, done) ↦ rw done (after_changes kq ks w _ w' e)
        | inr (inl (w', e, done)) ↦ rw done (after_changes kq ks w _ w' e)
        | inr (inr (x, w', e, other, done)) ↦ rw done (after_changes kq ks w _ w' e)
      ]
