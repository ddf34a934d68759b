-- ===== src/Sys/Leaks.antt =====
-- src/sys/unix/awakener.rs and src/sys/unix/signals.rs on Linux: what becomes of the descriptor when
-- an awakener or a signal handler cannot be set up.
use gaea.Base.{ℕ, ◌≡◌, refl, sym, ap, ◌∙◌, Option, some, List, ◌∷◌, ok, err, IoResult}
use gaea.Base.Io.{Io, pure, ◌>>=◌, ◌>>◌}
use gaea.Event.{EventId}
use gaea.Os.Interests.{interests_readable}
use gaea.Os.Options.{option_level, option_edge}
use gaea.Os.Signals.{SignalSet, SignalNumbers}
use gaea.Sys.Awakener as Eventfd
use gaea.Sys.Awakener.Abi.{EventfdKernel}
use gaea.Sys.Epoll as Epoll
use gaea.Sys.Epoll.Abi.{EpollFlags, EpollKernel, CtlOp, ctl_add, EpEvent}
use gaea.Sys.Net.Abi.{Keeps}
use gaea.Sys.Net.Leaks.{opens_then, then-Keeps}
use gaea.Sys.SignalFd as SignalFd
use gaea.Sys.SignalFd.{create_sigset}
use gaea.Sys.SignalFd.Abi.{SignalKernel}
use gaea.Sys.SignalFd.Blocking.{create_sigset-Keeps}

-- Which descriptors a process has open, as the manual pages say it: `eventfd` and `signalfd` open a
-- descriptor when they succeed, and the other calls open and close none.
pub record TracksHandles {W G : Type 0} (eventfds : EventfdKernel W) (k : SignalKernel W G)
    (kernel : EpollKernel W) (opened : W → List ℕ) : Type 0 where
  pub eventfd_opens :
      (fd : ℕ) (w w' : W) → eventfds.eventfd w ≡ (ok fd, w') → opened w' ≡ fd ∷ opened w
  pub signalfd_opens :
      (set : G) (fd : ℕ) (w w' : W) → k.signalfd set w ≡ (ok fd, w') → opened w' ≡ fd ∷ opened w
  pub sigemptyset_keeps : Keeps opened k.sigemptyset
  pub sigaddset_keeps : (set : G) (n : ℕ) → Keeps opened (k.sigaddset set n)
  pub sigprocmask_keeps : (set : G) → Keeps opened (k.sigprocmask_block set)
  pub epoll_ctl_keeps :
      (epfd : ℕ) (op : CtlOp) (fd : ℕ) (event : Option EpEvent)
      → Keeps opened (kernel.epoll_ctl epfd op fd event)

module _ (c : SignalNumbers) {W G : Type 0} (eventfds : EventfdKernel W) (k : SignalKernel W G)
    (flags : EpollFlags) (kernel : EpollKernel W) (opened : W → List ℕ)
    (law : TracksHandles eventfds k kernel opened) where
  -- What is left to do once the eventfd is there.
  abbrev to_register : Epoll.Selector → EventId → ℕ → Io W Eventfd.Awakener
  to_register selector id fd =
      kernel.epoll_ctl selector.epfd ctl_add fd
        (some (Epoll.new_epoll_event flags interests_readable option_edge id))
      >> pure (record { fd = fd })

  -- What is left to do once the signalfd is there.
  abbrev to_register_signals : Epoll.Selector → EventId → G → ℕ → Io W SignalFd.Signals
  to_register_signals selector id set fd =
      kernel.epoll_ctl selector.epfd ctl_add fd
        (some (Epoll.new_epoll_event flags interests_readable option_level id))
      >> (k.sigprocmask_block set >> pure (record { fd = fd }))

  follows :
      {A B : Type 0} (m : Io W A) (f : A → Io W B) (a : A) (w w' : W)
      → m w ≡ (ok a, w')
      → (m >>= f) w ≡ f a w'
  follows {A} {B} m f a w w' e =
      ap (λ x. elim x.0 as (λ y. IoResult B × W) [ err e' ↦ (err e', x.1) | ok b ↦ f b x.1 ]) e

  awakener_leaks :
      (selector : Epoll.Selector) (id : EventId) (fd : ℕ) (w w' : W)
      → eventfds.eventfd w ≡ (ok fd, w')
      → opened (Eventfd.new eventfds flags kernel selector id w).1 ≡ fd ∷ opened w
  unfolding Eventfd.new Epoll.register Epoll.epoll_ctl
  awakener_leaks selector id fd w w' e =
      opens_then opened eventfds.eventfd (to_register selector id) fd w w' e (
        then-Keeps opened _ (λ _. pure (record { fd = fd })) (law.epoll_ctl_keeps _ _ _ _)
          (λ _ _. refl))
      ∙ law.eventfd_opens fd w w' e

  signals_leak :
      (selector : Epoll.Selector) (signals : SignalSet) (id : EventId) (set : G) (fd : ℕ)
      (w w₁ w₂ : W)
      → create_sigset c k signals w ≡ (ok set, w₁)
      → k.signalfd set w₁ ≡ (ok fd, w₂)
      → opened (SignalFd.new c k flags kernel selector signals id w).1 ≡ fd ∷ opened w
  unfolding SignalFd.new SignalFd.block_signals Epoll.register Epoll.epoll_ctl
  signals_leak selector signals id set fd w w₁ w₂ e e' =
      let unchanged : opened w₁ ≡ opened w =
        sym (ap (λ x. opened x.1) e)
        ∙ create_sigset-Keeps c k opened law.sigemptyset_keeps law.sigaddset_keeps signals w in
      ap (λ x. opened x.1)
        (follows (create_sigset c k signals)
          (λ set. k.signalfd set >>= to_register_signals selector id set) set w w₁ e)
      ∙ opens_then opened (k.signalfd set) (to_register_signals selector id set) fd w₁ w₂ e' (
          then-Keeps opened _ (λ _. k.sigprocmask_block set >> pure (record { fd = fd }))
            (law.epoll_ctl_keeps _ _ _ _)
            (λ _.
              then-Keeps opened _ (λ _. pure (record { fd = fd })) (law.sigprocmask_keeps set)
                (λ _ _. refl)))
      ∙ law.signalfd_opens set fd w₁ w₂ e'
      ∙ ap (λ l. fd ∷ l) unchanged

  -- If the system calls open and close descriptors only as documented, then once the set-up of a
  -- signal handler on Linux has its signalfd, or that of an awakener its eventfd, the descriptor is
  -- open when the set-up returns, whether it succeeds or returns an error: nothing closes the
  -- descriptor when the registration or the blocking of the signals fails.
  pub new_leaks :
      (selector : Epoll.Selector) (signals : SignalSet) (id : EventId) (set : G) (fd n : ℕ)
      (w w₁ w₂ v v' : W)
      → create_sigset c k signals w ≡ (ok set, w₁)
      → k.signalfd set w₁ ≡ (ok fd, w₂)
      → eventfds.eventfd v ≡ (ok n, v')
      → (opened (SignalFd.new c k flags kernel selector signals id w).1 ≡ fd ∷ opened w)
        × (opened (Eventfd.new eventfds flags kernel selector id v).1 ≡ n ∷ opened v)
  new_leaks selector signals id set fd n w w₁ w₂ v v' e e' r =
      (signals_leak selector signals id set fd w w₁ w₂ e e', awakener_leaks selector id n v v' r)
