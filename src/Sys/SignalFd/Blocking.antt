-- ===== src/Sys/SignalFd/Blocking.antt =====
-- src/sys/unix/signals.rs: the order of the steps of `Signals::new`.
use gaea.Base.Io.{Io, pure, ◌>>=◌, ◌>>◌}
use gaea.Base.{ℕ, ◌≡◌, refl, sym, ap, ◌∙◌, Option, some, List, [], ◌∷◌, ok, err, IoError, IoResult}
use gaea.Event.{EventId}
use gaea.Os.Interests.{interests_readable}
use gaea.Os.Options.{option_level}
use gaea.Os.Signals.{Signal, SignalSet, SignalNumbers, into_raw, each}
use gaea.Sys.Epoll as Epoll
use gaea.Sys.Epoll.Abi.{EpollFlags, EpollKernel, CtlOp, ctl_add, EpEvent}
use gaea.Sys.SignalFd.Abi.{SignalKernel}
use gaea.Sys.SignalFd.{Signals, new, create_sigset, add_signals, block_signals}

module _ {W M : Type 0} (mask : W → M) where
  -- A call that leaves the mask of blocked signals as it is, always or whenever it fails.
  abbrev pub Keeps : {A : Type 0} → Io W A → Type 0
  Keeps m = (w : W) → mask (m w).1 ≡ mask w

  abbrev pub KeepsOnError : {A : Type 0} → Io W A → Type 0
  KeepsOnError m = (w w' : W) (e : IoError) → m w ≡ (err e, w') → mask w' ≡ mask w

  pub then-KeepsOnError :
      {A B : Type 0} (m : Io W A) (f : A → Io W B)
      → Keeps m
      → ((a : A) → KeepsOnError (f a))
      → KeepsOnError (m >>= f)
  then-KeepsOnError {A} {B} m f p q w w' e r = go (m w) refl r
    where
      go :
          (x : IoResult A × W)
          → m w ≡ x
          → (elim x.0 as (λ y. IoResult B × W) [ err e' ↦ (err e', x.1) | ok a ↦ f a x.1 ])
            ≡ (err e, w')
          → mask w' ≡ mask w
      go (ok a, w₁) s t = q a w₁ w' e t ∙ ap (λ y. mask y.1) (sym s) ∙ p w
      go (err e', w₁) s t = ap (λ y. mask y.1) (sym t) ∙ ap (λ y. mask y.1) (sym s) ∙ p w

  -- Nothing fails behind the last call.
  pub last-KeepsOnError :
      {B : Type 0} (m : Io W (Unit {0})) (b : B) → KeepsOnError m → KeepsOnError (m >> pure b)
  last-KeepsOnError {B} m b p w w' e r = go (m w) refl r
    where
      go :
          (x : IoResult (Unit {0}) × W)
          → m w ≡ x
          → (elim x.0 as (λ y. IoResult B × W) [ err e' ↦ (err e', x.1) | ok a ↦ (ok b, x.1) ])
            ≡ (err e, w')
          → mask w' ≡ mask w
      go (ok a, w₁) s t = cc
      go (err e', w₁) s t = ap (λ y. mask y.1) (sym t) ∙ p w w₁ e' s

  pub then-Keeps :
      {A B : Type 0} (m : Io W A) (f : A → Io W B)
      → Keeps m
      → ((a : A) → Keeps (f a))
      → Keeps (m >>= f)
  then-Keeps {A} {B} m f p q w = go (m w) refl
    where
      go :
          (x : IoResult A × W)
          → m w ≡ x
          → mask (elim x.0 as (λ y. IoResult B × W) [ err e' ↦ (err e', x.1) | ok a ↦ f a x.1 ]).1
            ≡ mask w
      go (ok a, w₁) s = q a w₁ ∙ ap (λ y. mask y.1) (sym s) ∙ p w
      go (err e', w₁) s = ap (λ y. mask y.1) (sym s) ∙ p w

module _ (c : SignalNumbers) {W G M : Type 0} (k : SignalKernel W G) (mask : W → M)
    (sigemptyset_keeps : Keeps mask k.sigemptyset)
    (sigaddset_keeps : (set : G) (n : ℕ) → Keeps mask (k.sigaddset set n)) where
  add_signals-Keeps : (signals : List Signal) (set : G) → Keeps mask (add_signals c k signals set)
  unfolding add_signals
  add_signals-Keeps [] set w = refl
  add_signals-Keeps (x ∷ xs) set w =
      then-Keeps mask (k.sigaddset set (into_raw c x)) (λ set'. add_signals c k xs set')
        (sigaddset_keeps set (into_raw c x)) (add_signals-Keeps xs) w

  pub create_sigset-Keeps : (signals : SignalSet) → Keeps mask (create_sigset c k signals)
  unfolding create_sigset
  create_sigset-Keeps signals =
      then-Keeps mask k.sigemptyset (add_signals c k (each signals)) sigemptyset_keeps
        (add_signals-Keeps (each signals))

-- The mask of blocked signals as the manual pages have it: only `sigprocmask` changes it, and not
-- when it fails.
pub record TracksMask {W G M : Type 0} (k : SignalKernel W G) (kernel : EpollKernel W)
    (mask : W → M) : Type 0 where
  pub sigemptyset_keeps : Keeps mask k.sigemptyset
  pub sigaddset_keeps : (set : G) (n : ℕ) → Keeps mask (k.sigaddset set n)
  pub signalfd_keeps : (set : G) → Keeps mask (k.signalfd set)
  pub epoll_ctl_keeps :
      (epfd fd : ℕ) (op : CtlOp) (event : Option EpEvent)
      → Keeps mask (kernel.epoll_ctl epfd op fd event)
  pub sigprocmask_keeps : (set : G) → KeepsOnError mask (k.sigprocmask_block set)

module _ (c : SignalNumbers) {W G M : Type 0} (k : SignalKernel W G) (flags : EpollFlags)
    (kernel : EpollKernel W) (mask : W → M) (law : TracksMask k kernel mask) where
  -- What is left to do at each step of `new`.
  abbrev finished : ℕ → Io W Signals
  finished fd = pure (record { fd = fd })

  abbrev to_block : G → ℕ → Io W Signals
  to_block set fd = k.sigprocmask_block set >> finished fd

  abbrev to_register : Epoll.Selector → EventId → G → ℕ → Io W Signals
  to_register selector id set fd =
      kernel.epoll_ctl selector.epfd ctl_add fd
        (some (Epoll.new_epoll_event flags interests_readable option_level id))
      >> to_block set fd

  abbrev to_open : Epoll.Selector → EventId → G → Io W Signals
  to_open selector id set = k.signalfd set >>= to_register selector id set

  -- If only `sigprocmask` changes the mask of blocked signals, and not when it fails, then a
  -- `Signals` that cannot be created leaves the mask as it was: the signals are blocked only when
  -- the signalfd is created and registered, and nothing can fail after that.
  pub new_failed :
      (selector : Epoll.Selector) (signals : SignalSet) (id : EventId) (w w' : W) (e : IoError)
      → new c k flags kernel selector signals id w ≡ (err e, w')
      → mask w' ≡ mask w
  unfolding new block_signals Epoll.register Epoll.epoll_ctl
  new_failed selector signals id w w' e r =
      then-KeepsOnError mask (create_sigset c k signals) (to_open selector id)
        (create_sigset-Keeps c k mask law.sigemptyset_keeps law.sigaddset_keeps signals)
        (λ set.
          then-KeepsOnError mask (k.signalfd set) (to_register selector id set)
            (law.signalfd_keeps set)
            (λ fd.
              then-KeepsOnError mask (kernel.epoll_ctl selector.epfd ctl_add fd _)
                (λ _. to_block set fd) (law.epoll_ctl_keeps selector.epfd fd ctl_add _)
                (λ _.
                  last-KeepsOnError mask (k.sigprocmask_block set) (record { fd = fd })
                    (law.sigprocmask_keeps set))))
        w w' e r
