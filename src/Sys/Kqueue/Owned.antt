-- ===== src/Sys/Kqueue/Owned.antt =====
-- src/sys/unix/awakener.rs and src/sys/unix/signals.rs on a kqueue: the awakener and the signal
-- handler own a selector, which is closed when they cannot be set up.
use mathlib.Core.List.Perm
use gaea.Base.{ℕ, ◌≡◌, refl, sym, ap, subst, ◌∙◌, List, [], ◌∷◌, Perm, ok, err, IoResult}
use gaea.Base.Io.{Io, pure, ◌>>=◌, ◌>>◌}
use gaea.Event.{EventId}
use gaea.Os.Interests.{interests_readable}
use gaea.Os.Options.{option_level}
use gaea.Os.Signals.{SignalSet, SignalNumbers}
use gaea.Sys.Awakener.Kqueue as Kq
use gaea.Sys.Awakener.Kqueue.{Awakener}
use gaea.Sys.Kqueue.{Selector, or_drop, kevent_register}
use gaea.Sys.Kqueue as Kqueue
use gaea.Sys.Kqueue.Effects.{kevent_register-Keeps}
use gaea.Sys.Kqueue.Abi.{Kevent, KqueueFlags, KqueueKernel}
use gaea.Sys.Net.Abi.{Opens}
use gaea.Sys.SignalFd.Abi.{SignalKernel}
use gaea.Sys.SignalFd.{create_sigset}
use gaea.Sys.SignalFd.Blocking.{Keeps, create_sigset-Keeps, then-Keeps}
use gaea.Sys.SignalKq as SignalKq

-- Which descriptors a process has open, as the manual pages say it: `kqueue` and `dup` open one,
-- `close` closes the one that it is given, and the other calls open and close none.
pub record TracksKqueues {W G : Type 0} (k : SignalKernel W G) (kernel : KqueueKernel W)
    (opened : W → List ℕ) : Type 0 where
  pub kqueue_opens : Opens opened (λ fd. fd) kernel.kqueue
  pub dup_opens : (fd : ℕ) → Opens opened (λ fd. fd) (kernel.dup fd)
  pub closes :
      (fd : ℕ) (w : W) (rest : List ℕ)
      → Perm (opened w) (fd ∷ rest)
      → Perm (opened (kernel.close fd w).1) rest
  pub changes_keeps : (kq : ℕ) (ks : List Kevent) → Keeps opened (kernel.changes kq ks)
  pub sigemptyset_keeps : Keeps opened k.sigemptyset
  pub sigaddset_keeps : (set : G) (n : ℕ) → Keeps opened (k.sigaddset set n)
  pub sigprocmask_keeps : (set : G) → Keeps opened (k.sigprocmask_block set)

module _ (c : SignalNumbers) (flags : KqueueFlags) {W G : Type 0} (k : SignalKernel W G)
    (kernel : KqueueKernel W) (opened : W → List ℕ) (law : TracksKqueues k kernel opened) where
  -- What a set-up leaves open: the descriptor of the selector that it owns, or nothing on an error.
  abbrev pub Owns : {A : Type 0} → (A → ℕ) → W → IoResult A × W → Type 0
  Owns fd w (ok a, w') = Perm (opened w') (fd a ∷ opened w)
  Owns fd w (err e, w') = Perm (opened w') (opened w)

  or_drop-Owns :
      {A : Type 0} (fd : A → ℕ) (kq : Selector) (m : Io W A) (w w₁ : W)
      → Perm (opened w₁) (kq.kq ∷ opened w)
      → Keeps opened m
      → ((a : A) (v v' : W) → m v ≡ (ok a, v') → fd a ≡ kq.kq)
      → Owns fd w (or_drop flags kernel kq m w₁)
  unfolding Kqueue.drop
  or_drop-Owns {A} fd kq m w w₁ held keeps owner = go (m w₁) refl
    where
      kept : (w' : W) → (m w₁).1 ≡ w' → Perm (opened w') (kq.kq ∷ opened w)
      kept w' e = subst (λ l. Perm l (kq.kq ∷ opened w)) (sym (keeps w₁) ∙ ap opened e) held

      go : (x : IoResult A × W) → m w₁ ≡ x → Owns fd w (or_drop flags kernel kq (λ _. x) w₁)
      go (ok a, w') e =
          subst (λ n. Perm (opened w') (n ∷ opened w)) (sym (owner a w₁ w' e))
            (kept w' (ap (λ y. y.1) e))
      go (err x, w') e = law.closes kq.kq w' (opened w) (kept w' (ap (λ y. y.1) e))

  Owns-same :
      {A : Type 0} (fd : A → ℕ) (w w₁ : W) (r : IoResult A × W)
      → opened w₁ ≡ opened w
      → Owns fd w₁ r
      → Owns fd w r
  Owns-same fd w w₁ (ok a, w') e held = subst (λ l. Perm (opened w') (fd a ∷ l)) e held
  Owns-same fd w w₁ (err x, w') e held = subst (λ l. Perm (opened w') l) e held

  registers-Keeps :
      (kq : ℕ) (ks : List Kevent) (ignored : List ℕ)
      → Keeps opened (kevent_register flags kernel kq ks ignored)
  registers-Keeps = kevent_register-Keeps flags kernel opened law.changes_keeps

  -- Results of a set-up that are made of the selector that it owns.
  abbrev MadeOf : {A : Type 0} → (A → ℕ) → Selector → Io W A → Type 0
  MadeOf {A} fd kq m = (a : A) (v v' : W) → m v ≡ (ok a, v') → fd a ≡ kq.kq

  then-MadeOf :
      {A : Type 0} (fd : A → ℕ) (kq : Selector) (m : Io W (Unit {0})) (rest : Io W A)
      → MadeOf fd kq rest
      → MadeOf fd kq (m >> rest)
  then-MadeOf {A} fd kq m rest made a v v' e = go (m v) e
    where
      go :
          (x : IoResult (Unit {0}) × W)
          → (elim x.0 as (λ y. IoResult A × W) [ err e' ↦ (err e', x.1) | ok u ↦ rest x.1 ])
            ≡ (ok a, v')
          → fd a ≡ kq.kq
      go (ok u, v₁) t = made a v₁ v' t
      go (err x, v₁) t = cc

  -- A call that opens a descriptor, and the rest that owns it.
  then-Owns :
      {A : Type 0} (fd : A → ℕ) (open_ : Io W ℕ) (rest : Selector → Io W A) (w : W)
      → Opens opened (λ n. n) open_
      → ((kq : Selector) → Keeps opened (rest kq))
      → ((kq : Selector) → MadeOf fd kq (rest kq))
      → Owns fd w (
          ((open_ >>= λ n. pure (record { kq = n })) >>= λ kq. or_drop flags kernel kq (rest kq)) w)
  then-Owns {A} fd open_ rest w (opens, fails) keeps owner = go (open_ w) refl
    where
      go :
          (x : IoResult ℕ × W)
          → open_ w ≡ x
          → Owns fd w (
              (((λ _. x) >>= λ n. pure (record { kq = n })) >>= λ kq.
              or_drop flags kernel kq (rest kq))
                w)
      go (ok n, w₁) e =
          or_drop-Owns fd (record { kq = n }) (rest (record { kq = n })) w w₁ (opens n w w₁ e)
            (keeps (record { kq = n })) (owner (record { kq = n }))
      go (err x, w₁) e = fails x w w₁ e

  -- What is left to do, once the selector is there, for an awakener.
  abbrev awake : EventId → Selector → Io W Awakener
  awake id kq = pure (record { selector = kq; id = id })

  awakener-Owns :
      (selector : Selector) (id : EventId) (w : W)
      → Owns (λ a. a.selector.kq) w (Kq.new flags kernel selector id w)
  unfolding Kq.new Kqueue.try_clone Kqueue.setup_awakener
  awakener-Owns selector id w =
      then-Owns (λ a. a.selector.kq) (kernel.dup selector.kq)
        (λ kq. Kqueue.setup_awakener flags kernel kq id >> awake id kq) w
        (law.dup_opens selector.kq)
        (λ kq.
          then-Keeps opened (Kqueue.setup_awakener flags kernel kq id) (λ _. awake id kq)
            (registers-Keeps kq.kq _ []) (λ _ _. refl))
        (λ kq.
          then-MadeOf (λ a. a.selector.kq) kq (Kqueue.setup_awakener flags kernel kq id)
            (awake id kq) (λ a v v' e. cc))

  -- What is left to do, once the selector is there, for a signal handler.
  abbrev signaled : G → Selector → Io W SignalKq.Signals
  signaled set kq = k.sigprocmask_block set >> pure (record { kq = kq })

  abbrev registered : Selector → EventId → G → Selector → Io W SignalKq.Signals
  registered selector id set kq =
      Kqueue.register flags kernel selector kq.kq id interests_readable option_level
      >> signaled set kq

  abbrev listening : Selector → SignalSet → EventId → G → Selector → Io W SignalKq.Signals
  listening selector signals id set kq =
      Kqueue.register_signals flags kernel kq c id signals >> registered selector id set kq

  listening-Keeps :
      (selector : Selector) (signals : SignalSet) (id : EventId) (set : G) (kq : Selector)
      → Keeps opened (listening selector signals id set kq)
  unfolding Kqueue.register_signals Kqueue.register
  listening-Keeps selector signals id set kq =
      then-Keeps opened _ (λ _. registered selector id set kq) (registers-Keeps kq.kq _ [])
        (λ _.
          then-Keeps opened _ (λ _. signaled set kq) (registers-Keeps selector.kq _ [])
            (λ _.
              then-Keeps opened (k.sigprocmask_block set) (λ _. pure (record { kq = kq }))
                (law.sigprocmask_keeps set) (λ _ _. refl)))

  listening-MadeOf :
      (selector : Selector) (signals : SignalSet) (id : EventId) (set : G) (kq : Selector)
      → MadeOf (λ s. s.kq.kq) kq (listening selector signals id set kq)
  listening-MadeOf selector signals id set kq =
      then-MadeOf (λ s. s.kq.kq) kq (Kqueue.register_signals flags kernel kq c id signals)
        (registered selector id set kq)
        (then-MadeOf (λ s. s.kq.kq) kq
          (Kqueue.register flags kernel selector kq.kq id interests_readable option_level)
          (signaled set kq)
          (then-MadeOf (λ s. s.kq.kq) kq (k.sigprocmask_block set) (pure (record { kq = kq }))
            (λ a v v' e. cc)))

  signals-Owns :
      (selector : Selector) (signals : SignalSet) (id : EventId) (w : W)
      → Owns (λ s. s.kq.kq) w (SignalKq.new c flags kernel k selector signals id w)
  unfolding SignalKq.new Kqueue.selector_new gaea.Sys.SignalFd.block_signals
  signals-Owns selector signals id w =
      go (create_sigset c k signals w) refl
        (create_sigset-Keeps c k opened law.sigemptyset_keeps law.sigaddset_keeps signals w)
    where
      new_from : G → Io W SignalKq.Signals
      new_from set = (kernel.kqueue >>= λ n. pure (record { kq = n })) >>= λ kq.
          or_drop flags kernel kq (listening selector signals id set kq)

      go :
          (x : IoResult G × W)
          → create_sigset c k signals w ≡ x
          → opened (create_sigset c k signals w).1 ≡ opened w
          → Owns (λ s. s.kq.kq) w (((λ _. x) >>= new_from) w)
      go (ok set, w₁) e kept =
          Owns-same (λ s. s.kq.kq) w w₁ (new_from set w₁) (sym (ap (λ x. opened x.1) e) ∙ kept)
            (then-Owns (λ s. s.kq.kq) kernel.kqueue (listening selector signals id set) w₁
              law.kqueue_opens (listening-Keeps selector signals id set)
              (listening-MadeOf selector signals id set))
      go (err x, w₁) e kept =
          subst (λ l. Perm (opened w₁) l) (sym (ap (λ y. opened y.1) e) ∙ kept) Perm.rfl

  -- If the system calls open and close descriptors only as documented, then on a kqueue the set-up
  -- of an awakener and that of a signal handler have two outcomes: a result, with the one
  -- descriptor left open that it owns, or an error, with no descriptor left open.
  pub new-Owns :
      (selector : Selector) (signals : SignalSet) (id : EventId) (w : W)
      → Owns (λ a. a.selector.kq) w (Kq.new flags kernel selector id w)
        × Owns (λ s. s.kq.kq) w (SignalKq.new c flags kernel k selector signals id w)
  new-Owns selector signals id w = (awakener-Owns selector id w, signals-Owns selector signals id w)
