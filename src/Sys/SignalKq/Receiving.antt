-- ===== src/Sys/SignalKq/Receiving.antt =====
-- src/sys/unix/signals.rs: receiving signals from a kqueue, and the order of the steps of `new`.
use gaea.Base.{
  ℕ, ◌≡◌, refl, ap, ◌⊎◌, inl, inr, true, Option, none, some, List, [], ◌∷◌, arith, ◌==◌, ok, err,
  IoError, IoResult,
}
use gaea.Os.Signals.{SignalNumbers, from_raw}
use gaea.Sys.Kqueue.Abi.{Kevent, KqueueFlags, KqueueKernel, Timespec, WaitsWithin}
use gaea.Sys.SignalFd.{Received, returned}
use gaea.Sys.SignalKq.{Signals, received, receive}

-- kqueue(2), for a kqueue with nothing but signals registered: a wait for one event gives the first
-- signal that is pending, or nothing; one that fails takes none.
pub record IsSignalQueue {W : Type 0} (flags : KqueueFlags) (kernel : KqueueKernel W)
    (pending : W → List ℕ) (kq : ℕ) : Type 0 where
  pub few : WaitsWithin kernel
  pub nothing :
      (t : Option Timespec) (w w' : W)
      → kernel.wait kq 1 t w ≡ (ok [], w')
      → (pending w ≡ []) × (pending w' ≡ [])
  pub signal :
      (t : Option Timespec) (w w' : W) (k : Kevent)
      → kernel.wait kq 1 t w ≡ (ok (k ∷ []), w')
      → (k.filter ≡ flags.evfilt_signal) × (pending w ≡ k.ident ∷ pending w')
  pub failed :
      (t : Option Timespec) (w w' : W) (e : IoError)
      → kernel.wait kq 1 t w ≡ (err e, w')
      → pending w' ≡ pending w

module _ (c : SignalNumbers) (flags : KqueueFlags) {W : Type 0} (kernel : KqueueKernel W)
    (self : Signals) (pending : W → List ℕ)
    (law : IsSignalQueue flags kernel pending self.kq.kq) where
  -- How receiving returns.
  abbrev pub Receives : W → Received W → Type 0
  Receives w (returned (ok (some s)) w') =
      (n : ℕ) × (pending w ≡ n ∷ pending w') × (from_raw c n ≡ some s)
  Receives w (returned (ok none) w') =
      ((pending w ≡ []) × (pending w' ≡ []))
      ⊎ ((n : ℕ) × (pending w ≡ n ∷ pending w') × (from_raw c n ≡ none))
  Receives w (returned (err e) w') = pending w' ≡ pending w
  Receives w x = ⊥

  taken :
      (w w' : W) (n : ℕ) (s : Option _)
      → from_raw c n ≡ s
      → pending w ≡ n ∷ pending w'
      → Receives w (returned (ok s) w')
  taken w w' n (some s) e p = (n, p, e)
  taken w w' n none e p = inr (n, p, e)

  -- If nothing but signals is registered with the kqueue and `kevent` behaves as documented,
  -- receiving never panics. It gives the `Signal` of the first number that is pending and takes
  -- that, or gives none if nothing is pending, or if the number is not that of a `Signal`; if it
  -- fails, nothing is taken.
  pub receive-Receives : (w : W) → Receives w (receive c flags kernel self w)
  unfolding receive received
  receive-Receives w = go (kernel.wait self.kq.kq 1 t w) refl
    where
      t : Option Timespec
      t = some (record { tv_sec = 0; tv_nsec = 0 })

      go :
          (x : IoResult (List Kevent) × W)
          → kernel.wait self.kq.kq 1 t w ≡ x
          → Receives w (received c flags kernel x)
      go (err e, w') r = law.failed t w w' e r
      go (ok [], w') r = inl (law.nothing t w w' r)
      go (ok (k ∷ []), w') r =
          let (filter, p) = law.signal t w w' k r in
          let hit : (k.filter == flags.evfilt_signal) ≡ true = ground arith in
          rw hit (taken w w' k.ident (from_raw c k.ident) refl p)
      go (ok (a ∷ b ∷ ks), w') r =
          absurd (omega (arith, law.few self.kq.kq 1 t w _ (ap (λ x. x.0) r)))
