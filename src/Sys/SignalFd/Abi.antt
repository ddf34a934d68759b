-- ===== src/Sys/SignalFd/Abi.antt =====
-- What src/sys/unix/signals.rs takes from libc and the kernel, with its documented behaviour.
use gaea.Base.Io.{Io}
use gaea.Base.{ℕ, suc, ◌<◌, ◌≡◌, List, [], ◌∷◌, ok, err, would_block, interrupted}

-- The size of `signalfd_siginfo`.
abbrev pub siginfo_size : ℕ
siginfo_size = 128

-- `G` is `sigset_t`. A read gives the number of bytes and the number of the signal.
pub record SignalKernel (W G : Type 0) : Type 0 where
  pub sigemptyset : Io W G
  pub sigaddset : G → ℕ → Io W G
  pub signalfd : G → Io W ℕ
  pub sigprocmask_block : G → Io W (Unit {0})
  pub read : ℕ → Io W (ℕ × ℕ)

-- signalfd(2), for a non-blocking descriptor, with the signals that are pending for it and the
-- number of times that its reads are still interrupted: a read takes the first signal that is
-- pending, and would block if there is none.
pub record IsSignalfd {W G : Type 0} (k : SignalKernel W G) (pending : W → List ℕ)
    (interruptions : W → ℕ) (fd : ℕ) : Type 0 where
  pub interrupts :
      (w : W)
      → 0 < interruptions w
      → (w' : W) × (k.read fd w ≡ (err interrupted, w'))
        × (suc (interruptions w') ≡ interruptions w)
        × (pending w' ≡ pending w)
  pub blocks :
      (w : W)
      → interruptions w ≡ 0
      → pending w ≡ []
      → (w' : W) × (k.read fd w ≡ (err would_block, w')) × (pending w' ≡ [])
  pub takes :
      (n : ℕ) (ns : List ℕ) (w : W)
      → interruptions w ≡ 0
      → pending w ≡ n ∷ ns
      → (w' : W) × (k.read fd w ≡ (ok (siginfo_size, n), w')) × (pending w' ≡ ns)
