-- ===== src/Sys/SignalFd.antt =====
-- src/sys/unix/signals.rs: `Signals` of Linux, on a signalfd, and the functions that it shares with
-- the one on kqueue. `File` is its descriptor; the system calls are parameters, in `Abi`. The loop of
-- `receive` is on fuel.
pub mod Abi
pub mod Receiving
pub mod Blocking
use gaea.Base.Io.{Io, pure, ◌>>=◌, ◌>>◌}
use gaea.Base.{
  ℕ, zero, suc, Option, none, List, [], ◌∷◌, ◌==◌, if◌then◌else◌, ok, err, would_block, interrupted,
  IoResult,
}
use gaea.Event.{EventId}
use gaea.Os.Interests.{interests_readable}
use gaea.Os.Options.{option_level}
use gaea.Os.Signals.{Signal, SignalSet, SignalNumbers, into_raw, from_raw, each}
use gaea.Sys.Epoll as Epoll
use gaea.Sys.Epoll.Abi.{EpollFlags, EpollKernel}
use Abi.{SignalKernel, siginfo_size}

pub record Signals : Type 0 where
  pub fd : ℕ

-- What a call of `receive` comes to: a result, a panic of its assertion, or no fuel left.
pub data Received (W : Type 0) : Type 0 where
  returned : IoResult (Option Signal) → W → Received W
  panicked : W → Received W
  out_of_fuel : Received W

module _ (c : SignalNumbers) {W G : Type 0} (k : SignalKernel W G) where
  -- The loop of `create_sigset`.
  unfoldable pub add_signals : List Signal → G → Io W G
  add_signals [] set = pure set
  add_signals (signal ∷ signals) set = do
    set' ← k.sigaddset set (into_raw c signal)
    add_signals signals set'

  unfoldable pub create_sigset : SignalSet → Io W G
  unfolding add_signals
  create_sigset signals = do set ← k.sigemptyset; add_signals (each signals) set

  unfoldable pub block_signals : G → Io W (Unit {0})
  block_signals set = k.sigprocmask_block set

  unfoldable pub new :
      EpollFlags → EpollKernel W → Epoll.Selector → SignalSet → EventId → Io W Signals
  unfolding create_sigset block_signals
  new flags kernel selector signals id = do
    set ← create_sigset signals
    fd ← k.signalfd set
    Epoll.register flags kernel selector fd id interests_readable option_level
    block_signals set
    pure (record { fd = fd })

  unfoldable pub receive : ℕ → Signals → W → Received W
  receive zero self w = out_of_fuel
  receive (suc fuel) self w =
      let (r, w') = k.read self.fd w in
      elim r [
        | ok (n, signo) ↦
            if n == siginfo_size then returned (ok (from_raw c signo)) w' else panicked w'
        | err would_block ↦ returned (ok none) w'
        | err interrupted ↦ receive fuel self w'
        | err e ↦ returned (err e) w'
      ]
