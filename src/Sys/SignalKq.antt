-- ===== src/Sys/SignalKq.antt =====
-- src/sys/unix/signals.rs: `Signals` of macOS and the BSDs, on a kqueue of its own, which is dropped
-- when the set-up fails.
pub mod Receiving
pub mod Blocking
use gaea.Base.{none, some, List, [], ◌∷◌, ◌==◌, if◌then◌else◌, ok, err, IoResult}
use gaea.Base.Io.{Io, pure, ◌>>=◌, ◌>>◌}
use gaea.Event.{EventId}
use gaea.Os.Interests.{interests_readable}
use gaea.Os.Options.{option_level}
use gaea.Os.Signals.{Signal, SignalSet, SignalNumbers, from_raw}
use gaea.Sys.Kqueue as Kqueue
use gaea.Sys.Kqueue.Abi.{Kevent, KqueueFlags, KqueueKernel}
use gaea.Sys.SignalFd.{create_sigset, block_signals, Received, returned, panicked}
use gaea.Sys.SignalFd.Abi.{SignalKernel}

pub record Signals : Type 0 where
  pub kq : Kqueue.Selector

module _ (c : SignalNumbers) (flags : KqueueFlags) {W : Type 0} (kernel : KqueueKernel W) where
  unfoldable pub new :
      {G : Type 0} → SignalKernel W G → Kqueue.Selector → SignalSet → EventId → Io W Signals
  unfolding create_sigset block_signals
  new k selector signals id = do
    set ← create_sigset c k signals
    kq ← Kqueue.selector_new flags kernel
    Kqueue.or_drop flags kernel kq (do
      Kqueue.register_signals flags kernel kq c id signals
      Kqueue.register flags kernel selector kq.kq id interests_readable option_level
      block_signals c k set
      pure (record { kq = kq }))

  -- The `match` on the number of events.
  unfoldable pub received : IoResult (List Kevent) × W → Received W
  received (err e, w) = returned (err e) w
  received (ok [], w) = returned (ok none) w
  received (ok (kevent ∷ []), w) =
      if kevent.filter == flags.evfilt_signal
      then returned (ok (from_raw c kevent.ident)) w
      else panicked w
  received (ok (first ∷ second ∷ rest), w) = panicked w

  unfoldable pub receive : Signals → W → Received W
  unfolding received
  receive self w = received (kernel.wait self.kq.kq 1 (some (record { tv_sec = 0; tv_nsec = 0 })) w)
