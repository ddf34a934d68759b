-- ===== src/Sys/Awakener.antt =====
-- src/sys/unix/awakener.rs: the `Awakener` of Linux, on an eventfd. `File` is its descriptor; the
-- system calls are parameters, in `Abi`. The recursion of `wake` is on fuel, and gives `none` when
-- that runs out.
pub mod Abi
pub mod Pipe
pub mod Kqueue
pub mod Waking
pub mod Steps
pub mod System
pub mod Wakeups
pub mod UserSystem
pub mod UserEvents
use gaea.Base.Io.{Io, pure, ◌>>=◌, ◌>>◌}
use gaea.Base.{ℕ, zero, suc, Option, none, some, ok, err, would_block, IoResult}
use gaea.Event.{EventId}
use gaea.Os.Interests.{interests_readable}
use gaea.Os.Options.{option_edge}
use gaea.Sys.Epoll as Epoll
use gaea.Sys.Epoll.Abi.{EpollFlags, EpollKernel}
use Abi.{EventfdKernel}

pub record Awakener : Type 0 where
  pub fd : ℕ

module _ {W : Type 0} (eventfds : EventfdKernel W) where
  unfoldable pub new : EpollFlags → EpollKernel W → Epoll.Selector → EventId → Io W Awakener
  new flags kernel selector id = do
    fd ← eventfds.eventfd
    Epoll.register flags kernel selector fd id interests_readable option_edge
    pure (record { fd = fd })

  unfoldable pub try_clone : Awakener → Io W Awakener
  try_clone self = do fd ← eventfds.dup self.fd; pure (record { fd = fd })

  unfoldable pub reset : Awakener → Io W (Unit {0})
  reset self w =
      let (r, w') = eventfds.read self.fd w in
      elim r [ ok n ↦ (ok tt, w') | err would_block ↦ (ok tt, w') | err e ↦ (err e, w') ]

  unfoldable pub wake : ℕ → Awakener → W → Option (IoResult (Unit {0}) × W)
  unfolding reset
  wake zero self w = none
  wake (suc fuel) self w =
      let (r, w') = eventfds.write self.fd 1 w in
      elim r [
        | ok n ↦ some (ok tt, w')
        | err would_block ↦
            let (r', w'') = reset self w' in
            elim r' [ ok n ↦ wake fuel self w'' | err e ↦ some (err e, w'') ]
        | err e ↦ some (err e, w')
      ]
