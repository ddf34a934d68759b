-- ===== src/Sys/Awakener/Pipe.antt =====
-- src/sys/unix/awakener.rs: the `Awakener` of NetBSD and OpenBSD, on a pipe. The recursion of `wake`
-- and the loop of `empty` are on fuel, and give `none` when that runs out.
use gaea.Base.Io.{Io, pure, ◌>>=◌, ◌>>◌}
use gaea.Event.{EventId}
use gaea.Os.Interests.{interests_readable}
use gaea.Os.Options.{option_edge}
use gaea.Sys.Kqueue as Kqueue
use gaea.Sys.Kqueue.Abi.{KqueueFlags, KqueueKernel}
use gaea.Sys.Net.{new_pipe}
use gaea.Sys.Net.Abi.{SocketFlags, SocketKernel}
use gaea.Sys.Awakener.Abi.{PipeKernel}
use gaea.Base.{ℕ, zero, suc, Option, none, some, ok, err, would_block, interrupted, IoResult}

pub record Awakener : Type 0 where
  pub sender : ℕ
  pub receiver : ℕ

module _ {W : Type 0} (pipes : PipeKernel W) where
  unfoldable pub new :
      SocketFlags
      → SocketKernel W
      → KqueueFlags
      → KqueueKernel W
      → Kqueue.Selector
      → EventId
      → Io W Awakener
  new sockets calls flags kernel selector id = do
    (sender, receiver) ← new_pipe sockets calls
    Kqueue.register flags kernel selector receiver id interests_readable option_edge
    pure (record { sender = sender; receiver = receiver })

  unfoldable pub try_clone : Awakener → Io W Awakener
  try_clone self = do
    sender ← pipes.dup self.sender
    receiver ← pipes.dup self.receiver
    pure (record { sender = sender; receiver = receiver })

  unfoldable pub empty : ℕ → Awakener → W → Option W
  empty zero self w = none
  empty (suc fuel) self w =
      let (r, w') = pipes.read self.receiver 4096 w in
      elim r [ ok zero ↦ some w' | ok (suc n) ↦ empty fuel self w' | err e ↦ some w' ]

  unfoldable pub wake : ℕ → Awakener → W → Option (IoResult (Unit {0}) × W)
  unfolding empty
  wake zero self w = none
  wake (suc fuel) self w =
      let (r, w') = pipes.write self.sender w in
      elim r [
        | ok n ↦ some (ok tt, w')
        | err would_block ↦ elim (empty fuel self w') [
          | none ↦ none
          | some w'' ↦ wake fuel self w''
        ]
        | err interrupted ↦ wake fuel self w'
        | err e ↦ some (err e, w')
      ]
