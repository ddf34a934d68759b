-- ===== src/Sys/Awakener/Kqueue.antt =====
-- src/sys/unix/awakener.rs: the `Awakener` of FreeBSD and macOS, on a kqueue.
use gaea.Base.Io.{Io, pure, ◌>>=◌, ◌>>◌}
use gaea.Event.{EventId}
use gaea.Sys.Kqueue as Kqueue
use gaea.Sys.Kqueue.Abi.{KqueueFlags, KqueueKernel}

pub record Awakener : Type 0 where
  pub selector : Kqueue.Selector
  pub id : EventId

module _ (c : KqueueFlags) {W : Type 0} (kernel : KqueueKernel W) where
  unfoldable pub new : Kqueue.Selector → EventId → Io W Awakener
  new selector id = do
    selector' ← Kqueue.try_clone c kernel selector
    Kqueue.or_drop c kernel selector' (do
      Kqueue.setup_awakener c kernel selector' id
      pure (record { selector = selector'; id = id }))

  unfoldable pub try_clone : Awakener → Io W Awakener
  try_clone self = do
    selector ← Kqueue.try_clone c kernel self.selector
    pure (record { selector = selector; id = self.id })

  unfoldable pub wake : Awakener → Io W (Unit {0})
  wake self = Kqueue.wake c kernel self.selector self.id
