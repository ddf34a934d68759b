-- ===== src/Os/Handlers.antt =====
-- src/os/awakener.rs and src/os/signals.rs: `Awakener` and `Signals` on Linux, which stand on those
-- of src/sys. `none` is a `debug_assert!` that fails.
use gaea.Base.{
  ℕ, ◌≡◌, refl, ap, ◌↔◌, Bool, true, false, Option, none, arith, ◌!=◌, length, IoResult,
}
use gaea.Base.Io.{Io, pure, ◌>>=◌}
use gaea.Event.{EventId}
use gaea.Os.Evented.{debug_assert}
use gaea.Os.Queue.{OsQueue}
use gaea.Os.Signals.{
  Signal, interrupt, quit, terminate, SignalSet, SignalNumbers, size, from, contains,
}
use gaea.Os.Signals.Iteration.{members, collect-members}
use gaea.Os.Signals.Sets.{IsValid}
use gaea.Sys.Awakener as Eventfd
use gaea.Sys.Awakener.Abi.{EventfdKernel}
use gaea.Sys.Epoll.Abi.{EpollFlags, EpollKernel}
use gaea.Sys.SignalFd as SignalFd
use gaea.Sys.SignalFd.{Received}
use gaea.Sys.SignalFd.Abi.{SignalKernel}

-- `os_queue.selector()`.
pub record Awakener : Type 0 where
  pub inner : Eventfd.Awakener

pub record Signals : Type 0 where
  pub inner : SignalFd.Signals

module _ {W : Type 0} (eventfds : EventfdKernel W) where
  unfoldable pub awakener_new : EpollFlags → EpollKernel W → OsQueue → EventId → Io W Awakener
  unfolding Eventfd.new
  awakener_new flags kernel os_queue id = do
    inner ← Eventfd.new eventfds flags kernel os_queue.selector id
    pure (record { inner = inner })

  unfoldable pub awakener_try_clone : Awakener → Io W Awakener
  unfolding Eventfd.try_clone
  awakener_try_clone self = do
    inner ← Eventfd.try_clone eventfds self.inner
    pure (record { inner = inner })

  -- The fuel is that of the awakener of the platform.
  unfoldable pub awakener_wake : ℕ → Awakener → W → Option (IoResult (Unit {0}) × W)
  unfolding Eventfd.wake
  awakener_wake fuel self w = Eventfd.wake eventfds fuel self.inner w

module _ (c : SignalNumbers) {W G : Type 0} (k : SignalKernel W G) where
  unfoldable pub signals_new :
      EpollFlags → EpollKernel W → OsQueue → SignalSet → EventId → Option (Io W Signals)
  unfolding SignalFd.new size
  signals_new flags kernel os_queue signals id =
      debug_assert (size signals != 0) flags.debug_assertions (do
        inner ← SignalFd.new c k flags kernel os_queue.selector signals id
        pure (record { inner = inner }))

  unfoldable pub signals_receive : ℕ → Signals → W → Received W
  unfolding SignalFd.receive
  signals_receive fuel self w = SignalFd.receive c k fuel self.inner w

  size-members : (s : SignalSet) → IsValid s → size s ≡ length (members s)
  unfolding gaea.Os.Signals.size_hint
  size-members s v = ap (λ p. p.0) (collect-members s 0 v).1

  debug_assert-none :
      {A : Type 0} (b debug : Bool) (call : A)
      → debug ≡ true
      → (debug_assert b debug call ≡ none) ↔ (b ≡ false)
  debug_assert-none true debug call on = ((λ e. cc), (λ e. cc))
  debug_assert-none false true call on = ((λ e. refl), (λ e. refl))
  debug_assert-none false false call on = absurd (ground arith)

  missing : (s : SignalSet) → length (members s) ≡ 0 → (x : Signal) → contains s (from x) ≡ false
  missing s e interrupt = ground arith
  missing s e quit = ground arith
  missing s e terminate = ground arith

  members-none :
      (s : SignalSet) → (length (members s) ≡ 0) ↔ ((x : Signal) → contains s (from x) ≡ false)
  members-none s = (missing s, λ h. rw (h interrupt, h quit, h terminate) refl)

  -- In a build with debug assertions, for a set with no bits but the three flags, a handler of signals is refused, by a panic,
  -- exactly when the set contains none of the signals.
  signals_new-refused :
      (flags : EpollFlags) (kernel : EpollKernel W) (os_queue : OsQueue) (s : SignalSet)
      (id : EventId)
      → IsValid s
      → flags.debug_assertions ≡ true
      → (signals_new flags kernel os_queue s id ≡ none)
        ↔ ((x : Signal) → contains s (from x) ≡ false)
  unfolding signals_new
  signals_new-refused flags kernel os_queue s id valid debug =
      let call : Io W Signals = SignalFd.new c k flags kernel os_queue.selector s id >>= λ inner.
      pure (record { inner = inner }) in
      let (to, back) = debug_assert-none (size s != 0) flags.debug_assertions call debug in
      let (all_missing, none_there) = members-none s in
      let counted = size-members s valid in
      (
        (λ e. let b = to e in all_missing (ground arith)),
        (λ h. let l = none_there h in back (ground arith)),
      )
