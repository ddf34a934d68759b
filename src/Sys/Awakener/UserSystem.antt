-- ===== src/Sys/Awakener/UserSystem.antt =====
-- src/sys/unix/awakener.rs with src/sys/unix/kqueue.rs: calls of `wake` on a kqueue and polls of it,
-- in any order.
use gaea.Base.{ℕ, ◌≡◌, Bool, true, not, ◌&&◌, Option, List, ◌++◌, ok, err, IoResult}
use gaea.Event.{Event, EventId}
use gaea.Event.Sink.{Sink}
use gaea.Event.Source.{Duration}
use gaea.Sys.Awakener.Kqueue.{Awakener, wake}
use gaea.Sys.Awakener.System.{reports}
use gaea.Sys.Kqueue.Abi.{KqueueFlags, KqueueKernel}
use gaea.Sys.Kqueue.{Selector, select}

-- The world, and whether a call of `wake` has succeeded that no poll has reported yet.
pub record Waking (W : Type 0) : Type 0 where
  pub world : W
  pub owed : Bool

-- What becomes of it when a call of `wake` returns.
unfoldable pub woken : {W : Type 0} → Bool → IoResult (Unit {0}) × W → Waking W
woken owed (ok u, w) = record { world = w; owed = true }
woken owed (err e, w) = record { world = w; owed = owed }

module _ (c : KqueueFlags) {W ES : Type 0} (kernel : KqueueKernel W) (sink : Sink ES)
    (contents : ES → List Event) (IsOn : ℕ → Type 0) (triggered : W → Bool) (id : EventId)
    (selector : Selector) where
  -- An awakener on the kqueue is called, the poller calls `select` with a sink, which puts events
  -- behind those in the sink, or something else happens that does not take back a trigger.
  pub data Step : Waking W → Waking W → Type 0 where
    wakes :
        (t : Waking W) (a : Awakener)
        → IsOn a.selector.kq
        → a.id ≡ id
        → Step t (woken t.owed (wake c kernel a t.world))
    polls :
        (t : Waking W) (s : ES) (timeout : Option Duration) (events : List Event)
        → contents (select c kernel sink selector s timeout t.world).1 ≡ contents s ++ events
        → Step t (record {
          world = (select c kernel sink selector s timeout t.world).2;
          owed = t.owed && not (reports id events);
        })
    others :
        (t : Waking W) (w : W)
        → (triggered t.world ≡ true → triggered w ≡ true)
        → Step t (record t { world = w })

  pub data Reached (start : Waking W) : Waking W → Type 0 where
    here : Reached start start
    then_ : {t u : Waking W} → Reached start t → Step t u → Reached start u
