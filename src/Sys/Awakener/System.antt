-- ===== src/Sys/Awakener/System.antt =====
-- src/sys/unix/awakener.rs with src/sys/unix/epoll.rs: threads that wake a poller, their system
-- calls in any order.
use gaea.Base.{◌≡◌, Bool, true, false, not, ◌&&◌, ◌||◌, Option, List, [], ◌∷◌, ◌++◌, ◌==◌, ok, err}
use gaea.Event.{Event, EventId, is_readable}
use gaea.Event.Sink.{Sink}
use gaea.Event.Source.{Duration}
use gaea.Sys.Awakener.{Awakener}
use gaea.Sys.Awakener.Abi.{EventfdKernel}
use gaea.Sys.Awakener.Steps.{Phase, writing, done, wake_step}
use gaea.Sys.Epoll.Abi.{EpollFlags, EpollKernel}
use gaea.Sys.Epoll.{Selector, select}

-- One of the events is a readable one with the identifier.
unfoldable pub reports : EventId → List Event → Bool
reports id [] = false
reports id (e ∷ es) = ((e.id == id) && is_readable e.readiness) || reports id es

-- The world, the calls of `wake` that have not returned, and whether one of those that have returned
-- was a success that no poll has reported yet.
pub record Threads (W : Type 0) : Type 0 where
  pub world : W
  pub wakers : List Phase
  pub owed : Bool

-- The call has not returned.
abbrev pub IsActive : Phase → Type 0
IsActive (done r) = ⊥
IsActive p = Unit {0}

-- What becomes of the threads when the call of one of them has made a step.
unfoldable pub stepped : {W : Type 0} → List Phase → List Phase → Bool → Phase × W → Threads W
stepped before after owed (done (ok u), w) = record {
  world = w;
  wakers = before ++ after;
  owed = true;
}
stepped before after owed (done (err e), w) = record {
  world = w;
  wakers = before ++ after;
  owed = owed;
}
stepped before after owed (p, w) = record { world = w; wakers = before ++ p ∷ after; owed = owed }

module _ {W ES : Type 0} (k : EventfdKernel W) (epolls : EpollKernel W) (flags : EpollFlags)
    (sink : Sink ES) (contents : ES → List Event) (awakener : Awakener) (selector : Selector)
    (id : EventId) where
  -- A thread calls `wake`, the call of a thread makes its next step, or the poller calls `select`
  -- with a sink, which puts events behind those in the sink.
  pub data Step : Threads W → Threads W → Type 0 where
    calls : (t : Threads W) → Step t (record t { wakers = writing ∷ t.wakers })
    steps :
        (w : W) (before after : List Phase) (p : Phase) (owed : Bool)
        → IsActive p
        → Step
            (record { world = w; wakers = before ++ p ∷ after; owed = owed })
            (stepped before after owed (wake_step k awakener p w))
    polls :
        (t : Threads W) (s : ES) (timeout : Option Duration) (events : List Event)
        → contents (select flags epolls sink selector s timeout t.world).1 ≡ contents s ++ events
        → Step t (record t {
          world = (select flags epolls sink selector s timeout t.world).2;
          owed = t.owed && not (reports id events);
        })

  pub data Reached (start : Threads W) : Threads W → Type 0 where
    here : Reached start start
    then_ : {t u : Threads W} → Reached start t → Step t u → Reached start u
