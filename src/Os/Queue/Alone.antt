-- ===== src/Os/Queue/Alone.antt =====
-- src/lib.rs and src/os/mod.rs: polling the queue of the operating system alone, into a vector.
use gaea.Base.{Option, ◌≡◌, refl, none, List, [], ◌∷◌, ◌++◌, map, append-nil, ok, err, IoError}
use mathlib.Core.Option
use gaea.Event.Source.{Duration}
use gaea.Event.{Event, capacity_min}
use gaea.Event.Sink.{vec_sink}
use gaea.Os.Queue.{OsQueue, os_source, blocking_poll, map_err}
use gaea.Poll.{poll, fold_timeouts, poll_rest, PolledAll}
use gaea.Poll.Order.{poll_first}
use gaea.Sys.{events_cap}
use gaea.Sys.Epoll.{duration_to_millis, ep_event_to_event, select, deliver}
use gaea.Sys.Epoll.Abi.{EpollFlags, EpollKernel, EpEvent}

module _ (flags : EpollFlags) {W : Type 0} (kernel : EpollKernel W) (os_queue : OsQueue) where
  deliver-append :
      (es : List EpEvent) (events : List Event)
      → deliver flags vec_sink (ok es) events ≡ (ok tt, events ++ map (ep_event_to_event flags) es)
  unfolding deliver
  deliver-append [] events = rw append-nil refl
  deliver-append (e ∷ es) events = refl

  pub select-append :
      (es : List EpEvent) (events : List Event) (timeout : Option Duration) (w w' : W)
      → kernel.epoll_wait os_queue.selector.epfd events_cap
          (Option.map duration_to_millis timeout)
          w
        ≡ (ok es, w')
      → select flags kernel vec_sink os_queue.selector events timeout w
        ≡ (ok tt, events ++ map (ep_event_to_event flags) es, w')
  unfolding select capacity_min
  select-append es events timeout w w' e = rw (e, deliver-append es events) refl

  pub select-fails :
      (x : IoError) (events : List Event) (timeout : Option Duration) (w w' : W)
      → kernel.epoll_wait os_queue.selector.epfd events_cap
          (Option.map duration_to_millis timeout)
          w
        ≡ (err x, w')
      → select flags kernel vec_sink os_queue.selector events timeout w ≡ (err x, events, w')
  unfolding select deliver capacity_min
  select-fails x events timeout w w' e = rw e refl

  -- What the system reports is added to the events that are there.
  pub poll_alone-append :
      (es : List EpEvent) (events : List Event) (w w' : W)
      → kernel.epoll_wait os_queue.selector.epfd events_cap none w ≡ (ok es, w')
      → poll (os_source flags kernel {E = IoError} vec_sink (λ e. e)) (os_queue ∷ []) events none w
        ≡ record {
          source = os_queue ∷ [];
          sink = events ++ map (ep_event_to_event flags) es;
          world = w';
          result = ok tt;
        }
  unfolding poll_rest blocking_poll fold_timeouts gaea.Poll.min_timeout gaea.Os.Queue.max_timeout
  poll_alone-append es events w w' e =
      rw
        (
          poll_first (os_source flags kernel {E = IoError} vec_sink (λ e. e)) os_queue [] events
              none w,
          blocking_poll,
          select-append es events none w w' e,
        )
        refl
