-- ===== src/Sources/Steps.antt =====
-- src/lib.rs: polls of the sources of the crate into a vector.
use mathlib.Core.Option
use gaea.Base.{drop_all, take_all, ℕ, ◌≡◌, refl, Option, List, [], ◌∷◌, ◌++◌, map, ok, err, IoError}
use gaea.Event.{Event, capacity_min}
use gaea.Event.Sink.{vec_sink}
use gaea.Event.Source.{Source, Polled, Duration}
use gaea.UserSpace.{Queue}
use gaea.UserSpace.Delivery as UserSpaceDelivery
use gaea.Timers.{Timers}
use gaea.Timers.Heap.{MinHeap}
use gaea.Os.Queue.{OsQueue, blocking_poll}
use gaea.Os.Queue.Alone.{select-append, select-fails}
use gaea.Sys.{events_cap}
use gaea.Sys.Epoll.Abi.{EpollFlags, EpollKernel, EpEvent}
use gaea.Sys.Epoll.{ep_event_to_event, duration_to_millis}
use gaea.Poll.{poll, poll_rest, PolledAll, and_then, fold_timeouts}
use gaea.Poll.Order.{poll_first}
use gaea.Sources.{any, queue, timers, os_queue, Platform, any_poll, any_blocking_poll}

module _ {S ES W E : Type 0} (methods : Source S ES W E) where
  pub and_then-ok :
      (first : Polled S ES W E) (rest : List S) (others : PolledAll S ES W E)
      → first.result ≡ ok tt
      → and_then methods first rest others ≡ record others { source = first.source ∷ others.source }
  and_then-ok first rest others e = rw (and_then, e) refl

  and_then-err :
      (first : Polled S ES W E) (rest : List S) (others : PolledAll S ES W E) (e : E)
      → first.result ≡ err e
      → and_then methods first rest others ≡ record {
        source = first.source ∷ rest;
        sink = first.sink;
        world = first.world;
        result = err e;
      }
  and_then-err first rest others e h = rw (and_then, h) refl

  -- The first source fails.
  pub poll_stopped :
      (x : S) (xs : List S) (s : ES) (timeout : Option Duration) (w : W) (first : Polled S ES W E)
      (e : E)
      → let (t, w₁) = fold_timeouts methods timeout (x ∷ xs) w in
        methods.blocking_poll x s t w₁ ≡ first
        → first.result ≡ err e
        → poll methods (x ∷ xs) s timeout w ≡ record {
          source = first.source ∷ xs;
          sink = first.sink;
          world = first.world;
          result = err e;
        }
  poll_stopped x xs s timeout w first e e₁ a =
      rw (poll_first methods x xs s timeout w, e₁, and_then-err first _ _ e a) refl

  -- Two sources that are polled without an error.
  pub poll_two :
      (x y : S) (s : ES) (timeout : Option Duration) (w : W) (first second : Polled S ES W E)
      → let (t, w₁) = fold_timeouts methods timeout (x ∷ y ∷ []) w in
        methods.blocking_poll x s t w₁ ≡ first
        → methods.poll y first.sink first.world ≡ second
        → first.result ≡ ok tt
        → second.result ≡ ok tt
        → poll methods (x ∷ y ∷ []) s timeout w ≡ record {
          source = first.source ∷ second.source ∷ [];
          sink = second.sink;
          world = second.world;
          result = ok tt;
        }
  unfolding poll_rest
  poll_two x y s timeout w first second e₁ e₂ a b =
      rw
        (
          poll_first methods x (y ∷ []) s timeout w,
          e₁,
          and_then-ok first _ _ a,
          e₂,
          and_then-ok second _ _ b,
        )
        refl

  -- Three sources that are polled without an error.
  pub poll_three :
      (x y z : S) (s : ES) (timeout : Option Duration) (w : W)
      (first second third : Polled S ES W E)
      → let (t, w₁) = fold_timeouts methods timeout (x ∷ y ∷ z ∷ []) w in
        methods.blocking_poll x s t w₁ ≡ first
        → methods.poll y first.sink first.world ≡ second
        → methods.poll z second.sink second.world ≡ third
        → first.result ≡ ok tt
        → second.result ≡ ok tt
        → third.result ≡ ok tt
        → poll methods (x ∷ y ∷ z ∷ []) s timeout w ≡ record {
          source = first.source ∷ second.source ∷ third.source ∷ [];
          sink = third.sink;
          world = third.world;
          result = ok tt;
        }
  unfolding poll_rest
  poll_three x y z s timeout w first second third e₁ e₂ e₃ a b c =
      rw
        (
          poll_first methods x (y ∷ z ∷ []) s timeout w,
          e₁,
          and_then-ok first _ _ a,
          e₂,
          and_then-ok second _ _ b,
          e₃,
          and_then-ok third _ _ c,
        )
        refl

module _ {H W E : Type 0} (heap : MinHeap H) (clock : W → ℕ × W) (panic : E) (flags : EpollFlags)
    (kernel : EpollKernel W) (from : IoError → E) where
  -- The platform with a vector as the sink.
  abbrev pub vec_platform : Platform H (List Event) W E
  vec_platform = record {
    heap = heap;
    sink = vec_sink;
    clock = clock;
    panic = panic;
    flags = flags;
    kernel = kernel;
    from = from;
  }

  pub os_step :
      (o : OsQueue) (s : List Event) (wait : Option Duration) (es : List EpEvent) (w w' : W)
      → kernel.epoll_wait o.selector.epfd events_cap (Option.map duration_to_millis wait) w
        ≡ (ok es, w')
      → any_blocking_poll vec_platform (os_queue o) s wait w ≡ record {
        source = os_queue o;
        sink = s ++ map (ep_event_to_event flags) es;
        world = w';
        result = ok tt;
      }
  unfolding any_blocking_poll blocking_poll
  os_step o s wait es w w' e = rw (select-append flags kernel o es s wait w w' e) refl

  pub os_step_failed :
      (o : OsQueue) (s : List Event) (wait : Option Duration) (x : IoError) (w w' : W)
      → kernel.epoll_wait o.selector.epfd events_cap (Option.map duration_to_millis wait) w
        ≡ (err x, w')
      → any_blocking_poll vec_platform (os_queue o) s wait w
        ≡ record { source = os_queue o; sink = s; world = w'; result = err (from x) }
  unfolding any_blocking_poll blocking_poll
  os_step_failed o s wait x w w' e = rw (select-fails flags kernel o x s wait w w' e) refl

  pub timers_step :
      (t : Timers H) (s : List Event) (w : W)
      → any_poll vec_platform (timers t) s w
        ≡ any timers (gaea.Timers.poll heap vec_sink clock panic t s w)
  unfolding any_poll
  timers_step t s w = refl

  pub queue_step :
      (q : Queue) (s : List Event) (w : W)
      → any_poll vec_platform (queue q) s w ≡ record {
        source = queue (record { events = [] });
        sink = s ++ q.events;
        world = w;
        result = ok tt;
      }
  unfolding any_poll capacity_min
  queue_step q s w =
      rw (UserSpaceDelivery.poll-drains vec_sink panic q s w, take_all q.events, drop_all q.events)
        refl
