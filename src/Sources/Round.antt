-- ===== src/Sources/Round.antt =====
-- src/lib.rs: a poll of the three sources of the crate together.
use mathlib.Core.List.{Mem, not-mem-nil}
use mathlib.Core.Option
use gaea.Base.{
  ℕ, ◌<◌, ◌≡◌, refl, ◌∙◌, inl, inr, Option, List, [], ◌∷◌, ◌++◌, map, Perm, arith, length,
  length-append, length-perm, ok, IoError,
}
use gaea.Event.{Event, capacity_min}
use gaea.Event.Sink.{vec_sink, vec_sink-IsSink}
use gaea.Event.Source.{Source, Polled, Duration}
use gaea.UserSpace.{Queue}
use gaea.Timers.{Timers}
use gaea.Timers.Heap.{MinHeap, IsMinHeap, Deadline}
use gaea.Timers.Delivery.{Delivers, Leads, AllExpired, timer_event, poll-Delivers}
use gaea.Os.Queue.{OsQueue}
use gaea.Sys.{events_cap}
use gaea.Sys.Epoll.Abi.{EpollFlags, EpollKernel, EpEvent}
use gaea.Sys.Epoll.{ep_event_to_event, duration_to_millis}
use gaea.Poll.{poll, fold_timeouts}
use gaea.Sources.Steps.{poll_three, os_step, timers_step, queue_step, vec_platform}
use gaea.Sources.{AnySource, queue, timers, os_queue, any_source}

-- If as many were taken as there were, nothing is left.
nothing_left :
    (out rest all : List Deadline)
    → Perm (out ++ rest) all
    → length out ≡ length all
    → (x : Deadline) → Mem x rest
    → ⊥
nothing_left out [] all kept everything x here = not-mem-nil here
nothing_left out (y ∷ ys) all kept everything x here =
    absurd (omega (arith, length-perm kept, length-append out (y ∷ ys)))

module _ {H W E : Type 0} (heap : MinHeap H) (heap_law : IsMinHeap heap) (clock : W → ℕ × W)
    (panic : E) (flags : EpollFlags) (kernel : EpollKernel W) (from : IoError → E) where
  abbrev pub methods : Source (AnySource H) (List Event) W E
  methods = any_source (vec_platform heap clock panic flags kernel from)

  -- What is left of the timers when everything that has passed was taken.
  pub record Took (now : ℕ) (t : Timers H) (out : List Deadline) (rest : H) : Type 0 where
    pub kept : Perm (out ++ heap.vec rest) (heap.vec t.deadlines)
    pub in_order : Leads out (heap.vec rest)
    pub expired : AllExpired now out
    pub all_taken : (x : Deadline) → Mem x (heap.vec rest) → now < x.deadline

  Delivers-Took :
      (now : ℕ) (t : Timers H) (s s' : List Event) (out : List Deadline) (rest : H)
      → Delivers heap heap_law vec_sink
          (λ s. s)
          vec_sink-IsSink
          now
          (length (heap.vec t.deadlines))
          t.deadlines
          s
          out
          rest
          s'
      → Took now t out rest
  Delivers-Took now t s s' out rest del = record {
    kept = del.kept;
    in_order = del.in_order;
    expired = del.expired;
    all_taken = λ x here. elim del.exhaustive [
      | inl everything ↦ absurd (nothing_left out (heap.vec rest) _ del.kept everything x here)
      | inr later ↦ later x here
    ];
  }

  -- If the heap of the timers behaves as documented and the system answers the wait with a list of
  -- events, then a poll of a queue of the operating system, timers and a queue, in this order and
  -- into a vector, succeeds and adds to the vector, in this order and each once: the events of the
  -- system, those of all deadlines that have passed after the wait, the first one first, and those
  -- of the queue. The deadlines that are still to come stay in the timers, and nothing stays in the
  -- queue.
  pub poll_in_order :
      (o : OsQueue) (t : Timers H) (q : Queue) (s : List Event) (timeout : Option Duration)
      (es : List EpEvent) (w w₂ : W)
      → let sources = os_queue o ∷ timers t ∷ queue q ∷ [] in
        let (wait, w₁) = fold_timeouts methods timeout sources w in
        kernel.epoll_wait o.selector.epfd events_cap (Option.map duration_to_millis wait) w₁
          ≡ (ok es, w₂)
        → (out : List Deadline) × (rest : H) × Took (clock w₂).0 t out rest
          × (poll methods sources s timeout w ≡ record {
            source =
                os_queue o
                ∷ timers (record { deadlines = rest })
                ∷ queue (record { events = [] })
                ∷ [];
            sink = s ++ map (ep_event_to_event flags) es ++ map timer_event out ++ q.events;
            world = (clock w₂).1;
            result = ok tt;
          })
  unfolding capacity_min
  poll_in_order o t q s timeout es w w₂ waited =
      let s₁ = s ++ map (ep_event_to_event flags) es in
      let polled = gaea.Timers.poll heap vec_sink clock panic t s₁ w₂ in
      let (out, del, fine, same) =
        poll-Delivers heap heap_law vec_sink (λ s. s) vec_sink-IsSink clock panic t s₁ w₂ in
      let first : Polled (AnySource H) (List Event) W E = record {
        source = os_queue o;
        sink = s₁;
        world = w₂;
        result = ok tt;
      } in
      let second : Polled (AnySource H) (List Event) W E = record {
        source = timers polled.source;
        sink = polled.sink;
        world = polled.world;
        result = polled.result;
      } in
      let third : Polled (AnySource H) (List Event) W E = record {
        source = queue (record { events = [] });
        sink = polled.sink ++ q.events;
        world = polled.world;
        result = ok tt;
      } in
      (
        out,
        polled.source.deadlines,
        Delivers-Took (clock w₂).0 t s₁ polled.sink out polled.source.deadlines del,
        poll_three methods (os_queue o) (timers t) (queue q) s timeout w first second third
              (os_step heap clock panic flags kernel from o s _ es _ w₂ waited)
              (timers_step heap clock panic flags kernel from t s₁ w₂)
              (queue_step heap clock panic flags kernel from q polled.sink polled.world) refl fine
              refl
            ∙ rw (del.stored, same) refl,
      )
