-- ===== src/Sys/Epoll/Selection.antt =====
-- src/sys/unix/epoll.rs: what `Selector::select` does on each of its branches.
use gaea.Base.Io.{Io}
use gaea.Base.{
  inr, inl, ℕ, ◌⊎◌, ◌≡◌, refl, sym, ap, ◌∙◌, ◌≢◌, false, Option, List, [], ◌∷◌, ◌++◌, map,
  append-nil, arith, ◌==◌, length, length-map, ok, err, IoError, IoResult,
}
use gaea.Event.{Event, capacity_min}
use gaea.Event.Sink.{Sink, IsSink, HasRoom, room_within, less, less_zero}
use gaea.Event.Source.{Duration, Adds, Adds-refl}
use gaea.Sys.{events_cap}
use gaea.Sys.Epoll.Abi.{EpollFlags, EpEvent, EpollKernel, WaitsWithin}
use gaea.Sys.Epoll.{Selector, duration_to_millis, ep_event_to_event, deliver, select}
use mathlib.Core.Option
use native.Mathlib.Decide.{ℕ_discrete}

module _ (flags : EpollFlags) {W ES : Type 0} (kernel : EpollKernel W) (sink : Sink ES) where
  pub select_full :
      (p : Selector) (s : ES) (t : Option Duration) (w : W)
      → capacity_min (sink.capacity_left s) events_cap ≡ 0
      → select flags kernel sink p s t w ≡ (ok tt, s, w)
  unfolding select
  select_full p s t w full = ground arith

  pub select_failed :
      (p : Selector) (s : ES) (t : Option Duration) (w w' : W) (e : IoError)
      → capacity_min (sink.capacity_left s) events_cap ≢ 0
      → kernel.epoll_wait p.epfd
          (capacity_min (sink.capacity_left s) events_cap)
          (Option.map duration_to_millis t)
          w
        ≡ (err e, w')
      → select flags kernel sink p s t w ≡ (err e, s, w')
  unfolding select
  select_failed p s t w w' e open_ failed = ground arith

module _ (flags : EpollFlags) {ES : Type 0} (sink : Sink ES) (contents : ES → List Event)
    (sink_law : IsSink sink contents) where
  deliver_stores :
      (es : List EpEvent) (s : ES)
      → HasRoom (sink.capacity_left s) (length es)
      → let (r, s') = deliver flags sink (ok es) s in
        (r ≡ ok tt)
        × (contents s' ≡ contents s ++ map (ep_event_to_event flags) es)
        × (sink.capacity_left s' ≡ less (sink.capacity_left s) (length es))
  unfolding deliver
  deliver_stores [] s room = (refl, sym (append-nil (contents s)), sym (less_zero _))
  deliver_stores (e ∷ es) s room =
      let size = length-map (ep_event_to_event flags) (e ∷ es) in
      let room' = rw (← size) at room in
      (
        refl,
        sink_law.extended s (map (ep_event_to_event flags) (e ∷ es)) room',
        sink_law.extended_left s (map (ep_event_to_event flags) (e ∷ es)) room' ∙ ap (less _) size,
      )

  module _ {W : Type 0} (kernel : EpollKernel W) (within : WaitsWithin kernel) where
    pub select_received :
        (p : Selector) (s : ES) (t : Option Duration) (w w' : W) (es : List EpEvent)
        → capacity_min (sink.capacity_left s) events_cap ≢ 0
        → kernel.epoll_wait p.epfd
            (capacity_min (sink.capacity_left s) events_cap)
            (Option.map duration_to_millis t)
            w
          ≡ (ok es, w')
        → let (r, s', w'') = select flags kernel sink p s t w in
          (r ≡ ok tt)
          × (contents s' ≡ contents s ++ map (ep_event_to_event flags) es)
          × (sink.capacity_left s' ≡ less (sink.capacity_left s) (length es))
          × HasRoom (sink.capacity_left s) (length es)
          × (w'' ≡ w')
    unfolding select
    select_received p s t w w' es open_ received =
        let cap = capacity_min (sink.capacity_left s) events_cap in
        let few =
          within p.epfd cap (Option.map duration_to_millis t) w es (ap (λ x. x.0) received) in
        let room = room_within (sink.capacity_left s) events_cap (length es) few in
        let (a, b, c) = deliver_stores es s room in
        let closed : (cap == 0) ≡ false = ground arith in
        rw (closed, received) (a, b, c, room, refl)

    -- The one system call that `select` makes, and what `select` does, for its failure and for its
    -- success.
    abbrev pub cap : ES → ℕ
    cap s = capacity_min (sink.capacity_left s) events_cap

    abbrev pub received : Selector → ES → Option Duration → Io W (List EpEvent)
    received p s t = kernel.epoll_wait p.epfd (cap s) (Option.map duration_to_millis t)

    abbrev pub Fails : Selector → ES → Option Duration → W → Type 0
    Fails p s t w =
        (cap s ≢ 0)
        × (e : IoError) × (w' : W) × (received p s t w ≡ (err e, w'))
        × (select flags kernel sink p s t w ≡ (err e, s, w'))

    abbrev pub Receives : Selector → ES → Option Duration → W → Type 0
    Receives p s t w =
        let out = select flags kernel sink p s t w in
        (cap s ≢ 0)
        × (es : List EpEvent) × (w' : W) × (received p s t w ≡ (ok es, w'))
        × (out.0 ≡ ok tt)
        × (contents out.1 ≡ contents s ++ map (ep_event_to_event flags) es)
        × (sink.capacity_left out.1 ≡ less (sink.capacity_left s) (length es))
        × (out.2 ≡ w')

    -- If the sink and `epoll_wait` behave as documented, `select` has three outcomes. Into a sink
    -- with no capacity left it makes no system call: it succeeds at once, and neither the sink nor
    -- the world has changed. Otherwise it makes one call, for at most as many events as the sink
    -- has capacity for, with the timeout in milliseconds. If that fails, so does `select`, and the
    -- sink is as it was. If it succeeds, so does `select`, and the sink holds the events that the
    -- system gave, converted, in the order in which it gave them.
    pub select_cases :
        (p : Selector) (s : ES) (t : Option Duration) (w : W)
        → ((cap s ≡ 0) × (select flags kernel sink p s t w ≡ (ok tt, s, w)))
          ⊎ (Fails p s t w ⊎ Receives p s t w)
    select_cases p s t w = elim (ℕ_discrete (cap s) 0) [
      | yes full ↦ inl (full, select_full flags kernel sink p s t w full)
      | no open_ ↦ inr (go open_ (received p s t w) refl)
    ]
      where
        go :
            cap s ≢ 0
            → (x : IoResult (List EpEvent) × W) → received p s t w ≡ x
            → Fails p s t w ⊎ Receives p s t w
        go open_ (err e, w') r =
            inl (open_, e, w', r, select_failed flags kernel sink p s t w w' e open_ r)
        go open_ (ok es, w') r =
            let (a, b, c, room, d) = select_received p s t w w' es open_ r in
            inr (open_, es, w', r, a, b, c, d)

    -- If the sink and `epoll_wait` behave as documented, `select` only adds events to the sink, and
    -- no more than it has capacity for, also when it fails.
    pub select-Adds :
        (p : Selector) (s : ES) (t : Option Duration) (w : W)
        → Adds sink contents s (select flags kernel sink p s t w).1
    select-Adds p s t w = elim (ℕ_discrete (capacity_min (sink.capacity_left s) events_cap) 0) [
      | yes full ↦ rw (select_full flags kernel sink p s t w full) (Adds-refl sink contents s)
      | no open_ ↦ go open_ (kernel.epoll_wait p.epfd _ (Option.map duration_to_millis t) w) refl
    ]
      where
        go :
            capacity_min (sink.capacity_left s) events_cap ≢ 0
            → (x : IoResult (List EpEvent) × W)
            → kernel.epoll_wait p.epfd
                (capacity_min (sink.capacity_left s) events_cap)
                (Option.map duration_to_millis t)
                w
              ≡ x
            → Adds sink contents s (select flags kernel sink p s t w).1
        go open_ (err e, w') r =
            rw (select_failed flags kernel sink p s t w w' e open_ r) (Adds-refl sink contents s)
        go open_ (ok es, w') r =
            let (a, b, c, room, d) = select_received p s t w w' es open_ r in
            let size = length-map (ep_event_to_event flags) es in
            (map (ep_event_to_event flags) es, b, rw size room, rw size c)
