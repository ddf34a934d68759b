-- ===== src/UserSpace/Delivery.antt =====
-- src/user_space.rs: the delivery of the events of the queue.
use gaea.Base.{
  ℕ, zero, suc, ◌+◌, ◌≤◌, ◌≡◌, refl, ap, ◌∙◌, ◌⊎◌, inl, inr, ◌<◌, none, some, List, [], ◌∷◌, ◌++◌,
  append_assoc, length, take, drop, length-take, length-drop, take-append-drop, ok, arith,
}
use gaea.Event.{Event, capacity_min, limited, growable}
use gaea.Event.Sink.{Sink, IsSink, HasRoom, room_min}
use gaea.Event.Source.{Adds}
use gaea.UserSpace.{Queue, add, max_timeout, poll, drain, drained}

capacity_min-le : (c : gaea.Event.Capacity) (n : ℕ) → capacity_min c n ≤ n
unfolding capacity_min
capacity_min-le c n = ground arith

drain-take :
    (n : ℕ) (events : List Event)
    → n ≤ length events
    → drain n events ≡ some (take n events, drop n events)
unfolding drain
drain-take zero events h = refl
drain-take (suc n) [] h = absurd (omega arith)
drain-take (suc n) (event ∷ events) h = rw (drain-take n events (omega arith), drain) refl

-- A poll never drains more events than the queue holds.
pub poll-drains :
    {ES W E : Type 0} (sink : Sink ES) (panic : E) (q : Queue) (s : ES) (w : W)
    → let n = capacity_min (sink.capacity_left s) (length q.events) in
      poll sink panic q s w ≡ record {
        source = record { events = drop n q.events };
        sink = sink.extend s (take n q.events);
        world = w;
        result = ok tt;
      }
unfolding poll drained
poll-drains sink panic q s w = ap (drained sink panic q s w) (
    drain-take (capacity_min (sink.capacity_left s) (length q.events)) q.events
      (capacity_min-le (sink.capacity_left s) (length q.events)))

module _ {ES : Type 0} (sink : Sink ES) (contents : ES → List Event)
    (law : IsSink sink contents) where
  taken_fits :
      (q : Queue) (s : ES)
      → let n = capacity_min (sink.capacity_left s) (length q.events) in
        length (take n q.events) ≡ n
  taken_fits q s = omega (
    arith,
    length-take (capacity_min (sink.capacity_left s) (length q.events)) q.events,
    capacity_min-le (sink.capacity_left s) (length q.events),
  )

  poll_room :
      (q : Queue) (s : ES)
      → let n = capacity_min (sink.capacity_left s) (length q.events) in
        HasRoom (sink.capacity_left s) (length (take n q.events))
  poll_room q s = rw (taken_fits q s) (room_min _ _)

  -- If the sink behaves as documented, polling a queue loses, repeats and reorders nothing: what
  -- the sink holds afterwards, followed by what the queue still holds, is what the sink held,
  -- followed by what the queue held. The queue hands over as many events as the sink has capacity
  -- for, and never fails or panics.
  pub poll_fifo :
      {W E : Type 0} (panic : E) (q : Queue) (s : ES) (w : W)
      → let r = poll sink panic q s w in
        (contents r.sink ++ r.source.events ≡ contents s ++ q.events)
        × (length r.source.events + capacity_min (sink.capacity_left s) (length q.events)
            ≡ length q.events)
        × (r.result ≡ ok tt)
  poll_fifo panic q s w =
      let n = capacity_min (sink.capacity_left s) (length q.events) in
      rw (poll-drains sink panic q s w) (
        ap (λ l. l ++ drop n q.events) (law.extended s (take n q.events) (poll_room q s))
            ∙ append_assoc (contents s) (take n q.events) (drop n q.events)
            ∙ ap (λ l. contents s ++ l) (take-append-drop n q.events),
        omega (
          arith,
          length-drop n q.events,
          capacity_min-le (sink.capacity_left s) (length q.events),
        ),
        refl,
      )

  -- Polling a queue only adds events to the sink, and no more than it has capacity for.
  pub poll-Adds :
      {W E : Type 0} (panic : E) (q : Queue) (s : ES) (w : W)
      → Adds sink contents s (poll sink panic q s w).sink
  poll-Adds panic q s w =
      let n = capacity_min (sink.capacity_left s) (length q.events) in
      rw (poll-drains sink panic q s w) (
        take n q.events,
        law.extended s _ (poll_room q s),
        poll_room q s,
        law.extended_left s _ (poll_room q s),
      )

-- The timeout of a queue is none while it is empty, and zero while it holds an event.
pub max_timeout_cases :
    (q : Queue)
    → ((max_timeout q ≡ none) × (length q.events ≡ 0))
      ⊎ ((max_timeout q ≡ some 0) × (0 < length q.events))
unfolding max_timeout
max_timeout_cases q = cases q.events
  where
    cases :
        (es : List Event)
        → ((max_timeout (record { events = es }) ≡ none) × (length es ≡ 0))
          ⊎ ((max_timeout (record { events = es }) ≡ some 0) × (0 < length es))
    cases [] = inl (refl, refl)
    cases (e ∷ es) = inr (refl, omega arith)

-- An event that is added keeps a caller from blocking.
pub max_timeout-add : (q : Queue) (e : Event) → max_timeout (add q e) ≡ some 0
unfolding max_timeout add
max_timeout-add q e = go q.events
  where
    go : (es : List Event) → max_timeout (record { events = es ++ e ∷ [] }) ≡ some 0
    go [] = refl
    go (_ ∷ _) = refl
