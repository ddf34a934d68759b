-- ===== src/Timers/Reference.antt =====
-- src/timers.rs: the timers as a list of deadlines in order, and as they run on a heap.
use gaea.Base.{
  ℕ, ◌+◌, ◌-◌, Option, none, some, List, [], ◌∷◌, ◌++◌, map, length, take, drop, Result, ok,
}
use gaea.Event.{capacity_min, Capacity, Event}
use gaea.Event.Sink.{less, Sink}
use gaea.Event.Source.{Duration}
use gaea.Timers.{Timers, poll, max_timeout, add_deadline, add_timeout}
use gaea.Timers.Heap.{Deadline, MinHeap}
use gaea.Timers.Delivery.{timer_event}
use gaea.Timers.Ordered.{insert, expired}

-- The timers as a list of deadlines in order, with what is in the event sink and what is left of
-- its capacity.
pub record Reference (W : Type 0) : Type 0 where
  pub queue : List Deadline
  pub events : List Event
  pub left : Capacity
  pub world : W

pub data Call : Type 0 where
  adding_deadline adding_timeout : ℕ → ℕ → Call
  asking polling : Call

pub data Answer (E : Type 0) : Type 0 where
  added : Answer E
  timeout : Option Duration → Answer E
  polled : Result (Unit {0}) E → Answer E

module _ {W : Type 0} (clock : W → ℕ × W) (E : Type 0) where
  -- What the reference does at a call, and what it answers.
  unfoldable pub reference_call : Call → Reference W → Answer E × Reference W
  unfolding insert expired
  reference_call (adding_deadline id deadline) r =
      (added, record r { queue = insert (record { deadline = deadline; id = id }) r.queue })
  reference_call (adding_timeout id after) r =
      let (now, w) = clock r.world in
      let d : Deadline = record { deadline = now + after; id = id } in
      (added, record r { queue = insert d r.queue; world = w })
  reference_call asking r = elim r.queue [
    | [] ↦ (timeout none, r)
    | d ∷ _ ↦
        let (now, w) = clock r.world in (timeout (some (d.deadline - now)), record r { world = w })
  ]
  reference_call polling r =
      let (now, w) = clock r.world in
      let out = take (capacity_min r.left (length r.queue)) (expired now r.queue) in
      (
        polled (ok tt),
        record {
          queue = drop (length out) r.queue;
          events = r.events ++ map timer_event out;
          left = less r.left (length out);
          world = w;
        },
      )

  unfoldable pub reference_run : List Call → Reference W → List (Answer E) × Reference W
  unfolding reference_call
  reference_run [] r = ([], r)
  reference_run (c ∷ cs) r =
      let (a, r') = reference_call c r in let (rest, r'') = reference_run cs r' in (a ∷ rest, r'')

-- The timers, the event sink and the world.
pub record Running (H ES W : Type 0) : Type 0 where
  pub source : Timers H
  pub sink : ES
  pub world : W

module _ {H ES W E : Type 0} (heap : MinHeap H) (sink : Sink ES) (clock : W → ℕ × W)
    (panic : E) where
  -- The same calls of the timers themselves.
  unfoldable pub timers_call : Call → Running H ES W → Answer E × Running H ES W
  timers_call (adding_deadline id deadline) r =
      (added, record r { source = add_deadline heap r.source id deadline })
  timers_call (adding_timeout id after) r =
      let (t, w) = add_timeout heap clock r.source id after r.world in
      (added, record r { source = t; world = w })
  timers_call asking r =
      let (answer, w) = max_timeout heap clock r.source r.world in
      (timeout answer, record r { world = w })
  timers_call polling r =
      let p = poll heap sink clock panic r.source r.sink r.world in
      (polled p.result, record { source = p.source; sink = p.sink; world = p.world })

  unfoldable pub timers_run : List Call → Running H ES W → List (Answer E) × Running H ES W
  unfolding timers_call
  timers_run [] r = ([], r)
  timers_run (c ∷ cs) r =
      let (a, r') = timers_call c r in let (rest, r'') = timers_run cs r' in (a ∷ rest, r'')
