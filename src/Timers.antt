-- ===== src/Timers.antt =====
-- src/timers.rs: `Timers`, the deadline queue, and its implementation of `event::Source`. An
-- `Instant` and a `Duration` are numbers of nanoseconds. The heap of deadlines is a `MinHeap`, and
-- the clock is a parameter. Tracing is left out; so is the panic of `Instant::now() + timeout` past
-- the last instant that the platform can represent.
pub mod Heap
pub mod Delivery
pub mod Deadlines
pub mod Scan
pub mod Ordered
pub mod Reference
pub mod Expiry
pub mod Equivalence
use gaea.Base.{
  ℕ, zero, suc, ◌+◌, ◌-◌, Bool, true, false, Option, none, some, List, [], ◌∷◌, length, Result, ok,
  err, leb, ◌==◌, ◌!=◌, if◌then◌else◌,
}
use gaea.Event.{EventId, Event, event_new, ready_timer, capacity_min}
use gaea.Event.Sink.{Sink}
use gaea.Event.Source.{Source, Polled, Duration, default_blocking_poll}
use Heap.{Deadline, MinHeap}

pub record Timers (H : Type 0) : Type 0 where
  pub deadlines : H

module _ {A : Type 0} where
  -- The last item of a list that is not empty, put in front of the others.
  last_first : A → List A → List A
  last_first x [] = x ∷ []
  last_first x (y ∷ ys) = elim (last_first y ys) [ [] ↦ x ∷ [] | l ∷ rest ↦ l ∷ x ∷ rest ]

  pub fill_gap : List A → List A
  unfolding last_first
  fill_gap [] = []
  fill_gap (x ∷ xs) = last_first x xs

  -- `Vec::swap_remove`: the item at an index, and the vector with its last item in that place.
  -- `none` is the panic on an index out of bounds.
  pub swap_remove : List A → ℕ → Option (A × List A)
  unfolding fill_gap
  swap_remove [] i = none
  swap_remove (x ∷ xs) zero = some (x, fill_gap xs)
  swap_remove (x ∷ xs) (suc i) = elim (swap_remove xs i) [
    | none ↦ none
    | some (y, rest) ↦ some (y, x ∷ rest)
  ]

  -- `iter().position(p)`.
  pub position : (A → Bool) → List A → Option ℕ
  position p [] = none
  position p (x ∷ xs) =
      if p x then some 0 else elim (position p xs) [ none ↦ none | some i ↦ some (suc i) ]

module _ {H : Type 0} (heap : MinHeap H) where
  unfoldable pub new : Timers H
  new = record { deadlines = heap.new }

  -- `Default`.
  unfoldable pub default : Timers H
  unfolding new
  default = new

  unfoldable pub add_deadline : Timers H → EventId → ℕ → Timers H
  add_deadline self id deadline = record {
    deadlines = heap.push self.deadlines (record { deadline = deadline; id = id });
  }

  -- `none` is a panic: of `swap_remove`, or of the assertion on the deadline that was removed.
  pub remove_deadline : Timers H → EventId → Option (Timers H)
  remove_deadline self id = elim (position (λ d. d.id == id) (heap.vec self.deadlines)) [
    | none ↦ some self
    | some index ↦ elim (swap_remove (heap.vec self.deadlines) index) [
      | none ↦ none
      | some (removed, deadlines_vec) ↦
          if removed.id != id then none else some (record { deadlines = heap.from deadlines_vec })
    ]
  ]

  -- The closure of `max_timeout`, at a time `now`.
  unfoldable pub timeout_at : ℕ → Timers H → Option Duration
  timeout_at now self = elim (heap.peek self.deadlines) [
    | none ↦ none
    | some d ↦ some (if leb d.deadline now then 0 else d.deadline - now)
  ]

  module _ {W : Type 0} (clock : W → ℕ × W) where
    unfoldable pub add_timeout : Timers H → EventId → Duration → W → Timers H × W
    unfolding add_deadline
    add_timeout self id timeout w =
        let (now, w') = clock w in (add_deadline self id (now + timeout), w')

    -- The clock is read only if there is a deadline.
    unfoldable pub max_timeout : Timers H → W → Option Duration × W
    max_timeout self w = elim (heap.peek self.deadlines) [
      | none ↦ (none, w)
      | some d ↦ let (now, w') = clock w in (timeout_at now self, w')
    ]

  module _ {ES : Type 0} (sink : Sink ES) where
    -- The loop of `poll`, with the rounds that are left; `none` is the panic of `unwrap`.
    pub poll_loop : ℕ → ℕ → H → ES → Option (H × ES)
    poll_loop now zero h s = some (h, s)
    poll_loop now (suc n) h s = elim (heap.peek h) [
      | none ↦ some (h, s)
      | some d ↦ elim (leb d.deadline now) [
        | false ↦ some (h, s)
        | true ↦ elim (heap.pop h) [
          | none ↦ none
          | some (popped, h') ↦ poll_loop now n h' (sink.add s (event_new popped.id ready_timer))
        ]
      ]
    ]

    -- `panic` stands for a panic, which ends the call like an error.
    module _ {W E : Type 0} (clock : W → ℕ × W) (panic : E) where
      unfoldable pub poll : Timers H → ES → W → Polled (Timers H) ES W E
      poll self event_sink w =
          let (now, w') = clock w in
          let n = capacity_min (sink.capacity_left event_sink) (length (heap.vec self.deadlines)) in
          elim (poll_loop now n self.deadlines event_sink) [
            | some (h, s) ↦ record {
              source = record { deadlines = h };
              sink = s;
              world = w';
              result = ok tt;
            }
            | none ↦ record { source = self; sink = event_sink; world = w'; result = err panic }
          ]

      -- `impl event::Source for Timers`.
      abbrev pub timers_source : Source (Timers H) ES W E
      timers_source = record {
        max_timeout = max_timeout clock;
        poll = poll;
        blocking_poll = default_blocking_poll poll;
      }
