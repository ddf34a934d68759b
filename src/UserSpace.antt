-- ===== src/UserSpace.antt =====
-- src/user_space.rs: `Queue`, the readiness queue of user space, and its implementation of
-- `event::Source`. Tracing is left out.
pub mod Delivery
use gaea.Base.{
  ℕ, zero, suc, err, Bool, not, Option, none, some, List, [], ◌∷◌, ◌++◌, length, ok, if◌then◌else◌,
  true, false,
}
use gaea.Event.{Event, capacity_min}
use gaea.Event.Sink.{Sink}
use gaea.Event.Source.{Source, Polled, Duration, default_blocking_poll}

pub record Queue : Type 0 where
  pub events : List Event

unfoldable pub new : Queue
new = record { events = [] }

-- `Default`.
unfoldable pub default : Queue
unfolding new
default = new

unfoldable pub add : Queue → Event → Queue
add self event = record { events = self.events ++ event ∷ [] }

abbrev is_empty : List Event → Bool
is_empty [] = true
is_empty (_ ∷ _) = false

unfoldable pub max_timeout : Queue → Option Duration
max_timeout self = if not (is_empty self.events) then some 0 else none

-- `drain(..n)`: the first `n` events, and the vector without them. `none` is the panic on a range
-- that ends behind the vector.
unfoldable pub drain : ℕ → List Event → Option (List Event × List Event)
drain zero events = some ([], events)
drain (suc n) [] = none
drain (suc n) (event ∷ events) = elim (drain n events) [
  | none ↦ none
  | some (drained, rest) ↦ some (event ∷ drained, rest)
]

-- `panic` stands for a panic, which ends the call like an error.
module _ {ES W E : Type 0} (sink : Sink ES) (panic : E) where
  -- What follows the call of `drain`.
  unfoldable pub drained : Queue → ES → W → Option (List Event × List Event) → Polled Queue ES W E
  drained self event_sink w none = record {
    source = self;
    sink = event_sink;
    world = w;
    result = err panic;
  }
  drained self event_sink w (some (events, rest)) = record {
    source = record { events = rest };
    sink = sink.extend event_sink events;
    world = w;
    result = ok tt;
  }

  unfoldable pub poll : Queue → ES → W → Polled Queue ES W E
  unfolding drain drained
  poll self event_sink w =
      let n = capacity_min (sink.capacity_left event_sink) (length self.events) in
      drained self event_sink w (drain n self.events)

  -- `impl event::Source for Queue`.
  abbrev pub queue_source : Source Queue ES W E
  queue_source = record {
    max_timeout = λ self w. (max_timeout self, w);
    poll = poll;
    blocking_poll = default_blocking_poll poll;
  }
