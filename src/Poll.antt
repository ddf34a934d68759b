-- ===== src/Poll.antt =====
-- src/lib.rs: `poll` and `min_timeout`. The sources are trait objects: values of one type `S`,
-- called through the record of the methods of `event::Source`.
pub mod Timeout
pub mod Invariants
pub mod Order
use gaea.Base.{ℕ, min, Option, none, some, List, [], ◌∷◌, Result, ok, err}
use gaea.Event.Source.{Source, Polled, Duration}

unfoldable pub min_timeout : Option Duration → Option Duration → Option Duration
min_timeout (some left) (some right) = some (min left right)
min_timeout (some left) none = some left
min_timeout none (some right) = some right
min_timeout none none = none

-- What is left after a call on a slice of sources.
abbrev pub PolledAll : Type 0 → Type 0 → Type 0 → Type 0 → Type 0
PolledAll S ES W E = Polled (List S) ES W E

module _ {S ES W E : Type 0} (methods : Source S ES W E) where
  -- `event_sources.iter().fold(timeout, ..)`.
  unfoldable pub fold_timeouts : Option Duration → List S → W → Option Duration × W
  fold_timeouts timeout [] w = (timeout, w)
  fold_timeouts timeout (event_source ∷ rest) w =
      let (limit, w') = methods.max_timeout event_source w in
      fold_timeouts (min_timeout timeout limit) rest w'

  -- The source that was polled, and what became of those behind it.
  abbrev pub with_source : S → PolledAll S ES W E → PolledAll S ES W E
  with_source x r = record r { source = x ∷ r.source }

  -- `?` behind the call on the source before `rest`: on an error the others are not polled.
  abbrev pub and_then : Polled S ES W E → List S → PolledAll S ES W E → PolledAll S ES W E
  and_then first rest others = elim first.result [
    | ok _ ↦ with_source first.source others
    | err e ↦ record {
      source = first.source ∷ rest;
      sink = first.sink;
      world = first.world;
      result = err e;
    }
  ]

  -- `for event_source in iter { event_source.poll(event_sink)?; }`.
  unfoldable pub poll_rest : List S → ES → W → PolledAll S ES W E
  poll_rest [] event_sink w = record { source = []; sink = event_sink; world = w; result = ok tt }
  poll_rest (event_source ∷ rest) event_sink w =
      let first = methods.poll event_source event_sink w in
      and_then first rest (poll_rest rest first.sink first.world)

  poll_all : List S → ES → Option Duration → W → PolledAll S ES W E
  poll_all [] event_sink timeout w = record {
    source = [];
    sink = event_sink;
    world = w;
    result = ok tt;
  }
  poll_all (event_source ∷ rest) event_sink timeout w =
      let first = methods.blocking_poll event_source event_sink timeout w in
      and_then first rest (poll_rest rest first.sink first.world)

  unfoldable pub poll : List S → ES → Option Duration → W → PolledAll S ES W E
  unfolding poll_all
  poll event_sources event_sink timeout w =
      let (timeout', w') = fold_timeouts timeout event_sources w in
      poll_all event_sources event_sink timeout' w'
