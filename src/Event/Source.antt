-- ===== src/Event/Source.antt =====
-- src/event.rs: the trait `Source` as a record of its methods, for sources of a type `S`, sinks of
-- a type `ES` and errors of a type `E`. `W` is the rest of the world: what the methods read and
-- change outside the source, the clock and the kernel.
use gaea.Base.{
  ℕ, ◌≡◌, sym, ap, ◌∙◌, Option, List, [], ◌++◌, append-nil, append_assoc, length, length-append,
  Result,
}
use gaea.Event.{Event}
use gaea.Event.Sink.{Sink, HasRoom, less, less-less, less_zero, room_zero, room_add}

-- A duration, in nanoseconds.
abbrev pub Duration : Type 0
Duration = ℕ

-- What a call of `poll` leaves behind: the source, the sink and the world, also on an error.
pub record Polled (S ES W E : Type 0) : Type 0 where
  pub source : S
  pub sink : ES
  pub world : W
  pub result : Result (Unit {0}) E

pub record Source (S ES W E : Type 0) : Type 0 where
  pub max_timeout : S → W → Option Duration × W
  pub poll : S → ES → W → Polled S ES W E
  pub blocking_poll : S → ES → Option Duration → W → Polled S ES W E

-- The trait's own `blocking_poll`.
unfoldable pub default_blocking_poll {ℓ} :
    {S ES W R : Type ℓ} → (S → ES → W → R) → S → ES → Option Duration → W → R
default_blocking_poll poll self event_sink timeout w = poll self event_sink w

-- `impl Source for &mut S`: what is called through the reference is called on the source.
abbrev pub source_by_mut : {S ES W E : Type 0} → Source S ES W E → Source S ES W E
source_by_mut source = record {
  max_timeout = λ self w. source.max_timeout self w;
  poll = λ self event_sink w. source.poll self event_sink w;
  blocking_poll = λ self event_sink timeout w. source.blocking_poll self event_sink timeout w;
}

-- `after` is `before` with events added at the end, no more than it had room for.
abbrev pub Adds : {ES : Type 0} → Sink ES → (ES → List Event) → ES → ES → Type 0
Adds sink contents before after =
    (new : List Event) × (contents after ≡ contents before ++ new)
    × HasRoom (sink.capacity_left before) (length new)
    × (sink.capacity_left after ≡ less (sink.capacity_left before) (length new))

module _ {ES : Type 0} (sink : Sink ES) (contents : ES → List Event) where
  pub Adds-refl : (s : ES) → Adds sink contents s s
  Adds-refl s = ([], sym (append-nil (contents s)), room_zero _, sym (less_zero _))

  pub Adds-trans :
      (s t u : ES) → Adds sink contents s t → Adds sink contents t u → Adds sink contents s u
  Adds-trans s t u (new, c, r, l) (new', c', r', l') =
      let size = length-append new new' in
      (
        new ++ new',
        c' ∙ ap (λ x. x ++ new') c ∙ append_assoc (contents s) new new',
        rw size (room_add _ (length new) (length new') r (rw l at r')),
        l' ∙ ap (λ x. less x (length new')) l ∙ less-less _ _ _ ∙ ap (less _) (sym size),
      )
