-- ===== src/Event/Sink.antt =====
-- src/event.rs: the trait `Sink` as a record of its methods, its default `extend`, and the
-- implementation of it for `Vec<Event>`.
use gaea.Base.{
  ◌≤◌, ℕ, suc, ◌+◌, ◌-◌, ◌≡◌, refl, sym, ap, ◌∙◌, List, [], ◌∷◌, ◌++◌, append-nil, append_assoc,
  length, arith,
}
use gaea.Event.{Event, Capacity, limited, growable, capacity_min}

-- `&mut self` is the sink before a call and its return value.
pub record Sink (ES : Type 0) : Type 0 where
  pub capacity_left : ES → Capacity
  pub add : ES → Event → ES
  pub extend : ES → List Event → ES

-- The loop of the trait's own `extend`.
unfoldable pub default_extend {ℓ} : {ES : Type ℓ} → (ES → Event → ES) → ES → List Event → ES
default_extend add self [] = self
default_extend add self (event ∷ events) = default_extend add (add self event) events

-- `impl Sink for &mut ES`: what is called through the reference is called on the sink.
abbrev pub sink_by_mut : {ES : Type 0} → Sink ES → Sink ES
sink_by_mut sink = record {
  capacity_left = λ self. sink.capacity_left self;
  add = λ self event. sink.add self event;
  extend = λ self events. sink.extend self events;
}

-- What a capacity becomes when `n` events are added.
abbrev pub less : Capacity → ℕ → Capacity
less (limited left) n = limited (left - n)
less growable n = growable

-- There is room for `n` events: the minimum of the capacity and `n` is `n`.
abbrev pub HasRoom : Capacity → ℕ → Type 0
HasRoom c n = capacity_min c n ≡ n

-- What the documentation asks of a sink, for the events that it `contents`: within its capacity
-- it stores what it is given, at the end, and reports the capacity that is then left.
pub record IsSink {ES : Type 0} (sink : Sink ES) (contents : ES → List Event) : Type 0 where
  pub added :
      (s : ES) (e : Event)
      → HasRoom (sink.capacity_left s) 1
      → contents (sink.add s e) ≡ contents s ++ e ∷ []
  pub added_left :
      (s : ES) (e : Event)
      → HasRoom (sink.capacity_left s) 1
      → sink.capacity_left (sink.add s e) ≡ less (sink.capacity_left s) 1
  pub extended :
      (s : ES) (es : List Event)
      → HasRoom (sink.capacity_left s) (length es)
      → contents (sink.extend s es) ≡ contents s ++ es
  pub extended_left :
      (s : ES) (es : List Event)
      → HasRoom (sink.capacity_left s) (length es)
      → sink.capacity_left (sink.extend s es) ≡ less (sink.capacity_left s) (length es)

pub room_first : (c : Capacity) (n : ℕ) → HasRoom c (suc n) → HasRoom c 1
unfolding capacity_min
room_first c n h = ground arith

pub room_rest : (c : Capacity) (n : ℕ) → HasRoom c (suc n) → HasRoom (less c 1) n
unfolding capacity_min
room_rest c n h = ground arith

pub less-less : (c : Capacity) (m n : ℕ) → less (less c m) n ≡ less c (m + n)
less-less c m n = ground arith

pub less_zero : (c : Capacity) → less c 0 ≡ c
less_zero c = ground arith

pub room_zero : (c : Capacity) → HasRoom c 0
unfolding capacity_min
room_zero c = ground arith

pub room_min : (c : Capacity) (n : ℕ) → HasRoom c (capacity_min c n)
unfolding capacity_min
room_min c n = ground arith

pub room_le : (c : Capacity) (m n : ℕ) → m ≤ n → HasRoom c n → HasRoom c m
unfolding capacity_min
room_le c m n h k = ground arith

-- What fits into the lesser of the capacity and a bound fits into the capacity.
pub room_within : (c : Capacity) (bound n : ℕ) → n ≤ capacity_min c bound → HasRoom c n
unfolding capacity_min
room_within c bound n h = ground arith

pub room_add : (c : Capacity) (m n : ℕ) → HasRoom c m → HasRoom (less c m) n → HasRoom c (m + n)
unfolding capacity_min
room_add c m n h k = ground arith

-- A sink that only has `capacity_left` and `add`.
module _ {ES : Type 0} (capacity_left : ES → Capacity) (add : ES → Event → ES)
    (contents : ES → List Event)
    (added : (s : ES) (e : Event)
      → HasRoom (capacity_left s) 1
      → contents (add s e) ≡ contents s ++ e ∷ [])
    (added_left : (s : ES) (e : Event)
      → HasRoom (capacity_left s) 1
      → capacity_left (add s e) ≡ less (capacity_left s) 1) where
  -- If `add` stores an event within the capacity and reports the capacity that is then left, the
  -- trait's own `extend` stores any number of events within the capacity, in their order.
  pub default_extend_stores :
      (s : ES) (es : List Event)
      → HasRoom (capacity_left s) (length es)
      → contents (default_extend add s es) ≡ contents s ++ es
  unfolding default_extend
  default_extend_stores s [] h = sym (append-nil (contents s))
  default_extend_stores s (e ∷ es) h =
      let first = room_first _ (length es) h in
      let rest = rw (← added_left s e first) at (room_rest _ (length es) h) in
      default_extend_stores (add s e) es rest
      ∙ ap (λ l. l ++ es) (added s e first)
      ∙ append_assoc (contents s) (e ∷ []) es

  extend_left :
      (s : ES) (es : List Event)
      → HasRoom (capacity_left s) (length es)
      → capacity_left (default_extend add s es) ≡ less (capacity_left s) (length es)
  unfolding default_extend
  extend_left s [] h = sym (less_zero (capacity_left s))
  extend_left s (e ∷ es) h =
      let first = room_first _ (length es) h in
      let rest = rw (← added_left s e first) at (room_rest _ (length es) h) in
      extend_left (add s e) es rest
      ∙ ap (λ c. less c (length es)) (added_left s e first)
      ∙ less-less (capacity_left s) 1 (length es)
      ∙ ap (less (capacity_left s)) (omega arith)

  pub default_extend-IsSink :
      IsSink
        (record { capacity_left = capacity_left; add = add; extend = default_extend add })
        contents
  default_extend-IsSink = record {
    added = added;
    added_left = added_left;
    extended = default_extend_stores;
    extended_left = extend_left;
  }

-- `impl Sink for Vec<Event>`.
abbrev pub vec_sink : Sink (List Event)
vec_sink = record {
  capacity_left = λ _. growable;
  add = λ self event. self ++ event ∷ [];
  extend = λ self events. self ++ events;
}

-- A vector is a sink.
pub vec_sink-IsSink : IsSink vec_sink (λ s. s)
vec_sink-IsSink = record {
  added = λ s e h. refl;
  added_left = λ s e h. refl;
  extended = λ s es h. refl;
  extended_left = λ s es h. refl;
}
