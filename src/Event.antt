-- ===== src/Event.antt =====
-- src/event.rs: readiness sets, events and the capacity of an event sink. A `u8` or `usize` is a
-- number; the flags of `Ready` are those that the crate declares, so its values stay below 32.
pub mod Readiness
pub mod Debug
pub mod Sink
pub mod Source
use gaea.Base.{ℕ, ◌*◌, ◌^◌, min, bit_and, bit_or, Bool, ◌==◌}

-- `1 << k`, for a `u8`.
abbrev shl : ℕ → ℕ → ℕ
shl x k = x * 2 ^ k

pub record Ready : Type 0 where
  pub bits : ℕ

abbrev pub readable : ℕ
readable = 1

abbrev pub writable : ℕ
writable = shl 1 1

abbrev pub error : ℕ
error = shl 1 2

abbrev pub timer : ℕ
timer = shl 1 3

abbrev pub hup : ℕ
hup = shl 1 4

abbrev pub ready_empty : Ready
ready_empty = record { bits = 0 }

abbrev pub ready_readable : Ready
ready_readable = record { bits = readable }

abbrev pub ready_writable : Ready
ready_writable = record { bits = writable }

abbrev pub ready_error : Ready
ready_error = record { bits = error }

abbrev pub ready_timer : Ready
ready_timer = record { bits = timer }

abbrev pub ready_hup : Ready
ready_hup = record { bits = hup }

unfoldable pub contains : Ready → Ready → Bool
contains self other = bit_and self.bits other.bits == other.bits

unfoldable pub is_readable : Ready → Bool
unfolding contains
is_readable self = contains self ready_readable

unfoldable pub is_writable : Ready → Bool
unfolding contains
is_writable self = contains self ready_writable

unfoldable pub is_error : Ready → Bool
unfolding contains
is_error self = contains self ready_error

unfoldable pub is_timer : Ready → Bool
unfolding contains
is_timer self = contains self ready_timer

unfoldable pub is_hup : Ready → Bool
unfolding contains
is_hup self = contains self ready_hup

unfoldable pub bitor : Ready → Ready → Ready
bitor self rhs = record { bits = bit_or self.bits rhs.bits }

unfoldable pub bitor_assign : Ready → Ready → Ready
bitor_assign self rhs = record self { bits = bit_or self.bits rhs.bits }

-- `Id(usize)`.
abbrev pub EventId : Type 0
EventId = ℕ

pub record Event : Type 0 where
  pub id : EventId
  pub readiness : Ready

abbrev pub event_new : EventId → Ready → Event
event_new i r = record { id = i; readiness = r }

pub data Capacity : Type 0 where
  limited : ℕ → Capacity
  growable : Capacity

-- `Capacity::min`.
unfoldable pub capacity_min : Capacity → ℕ → ℕ
capacity_min (limited left) right = min left right
capacity_min growable right = right
