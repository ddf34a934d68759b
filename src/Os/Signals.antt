-- ===== src/Os/Signals.antt =====
-- src/os/signals.rs: `Signal`, `SignalSet` and the iterator over a set. A set is a `u8`; those that
-- the crate can build lie below 8. The numbers of the signals in libc are a parameter.
pub mod Sets
pub mod Iteration
use gaea.Base.{
  ℕ, zero, suc, ◌+◌, ◌-◌, ◌/◌, ◌%◌, ◌^◌, bit_and, bit_or, ◌≢◌, Bool, Option, none, some, List, [],
  ◌∷◌, ◌==◌, if◌then◌else◌,
}

pub data Signal : Type 0 where
  interrupt terminate quit : Signal

pub record SignalSet : Type 0 where
  pub bits : ℕ

abbrev pub interrupt_flag : ℕ
interrupt_flag = 1

abbrev pub quit_flag : ℕ
quit_flag = 2

abbrev pub terminate_flag : ℕ
terminate_flag = 4

unfoldable pub set_empty : SignalSet
set_empty = record { bits = 0 }

unfoldable pub set_all : SignalSet
set_all = record { bits = bit_or (bit_or interrupt_flag quit_flag) terminate_flag }

-- `count_ones` of a number with `k` bits.
count_ones : ℕ → ℕ → ℕ
count_ones zero x = 0
count_ones (suc k) x = x % 2 + count_ones k (x / 2)

-- `trailing_zeros` of a number with `k` bits.
trailing_zeros : ℕ → ℕ → ℕ
trailing_zeros zero x = 0
trailing_zeros (suc k) x = let rest = trailing_zeros k (x / 2) in if x % 2 == 1 then 0 else suc rest

unfoldable pub size : SignalSet → ℕ
unfolding count_ones
size self = count_ones 8 self.bits

-- `size_hint`, `count` and `len` of the iterator.
unfoldable pub size_hint : SignalSet → ℕ × Option ℕ
unfolding size
size_hint self = (size self, some (size self))

unfoldable pub count : SignalSet → ℕ
unfolding size
count self = size self

unfoldable pub len : SignalSet → ℕ
unfolding size
len self = size self

unfoldable pub from : Signal → SignalSet
from interrupt = record { bits = interrupt_flag }
from quit = record { bits = quit_flag }
from terminate = record { bits = terminate_flag }

unfoldable pub contains : SignalSet → SignalSet → Bool
contains self other = bit_and self.bits other.bits == other.bits

unfoldable pub bitor : SignalSet → SignalSet → SignalSet
bitor self rhs = record { bits = bit_or self.bits rhs.bits }

unfoldable pub bitor_signal : SignalSet → Signal → SignalSet
unfolding bitor from
bitor_signal self rhs = bitor self (from rhs)

unfoldable pub signal_bitor : Signal → Signal → SignalSet
unfolding bitor_signal from
signal_bitor self rhs = bitor_signal (from self) rhs

unfoldable pub signal_bitor_set : Signal → SignalSet → SignalSet
unfolding bitor_signal
signal_bitor_set self rhs = bitor_signal rhs self

-- The signal of a bit.
signal_at : ℕ → Option Signal
signal_at zero = some interrupt
signal_at (suc zero) = some quit
signal_at (suc (suc zero)) = some terminate
signal_at (suc (suc (suc n))) = none

-- The iterator is the set that is left; `!(1 << n)` on a `u8` is `255 - 2 ^ n`.
unfoldable pub next : SignalSet → Option Signal × SignalSet
unfolding trailing_zeros signal_at
next self =
    let n = trailing_zeros 8 self.bits in
    elim (signal_at n) [
      | none ↦ (none, self)
      | some signal ↦ (some signal, record { bits = bit_and self.bits (255 - 2 ^ n) })
    ]

-- What a call of `next` yields, in front of what comes behind it.
abbrev pub then_collect : Option Signal → Option (List Signal) → Option (List Signal)
then_collect none rest = some []
then_collect (some signal) rest = elim rest [ none ↦ none | some signals ↦ some (signal ∷ signals) ]

-- `for signal in signals`, as the list of the signals; `none` if the fuel runs out.
unfoldable pub collect : ℕ → SignalSet → Option (List Signal)
unfolding next
collect zero self = none
collect (suc fuel) self =
    let (signal, left) = next self in let rest = collect fuel left in then_collect signal rest

-- The signals that a loop over a set visits: nine rounds are enough for eight bits.
unfoldable pub each : SignalSet → List Signal
unfolding collect
each self = elim (collect 9 self) [ none ↦ [] | some signals ↦ signals ]

-- The numbers of the signals.
pub record SignalNumbers : Type 0 where
  pub sigint : ℕ
  pub sigquit : ℕ
  pub sigterm : ℕ

-- Different signals have different numbers.
pub record AreDistinct (c : SignalNumbers) : Type 0 where
  pub int_quit : c.sigint ≢ c.sigquit
  pub int_term : c.sigint ≢ c.sigterm
  pub quit_term : c.sigquit ≢ c.sigterm

module _ (c : SignalNumbers) where
  unfoldable pub into_raw : Signal → ℕ
  into_raw interrupt = c.sigint
  into_raw quit = c.sigquit
  into_raw terminate = c.sigterm

  unfoldable pub from_raw : ℕ → Option Signal
  from_raw raw_signal =
      if raw_signal == c.sigint
      then some interrupt
      else if raw_signal == c.sigquit
      then some quit
      else if raw_signal == c.sigterm
      then some terminate
      else none
