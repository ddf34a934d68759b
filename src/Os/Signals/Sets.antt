-- ===== src/Os/Signals/Sets.antt =====
-- src/os/signals.rs: the laws of the signal sets, and of the numbers of the signals.
use gaea.Base.{ℕ, ◌<◌, ◌≡◌, refl, ap₂, ◌∙◌, ◌↔◌, Bool, true, false, ◌&&◌, ◌||◌, some, arith}
use gaea.Bits.{bit_or-lt}
use gaea.Bits.Flags.{has_all-bit_or, bit_or-has_flag}
use gaea.Os.Signals.{
  Signal, interrupt, terminate, quit, SignalSet, from, contains, bitor, bitor_signal, signal_bitor,
  signal_bitor_set, SignalNumbers, AreDistinct, into_raw, from_raw,
}

-- Of the eight bits of a set only three are in use.
abbrev pub IsValid : SignalSet → Type 0
IsValid s = s.bits < 8

pub from-IsValid : (x : Signal) → IsValid (from x)
unfolding from
from-IsValid interrupt = omega arith
from-IsValid quit = omega arith
from-IsValid terminate = omega arith

pub bitor-IsValid : (a b : SignalSet) → IsValid a → IsValid b → IsValid (bitor a b)
unfolding bitor
bitor-IsValid a b v w = bit_or-lt 3 a.bits b.bits v w

-- A union of two sets holds a signal exactly when one of them does, and a set contains a union
-- exactly when it contains both parts.
bitor-contains :
    (a b s : SignalSet) (x : Signal)
    → (contains (bitor a b) (from x) ≡ (contains a (from x) || contains b (from x)))
      × (contains s (bitor a b) ≡ (contains s a && contains s b))
unfolding contains bitor from
bitor-contains a b s interrupt =
    (bit_or-has_flag 0 a.bits b.bits, has_all-bit_or s.bits a.bits b.bits)
bitor-contains a b s quit = (bit_or-has_flag 1 a.bits b.bits, has_all-bit_or s.bits a.bits b.bits)
bitor-contains a b s terminate =
    (bit_or-has_flag 2 a.bits b.bits, has_all-bit_or s.bits a.bits b.bits)

abbrev same : Signal → Signal → Bool
same interrupt interrupt = true
same quit quit = true
same terminate terminate = true
same _ _ = false

from-contains : (x y : Signal) → contains (from x) (from y) ≡ same x y
unfolding contains from
from-contains interrupt interrupt = refl
from-contains interrupt quit = refl
from-contains interrupt terminate = refl
from-contains quit interrupt = refl
from-contains quit quit = refl
from-contains quit terminate = refl
from-contains terminate interrupt = refl
from-contains terminate quit = refl
from-contains terminate terminate = refl

-- Two signals joined by `|`, in either way, make the set that holds these two and no third.
pub signal_bitor-contains :
    (x y z : Signal)
    → (contains (signal_bitor x y) (from z) ≡ (same x z || same y z))
      × (contains (signal_bitor_set x (from y)) (from z) ≡ (same y z || same x z))
unfolding signal_bitor signal_bitor_set bitor_signal
signal_bitor-contains x y z = (
  (bitor-contains (from x) (from y) (from z) z).0
      ∙ ap₂ ◌||◌ (from-contains x z) (from-contains y z),
  (bitor-contains (from y) (from x) (from z) z).0
      ∙ ap₂ ◌||◌ (from-contains y z) (from-contains x z),
)

module _ (c : SignalNumbers) (distinct : AreDistinct c) where
  -- If different signals have different numbers, a signal is read back from its number, and only
  -- from its number.
  pub from_raw-into_raw :
      (x : Signal) (n : ℕ)
      → (from_raw c (into_raw c x) ≡ some x) × ((from_raw c n ≡ some x) ↔ (n ≡ into_raw c x))
  unfolding from_raw into_raw
  from_raw-into_raw interrupt n = (ground arith, (ground arith, ground arith))
  from_raw-into_raw quit n = (ground arith, (ground arith, ground arith))
  from_raw-into_raw terminate n = (ground arith, (ground arith, ground arith))
