-- ===== src/Event/Readiness.antt =====
-- src/event.rs: the laws of the readiness sets.
use gaea.Base.{◌≡◌, true, ◌&&◌, ◌||◌, ap}
use gaea.Bits.Flags.{has_all-bit_or, has_all_trans, has_all_antisym, has_all_refl, bit_or-has_flag}
use gaea.Event.{Ready, contains, is_readable, is_writable, is_error, is_timer, is_hup, bitor}

-- A readiness set contains `a | b` exactly when it contains `a` and contains `b`.
pub contains-bitor : (s a b : Ready) → contains s (bitor a b) ≡ (contains s a && contains s b)
unfolding contains bitor
contains-bitor s a b = has_all-bit_or s.bits a.bits b.bits

pub contains_refl : (a : Ready) → contains a a ≡ true
unfolding contains
contains_refl a = has_all_refl a.bits

pub contains_trans :
    (a b c : Ready) → contains a b ≡ true → contains b c ≡ true → contains a c ≡ true
unfolding contains
contains_trans a b c = has_all_trans a.bits b.bits c.bits

-- Two readiness sets that contain one another are equal.
pub contains_antisym : (a b : Ready) → contains a b ≡ true → contains b a ≡ true → a ≡ b
unfolding contains
contains_antisym a b p q = ap (λ n. record { bits = n }) (has_all_antisym a.bits b.bits p q)

-- Each of the five tests of a readiness set holds of `a | b` exactly when it holds of `a` or of `b`.
pub bitor-tests :
    (a b : Ready)
    → (is_readable (bitor a b) ≡ (is_readable a || is_readable b))
      × (is_writable (bitor a b) ≡ (is_writable a || is_writable b))
      × (is_error (bitor a b) ≡ (is_error a || is_error b))
      × (is_timer (bitor a b) ≡ (is_timer a || is_timer b))
      × (is_hup (bitor a b) ≡ (is_hup a || is_hup b))
unfolding bitor is_readable is_writable is_error is_timer is_hup
bitor-tests a b = (
  bit_or-has_flag 0 a.bits b.bits,
  bit_or-has_flag 1 a.bits b.bits,
  bit_or-has_flag 2 a.bits b.bits,
  bit_or-has_flag 3 a.bits b.bits,
  bit_or-has_flag 4 a.bits b.bits,
)
