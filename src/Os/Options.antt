-- ===== src/Os/Options.antt =====
-- src/os/option.rs.
use Prim.Native.String.{String}
use gaea.Base.{ℕ, bit_and, bit_or, ◌≡◌, Bool, true, false, not, ◌&&◌, ◌||◌, arith, ◌!=◌}
use gaea.Bits.Flags.{bit_or-has_any}

pub record RegisterOption : Type 0 where
  pub bits : ℕ

abbrev pub edge : ℕ
edge = 1

abbrev pub oneshot : ℕ
oneshot = 2

abbrev pub option_level : RegisterOption
option_level = record { bits = 0 }

abbrev pub option_edge : RegisterOption
option_edge = record { bits = edge }

abbrev pub option_oneshot : RegisterOption
option_oneshot = record { bits = oneshot }

unfoldable pub is_edge : RegisterOption → Bool
is_edge self = bit_and self.bits edge != 0

unfoldable pub is_level : RegisterOption → Bool
unfolding is_edge
is_level self = not (is_edge self)

unfoldable pub is_oneshot : RegisterOption → Bool
is_oneshot self = bit_and self.bits oneshot != 0

unfoldable pub bitor : RegisterOption → RegisterOption → RegisterOption
bitor self rhs = record { bits = bit_or self.bits rhs.bits }

debug_text : Bool → Bool → String
debug_text false false = "LEVEL"
debug_text true false = "EDGE"
debug_text false true = "LEVEL | ONESHOT"
debug_text true true = "EDGE | ONESHOT"

unfoldable pub fmt : RegisterOption → String
unfolding debug_text is_edge is_oneshot
fmt self = debug_text (is_edge self) (is_oneshot self)

-- A union of options is level triggered exactly when both are: edge prevails over level. It is
-- oneshot exactly when one of the two is.
pub bitor-tests :
    (a b : RegisterOption)
    → (is_level (bitor a b) ≡ (is_level a && is_level b))
      × (is_edge (bitor a b) ≡ (is_edge a || is_edge b))
      × (is_oneshot (bitor a b) ≡ (is_oneshot a || is_oneshot b))
unfolding bitor is_level is_edge is_oneshot
bitor-tests a b = (
  ground (arith, bit_or-has_any a.bits b.bits edge),
  bit_or-has_any a.bits b.bits edge,
  bit_or-has_any a.bits b.bits oneshot,
)
