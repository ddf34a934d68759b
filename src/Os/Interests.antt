-- ===== src/Os/Interests.antt =====
-- src/os/interests.rs. A value is a `NonZeroU8`; those that the crate can build lie below 4.
use Prim.Native.String.{String}
use gaea.Base.{
  ℕ, zero, suc, ◌<◌, bit_and, bit_or, ◌≡◌, refl, ◌≢◌, Bool, true, false, ◌||◌, Option, none, some,
  arith, ◌!=◌,
}
use gaea.Bits.{le-bit_or_left, bit_or-lt}
use gaea.Bits.Flags.{bit_or-has_any}

pub record Interests : Type 0 where
  pub bits : ℕ

abbrev pub readable : ℕ
readable = 1

abbrev pub writable : ℕ
writable = 2

abbrev pub interests_readable : Interests
interests_readable = record { bits = readable }

abbrev pub interests_writable : Interests
interests_writable = record { bits = writable }

abbrev pub interests_both : Interests
interests_both = record { bits = bit_or readable writable }

unfoldable pub is_readable : Interests → Bool
is_readable self = bit_and self.bits readable != 0

unfoldable pub is_writable : Interests → Bool
is_writable self = bit_and self.bits writable != 0

unfoldable pub bitor : Interests → Interests → Interests
bitor self rhs = record { bits = bit_or self.bits rhs.bits }

-- The text that `Debug` pads; `none` is the panic of `unreachable!`.
debug_text : Bool → Bool → Option String
debug_text true true = some "READABLE | WRITABLE"
debug_text true false = some "READABLE"
debug_text false true = some "WRITABLE"
debug_text false false = none

unfoldable pub fmt : Interests → Option String
unfolding debug_text is_readable is_writable
fmt self = debug_text (is_readable self) (is_writable self)

-- What the public constants and `|` can build: not zero, and no other bits than the two.
pub record IsValid (i : Interests) : Type 0 where
  pub nonzero : 0 < i.bits
  pub small : i.bits < 4

-- The union of valid interests, which are not zero and have no bits but the two flags, is valid, so
-- that `new_unchecked` is never given a zero. It is readable, or writable, exactly when one of the
-- two is.
pub bitor-IsValid :
    (a b : Interests)
    → IsValid a
    → IsValid b
    → IsValid (bitor a b)
      × (is_readable (bitor a b) ≡ (is_readable a || is_readable b))
      × (is_writable (bitor a b) ≡ (is_writable a || is_writable b))
unfolding bitor is_readable is_writable
bitor-IsValid a b v w = (
  record {
    nonzero = omega (arith, v.nonzero, le-bit_or_left a.bits b.bits);
    small = bit_or-lt 2 a.bits b.bits v.small w.small;
  },
  bit_or-has_any a.bits b.bits readable,
  bit_or-has_any a.bits b.bits writable,
)

-- Valid interests are readable or writable.
pub IsValid-some : (i : Interests) → IsValid i → (is_readable i || is_writable i) ≡ true
unfolding is_readable is_writable
IsValid-some i v = go i.bits v.nonzero v.small
  where
    go :
        (n : ℕ)
        → 0 < n
        → n < 4
        → (is_readable (record { bits = n }) || is_writable (record { bits = n })) ≡ true
    go zero h k = absurd (omega arith)
    go (suc zero) h k = refl
    go (suc (suc zero)) h k = refl
    go (suc (suc (suc zero))) h k = refl
    go (suc (suc (suc (suc n)))) h k = absurd (omega arith)

-- Printing valid interests, which are not zero and have no bits but the two flags, never panics.
pub fmt_total : (i : Interests) → IsValid i → fmt i ≢ none
unfolding fmt is_readable is_writable
fmt_total i v = ground (arith, IsValid-some i v)
