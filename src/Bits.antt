-- ===== src/Bits.antt =====
-- Sets of flags as numbers: `|` and `&` on unsigned integers of any width. The laws are proved
-- from the digit recursion that the native operations stand for; `Bits.Flags` has the tests.
pub mod Flags
use Prim.Native.Nat.{digits, bitwise, bit_and-bitwise, bit_or-bitwise}
use native.Mathlib.Nat.{le_refl, pow-suc}
use gaea.Base.{
  ℕ, zero, suc, ◌+◌, ◌*◌, ◌/◌, ◌%◌, ◌^◌, ◌<◌, ◌≤◌, min, max, bit_and, bit_or, ◌≡◌, refl, ◌⊎◌, arith,
}

module _ (base : ℕ → ℕ) (op : ℕ → ℕ → ℕ) where
  digits_enough :
      (fuel more x y : ℕ) → x ≤ fuel → x ≤ more → digits base op fuel x y ≡ digits base op more x y
  digits_enough zero zero x y p q = refl
  digits_enough zero (suc more) zero y p q = refl
  digits_enough (suc fuel) zero zero y p q = refl
  digits_enough (suc fuel) (suc more) zero y p q = refl
  digits_enough zero (suc more) (suc x) y p q = absurd (omega arith)
  digits_enough (suc fuel) zero (suc x) y p q = absurd (omega arith)
  digits_enough (suc fuel) (suc more) (suc x) y p q =
      rw (digits_enough fuel more (suc x / 2) (y / 2) (omega arith) (omega arith))

  bitwise_digit :
      (x y : ℕ)
      → let high = bitwise base op (suc x / 2) (y / 2) in
        bitwise base op (suc x) y ≡ op (suc x % 2) (y % 2) + 2 * high
  bitwise_digit x y =
      omega (arith, digits_enough x (suc x / 2) (suc x / 2) (y / 2) (omega arith) (le_refl _))

or_digit : (x y : ℕ) → bit_or x y ≡ max (x % 2) (y % 2) + 2 * bit_or (x / 2) (y / 2)
or_digit zero y = simp bit_or-bitwise (omega arith)
or_digit (suc x) y = simp bit_or-bitwise (bitwise_digit (λ k. k) max x y)

and_digit : (x y : ℕ) → bit_and x y ≡ min (x % 2) (y % 2) + 2 * bit_and (x / 2) (y / 2)
and_digit zero y = simp bit_and-bitwise (omega arith)
and_digit (suc x) y = simp bit_and-bitwise (bitwise_digit (λ k. 0) min x y)

-- The digits of a result, one at a time.
or_half :
    (a b : ℕ) → (bit_or a b / 2 ≡ bit_or (a / 2) (b / 2)) × (bit_or a b % 2 ≡ max (a % 2) (b % 2))
or_half a b = omega (arith, or_digit a b)

and_half :
    (a b : ℕ)
    → (bit_and a b / 2 ≡ bit_and (a / 2) (b / 2)) × (bit_and a b % 2 ≡ min (a % 2) (b % 2))
and_half a b = omega (arith, and_digit a b)

pub zero-bit_and : (b : ℕ) → bit_and 0 b ≡ 0
zero-bit_and b = bit_and-bitwise 0 b

pub zero-bit_or : (b : ℕ) → bit_or 0 b ≡ b
zero-bit_or b = bit_or-bitwise 0 b

-- Each law goes by induction on a bound of the numbers, one digit at a time.
and_comm_below : (n a b : ℕ) → a ≤ n → b ≤ n → bit_and a b ≡ bit_and b a
and_comm_below zero zero zero p q = refl
and_comm_below zero _ _ p q = omega arith
and_comm_below (suc n) a b p q = omega (
  arith,
  and_digit a b,
  and_digit b a,
  and_comm_below n (a / 2) (b / 2) (omega arith) (omega arith),
)

pub bit_and_comm : (a b : ℕ) → bit_and a b ≡ bit_and b a
bit_and_comm a b = and_comm_below (a + b) a b (omega arith) (omega arith)

or_comm_below : (n a b : ℕ) → a ≤ n → b ≤ n → bit_or a b ≡ bit_or b a
or_comm_below zero zero zero p q = refl
or_comm_below zero _ _ p q = omega arith
or_comm_below (suc n) a b p q =
    omega (
      arith,
      or_digit a b,
      or_digit b a,
      or_comm_below n (a / 2) (b / 2) (omega arith) (omega arith),
    )

pub bit_or_comm : (a b : ℕ) → bit_or a b ≡ bit_or b a
bit_or_comm a b = or_comm_below (a + b) a b (omega arith) (omega arith)

pub bit_or-zero : (a : ℕ) → bit_or a 0 ≡ a
bit_or-zero a = omega (arith, bit_or_comm a 0, zero-bit_or a)

pub bit_and-zero : (a : ℕ) → bit_and a 0 ≡ 0
bit_and-zero a = omega (arith, bit_and_comm a 0, zero-bit_and a)

and_self_below : (n a : ℕ) → a ≤ n → bit_and a a ≡ a
and_self_below zero zero p = refl
and_self_below zero _ p = omega arith
and_self_below (suc n) a p = omega (arith, and_digit a a, and_self_below n (a / 2) (omega arith))

pub bit_and_self : (a : ℕ) → bit_and a a ≡ a
bit_and_self a = and_self_below a a (omega arith)

or_self_below : (n a : ℕ) → a ≤ n → bit_or a a ≡ a
or_self_below zero zero p = refl
or_self_below zero _ p = omega arith
or_self_below (suc n) a p = omega (arith, or_digit a a, or_self_below n (a / 2) (omega arith))

pub bit_or_self : (a : ℕ) → bit_or a a ≡ a
bit_or_self a = or_self_below a a (omega arith)

-- `(a | b) & a` is `a`.
and_or_below : (n a b : ℕ) → a ≤ n → bit_and (bit_or a b) a ≡ a
and_or_below zero zero b p = bit_and-zero (bit_or 0 b)
and_or_below zero _ b p = omega arith
and_or_below (suc n) a b p =
    ground
      (arith, and_digit (bit_or a b) a, or_half a b, and_or_below n (a / 2) (b / 2) (omega arith))

pub bit_and-bit_or_absorb : (a b : ℕ) → bit_and (bit_or a b) a ≡ a
bit_and-bit_or_absorb a b = and_or_below a a b (omega arith)

-- `(a | b) & c` is `(a & c) | (b & c)`.
and_or_distrib_below :
    (n a b c : ℕ) → a ≤ n → b ≤ n → bit_and (bit_or a b) c ≡ bit_or (bit_and a c) (bit_and b c)
and_or_distrib_below zero zero zero c p q = ground (arith, zero-bit_and c)
and_or_distrib_below zero _ _ c p q = omega arith
and_or_distrib_below (suc n) a b c p q = ground (
  arith,
  and_digit (bit_or a b) c,
  or_half a b,
  or_digit (bit_and a c) (bit_and b c),
  and_half a c,
  and_half b c,
  and_or_distrib_below n (a / 2) (b / 2) (c / 2) (omega arith) (omega arith),
)

pub bit_and-bit_or : (a b c : ℕ) → bit_and (bit_or a b) c ≡ bit_or (bit_and a c) (bit_and b c)
bit_and-bit_or a b c = and_or_distrib_below (a + b) a b c (omega arith) (omega arith)

and_assoc_below : (n a b c : ℕ) → a ≤ n → bit_and (bit_and a b) c ≡ bit_and a (bit_and b c)
and_assoc_below zero zero b c p =
    ground (arith, zero-bit_and b, zero-bit_and c, zero-bit_and (bit_and b c))
and_assoc_below zero _ b c p = omega arith
and_assoc_below (suc n) a b c p = ground (
  arith,
  and_digit (bit_and a b) c,
  and_digit a (bit_and b c),
  and_half a b,
  and_half b c,
  and_assoc_below n (a / 2) (b / 2) (c / 2) (omega arith),
)

pub bit_and_assoc : (a b c : ℕ) → bit_and (bit_and a b) c ≡ bit_and a (bit_and b c)
bit_and_assoc a b c = and_assoc_below a a b c (omega arith)

or_pos_below : (n a b : ℕ) → a ≤ n → b ≤ n → a ≤ bit_or a b
or_pos_below zero zero b p q = omega arith
or_pos_below zero _ b p q = omega arith
or_pos_below (suc n) a b p q =
    omega (arith, or_digit a b, or_pos_below n (a / 2) (b / 2) (omega arith) (omega arith))

pub le-bit_or_left : (a b : ℕ) → a ≤ bit_or a b
le-bit_or_left a b = or_pos_below (a + b) a b (omega arith) (omega arith)

pub le-bit_or_right : (a b : ℕ) → b ≤ bit_or a b
le-bit_or_right a b = omega (arith, bit_or_comm a b, le-bit_or_left b a)

-- `|` stays within the width of its operands.
pub bit_or-lt : (k a b : ℕ) → a < 2 ^ k → b < 2 ^ k → bit_or a b < 2 ^ k
bit_or-lt zero a b p q = ground (arith, zero-bit_or b)
bit_or-lt (suc k) a b p q =
    omega
      (arith, or_digit a b, pow-suc 2 k, bit_or-lt k (a / 2) (b / 2) (omega arith) (omega arith))

-- A set either lacks a single flag or holds it.
pub flag_cases : (k x : ℕ) → (bit_and x (2 ^ k) ≡ 0) ⊎ (bit_and x (2 ^ k) ≡ 2 ^ k)
flag_cases zero x = omega (arith, and_digit x 1, bit_and-zero (x / 2))
flag_cases (suc k) x =
    let half : 2 ^ suc k / 2 ≡ 2 ^ k = omega (arith, pow-suc 2 k) in
    ground (arith, and_digit x (2 ^ suc k), pow-suc 2 k, half, flag_cases k (x / 2))
