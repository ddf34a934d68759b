-- ===== src/Bits/Flags.antt =====
-- The two tests that the code makes of flags: `(s & f) == f`, all flags of `f` are in `s`, and
-- `(s & f) != 0`, some flag of `f` is in `s`.
use native.Mathlib.Nat.{one-le-pow}
use gaea.Base.{
  ℕ, ◌^◌, bit_and, bit_or, ◌≡◌, sym, ap, ap₂, ◌∙◌, arith, Bool, true, ◌==◌, ◌!=◌, ◌||◌, ◌&&◌,
  ==_iff,
}
use gaea.Bits.{
  bit_and_comm, bit_and-bit_or, bit_and-bit_or_absorb, bit_and_assoc, bit_or_comm, bit_or-zero,
  le-bit_or_left, le-bit_or_right, flag_cases, zero-bit_or, bit_and_self, bit_or_self,
}

abbrev pub has_all : ℕ → ℕ → Bool
has_all s f = bit_and s f == f

abbrev pub has_any : ℕ → ℕ → Bool
has_any s f = bit_and s f != 0

-- A set holds a union if it holds both parts.
has_all_join : (s a b : ℕ) → bit_and s a ≡ a → bit_and s b ≡ b → bit_and s (bit_or a b) ≡ bit_or a b
has_all_join s a b p q =
    bit_and_comm s (bit_or a b)
    ∙ bit_and-bit_or a b s
    ∙ ap₂ bit_or (bit_and_comm a s ∙ p) (bit_and_comm b s ∙ q)

-- A set that holds a union holds its first part.
has_all_left : (s a b : ℕ) → bit_and s (bit_or a b) ≡ bit_or a b → bit_and s a ≡ a
has_all_left s a b h =
    ap (bit_and s) (sym (bit_and-bit_or_absorb a b))
    ∙ sym (bit_and_assoc s (bit_or a b) a)
    ∙ ap (λ t. bit_and t a) h
    ∙ bit_and-bit_or_absorb a b

pub has_all-bit_or : (s a b : ℕ) → has_all s (bit_or a b) ≡ (has_all s a && has_all s b)
has_all-bit_or s a b =
    ground (arith, has_all_join s a b, has_all_left s a b, has_all_left s b a, bit_or_comm a b)

pub has_all_trans : (a b c : ℕ) → has_all a b ≡ true → has_all b c ≡ true → has_all a c ≡ true
has_all_trans a b c p q =
    let p' = (==_iff (bit_and a b) b).0 p in
    let q' = (==_iff (bit_and b c) c).0 q in
    (==_iff (bit_and a c) c).1
      (ap (bit_and a) (sym q') ∙ sym (bit_and_assoc a b c) ∙ ap (λ t. bit_and t c) p' ∙ q')

pub has_all_antisym : (a b : ℕ) → has_all a b ≡ true → has_all b a ≡ true → a ≡ b
has_all_antisym a b p q = ground (arith, bit_and_comm a b)

pub has_all_refl : (a : ℕ) → has_all a a ≡ true
has_all_refl a = (==_iff (bit_and a a) a).1 (bit_and_self a)

-- A union holds a single flag if one of its parts does.
pub bit_or-has_flag :
    (k a b : ℕ) → has_all (bit_or a b) (2 ^ k) ≡ (has_all a (2 ^ k) || has_all b (2 ^ k))
bit_or-has_flag k a b = ground (
  arith,
  bit_and-bit_or a b (2 ^ k),
  flag_cases k a,
  flag_cases k b,
  one-le-pow k 2,
  zero-bit_or (2 ^ k),
  bit_or-zero (2 ^ k),
  bit_or_self (2 ^ k),
)

-- A union meets a set of flags if one of its parts does.
pub bit_or-has_any : (a b f : ℕ) → has_any (bit_or a b) f ≡ (has_any a f || has_any b f)
bit_or-has_any a b f = ground (
  arith,
  bit_and-bit_or a b f,
  le-bit_or_left (bit_and a f) (bit_and b f),
  le-bit_or_right (bit_and a f) (bit_and b f),
  zero-bit_or 0,
)
