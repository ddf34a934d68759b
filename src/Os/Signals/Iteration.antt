-- ===== src/Os/Signals/Iteration.antt =====
-- src/os/signals.rs: iterating over the signals of a set.
use gaea.Base.{ℕ, zero, suc, ◌<◌, ◌≡◌, refl, some, List, [], ◌∷◌, arith, if◌then◌else◌, length}
use gaea.Os.Signals.{
  Signal, interrupt, terminate, quit, SignalSet, size_hint, count, len, from, contains, collect,
}
use gaea.Os.Signals.Sets.{IsValid}

-- A property of numbers below 8 holds if it holds of each.
below_eight {ℓ} :
    (P : ℕ → Type ℓ) → P 0 → P 1 → P 2 → P 3 → P 4 → P 5 → P 6 → P 7 → (n : ℕ) → n < 8 → P n
below_eight P a b c d e f g h zero l = a
below_eight P a b c d e f g h (suc zero) l = b
below_eight P a b c d e f g h (suc (suc zero)) l = c
below_eight P a b c d e f g h (suc (suc (suc zero))) l = d
below_eight P a b c d e f g h (suc (suc (suc (suc zero)))) l = e
below_eight P a b c d e f g h (suc (suc (suc (suc (suc zero))))) l = f
below_eight P a b c d e f g h (suc (suc (suc (suc (suc (suc zero)))))) l = g
below_eight P a b c d e f g h (suc (suc (suc (suc (suc (suc (suc zero))))))) l = h
below_eight P a b c d e f g h (suc (suc (suc (suc (suc (suc (suc (suc n)))))))) l =
    absurd (omega arith)

abbrev member : SignalSet → Signal → List Signal → List Signal
member s x rest = if contains s (from x) then x ∷ rest else rest

-- The signals of a set, in the order of their bits.
abbrev pub members : SignalSet → List Signal
members s = member s interrupt (member s quit (member s terminate []))

-- A loop over a set with no bits but the three flags ends after at most three rounds; it visits the
-- signals that the set contains, each once, and no others, and their number is what `size_hint`,
-- `count` and `len` say.
pub collect-members :
    (s : SignalSet) (fuel : ℕ)
    → IsValid s
    → (collect (suc (suc (suc (suc fuel)))) s ≡ some (members s))
      × (size_hint s ≡ (length (members s), some (length (members s))))
      × (count s ≡ length (members s))
      × (len s ≡ length (members s))
unfolding collect contains from size_hint count len
collect-members s fuel v =
    below_eight
      (λ n.
        let s : SignalSet = record { bits = n } in
        (collect (suc (suc (suc (suc fuel)))) s ≡ some (members s))
        × (size_hint s ≡ (length (members s), some (length (members s))))
        × (count s ≡ length (members s))
        × (len s ≡ length (members s)))
      (refl, refl, refl, refl) (refl, refl, refl, refl) (refl, refl, refl, refl)
      (refl, refl, refl, refl) (refl, refl, refl, refl) (refl, refl, refl, refl)
      (refl, refl, refl, refl) (refl, refl, refl, refl) s.bits v
