-- ===== src/Sys/SignalFd/Receiving.antt =====
-- src/sys/unix/signals.rs: receiving signals.
use gaea.Base.{
  le_or_lt, ℕ, zero, suc, ◌<◌, ◌≡◌, refl, sym, ap, ◌∙◌, ◌⊎◌, inl, inr, none, List, [], ◌∷◌, arith,
  ok, err, would_block, interrupted,
}
use gaea.Os.Signals.{SignalNumbers, from_raw}
use gaea.Sys.SignalFd.Abi.{SignalKernel, IsSignalfd, siginfo_size}
use gaea.Sys.SignalFd.{Signals, returned, receive}

module _ (c : SignalNumbers) {W G : Type 0} (k : SignalKernel W G) (self : Signals) where
  receive-taken :
      (fuel n : ℕ) (w w' : W)
      → k.read self.fd w ≡ (ok (siginfo_size, n), w')
      → receive c k (suc fuel) self w ≡ returned (ok (from_raw c n)) w'
  unfolding receive
  receive-taken fuel n w w' e = rw (receive, e, ap (λ p. p.1) e) refl

  receive-blocked :
      (fuel : ℕ) (w w' : W)
      → k.read self.fd w ≡ (err would_block, w')
      → receive c k (suc fuel) self w ≡ returned (ok none) w'
  unfolding receive
  receive-blocked fuel w w' e = rw (receive, e, ap (λ p. p.1) e) refl

  receive-interrupted :
      (fuel : ℕ) (w w' : W)
      → k.read self.fd w ≡ (err interrupted, w')
      → receive c k (suc fuel) self w ≡ receive c k fuel self w'
  unfolding receive
  receive-interrupted fuel w w' e = rw (receive, e, ap (λ p. p.1) e) refl

  module _ (pending : W → List ℕ) (interruptions : W → ℕ)
      (law : IsSignalfd k pending interruptions self.fd) where
    -- No signal is pending and none is received, or the first that is pending is received and the
    -- others stay.
    abbrev pub ReceivesNext : ℕ → W → Type 0
    ReceivesNext fuel w =
        ((pending w ≡ [])
          × (w' : W) × (receive c k fuel self w ≡ returned (ok none) w')
          × (pending w' ≡ []))
        ⊎ ((n : ℕ) × (ns : List ℕ) × (w' : W) × (pending w ≡ n ∷ ns)
            × (receive c k fuel self w ≡ returned (ok (from_raw c n)) w')
            × (pending w' ≡ ns))

    receive-uninterrupted : (fuel : ℕ) (w : W) → interruptions w ≡ 0 → ReceivesNext (suc fuel) w
    receive-uninterrupted fuel w h = go (pending w) refl
      where
        go : (l : List ℕ) → pending w ≡ l → ReceivesNext (suc fuel) w
        go [] p = let (w', e, q) = law.blocks w h p in inl (p, w', receive-blocked fuel w w' e, q)
        go (n ∷ ns) p =
            let (w', e, q) = law.takes n ns w h p in
            inr (n, ns, w', p, receive-taken fuel n w w' e, q)

    -- If the signalfd behaves as documented, receiving never panics or fails, and it ends, with
    -- fuel for each interruption and one more: if no signal is pending it gives none, and otherwise
    -- it takes the first that is pending, gives its `Signal`, if it has one, and leaves the others.
    pub receive-next : (fuel : ℕ) (w : W) → interruptions w < fuel → ReceivesNext fuel w
    receive-next zero w h = absurd (omega arith)
    receive-next (suc fuel) w h = elim (le_or_lt (interruptions w) 0) [
      | inl calm ↦ receive-uninterrupted fuel w (omega arith)
      | inr rough ↦
          let (w₁, e, i, p) = law.interrupts w rough in
          elim (receive-next fuel w₁ (omega arith)) [
            | inl (none_left, w', r, q) ↦
                inl (sym p ∙ none_left, w', receive-interrupted fuel w w₁ e ∙ r, q)
            | inr (n, ns, w', some_left, r, q) ↦
                inr (n, ns, w', sym p ∙ some_left, receive-interrupted fuel w w₁ e ∙ r, q)
          ]
    ]
