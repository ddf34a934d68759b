-- ===== src/Sys/Awakener/Steps.antt =====
-- src/sys/unix/awakener.rs: `wake` on an eventfd, one system call at a time, so that the calls of
-- several threads can be interleaved.
use gaea.Base.{
  ℕ, zero, suc, ◌≡◌, refl, sym, ap, ◌∙◌, Option, none, some, ok, err, would_block, interrupted,
  in_progress, raw, IoResult,
}
use gaea.Sys.Awakener as Eventfd
use gaea.Sys.Awakener.{Awakener}
use gaea.Sys.Awakener.Abi.{EventfdKernel}

-- Where a call of `wake` is: about to write, about to read because its write would have blocked,
-- or at its end.
pub data Phase : Type 0 where
  writing resetting : Phase
  done : IoResult (Unit {0}) → Phase

-- What follows the write, and what follows the read.
abbrev pub after_write : IoResult (Unit {0}) → Phase
after_write (ok n) = done (ok tt)
after_write (err would_block) = resetting
after_write (err e) = done (err e)

abbrev pub after_reset : IoResult (Unit {0}) → Phase
after_reset (ok n) = writing
after_reset (err e) = done (err e)

-- The result of a call that is at its end.
abbrev pub finished : {W : Type 0} → Phase × W → Option (IoResult (Unit {0}) × W)
finished (done r, w) = some (r, w)
finished (p, w) = none

module _ {W : Type 0} (k : EventfdKernel W) (self : Awakener) where
  unfoldable pub wake_step : Phase → W → Phase × W
  unfolding Eventfd.reset
  wake_step writing w = let (r, w') = k.write self.fd 1 w in (after_write r, w')
  wake_step resetting w = let (r, w') = Eventfd.reset k self w in (after_reset r, w')
  wake_step (done r) w = (done r, w)

  -- So many rounds of a write and a read.
  unfoldable pub wake_rounds : ℕ → Phase → W → Phase × W
  unfolding wake_step
  wake_rounds zero phase w = (phase, w)
  wake_rounds (suc n) phase w =
      let (p₁, w₁) = wake_step phase w in let (p₂, w₂) = wake_step p₁ w₁ in wake_rounds n p₂ w₂

  rounds_done : (n : ℕ) (r : IoResult (Unit {0})) (w : W) → wake_rounds n (done r) w ≡ (done r, w)
  unfolding wake_rounds wake_step
  rounds_done zero r w = refl
  rounds_done (suc n) r w = rounds_done n r w

  wake-ended :
      (n : ℕ) (r : IoResult (Unit {0})) (w w' : W)
      → after_write (k.write self.fd 1 w).0 ≡ done r
      → (k.write self.fd 1 w).1 ≡ w'
      → finished (wake_rounds (suc n) writing w) ≡ some (r, w')
  unfolding wake_rounds wake_step
  wake-ended n r w w' e f = rw (wake_rounds, wake_step, e, f) (ap finished (rounds_done n r w'))

  wake-again :
      (n : ℕ) (w w' : W)
      → k.write self.fd 1 w ≡ (err would_block, w')
      → (p : Phase × W) → wake_step resetting w' ≡ p
      → wake_rounds (suc n) writing w ≡ wake_rounds n p.0 p.1
  unfolding wake_rounds wake_step
  wake-again n w w' e p f =
      ap (λ x. let (p₂, w₂) = wake_step (after_write x.0) x.1 in wake_rounds n p₂ w₂) e
      ∙ ap (λ x. wake_rounds n x.0 x.1) f

  -- What `wake` does behind its read, and behind its write.
  abbrev was_reset : ℕ → IoResult (Unit {0}) × W → Option (IoResult (Unit {0}) × W)
  was_reset n x = elim x.0 [ ok _ ↦ Eventfd.wake k n self x.1 | err e ↦ some (err e, x.1) ]

  abbrev written : ℕ → IoResult (Unit {0}) × W → Option (IoResult (Unit {0}) × W)
  written n x = elim x.0 [
    | ok _ ↦ some (ok tt, x.1)
    | err would_block ↦ was_reset n (Eventfd.reset k self x.1)
    | err e ↦ some (err e, x.1)
  ]

  wake-reset :
      (n : ℕ) (w w' w'' : W) (x : IoResult (Unit {0}))
      → k.write self.fd 1 w ≡ (err would_block, w')
      → Eventfd.reset k self w' ≡ (x, w'')
      → Eventfd.wake k (suc n) self w
        ≡ elim x [ ok _ ↦ Eventfd.wake k n self w'' | err e ↦ some (err e, w'') ]
  unfolding Eventfd.wake
  wake-reset n w w' w'' x e f = ap (written n) e ∙ ap (was_reset n) f

  step :
      (w w' : W) (x : IoResult (Unit {0}))
      → Eventfd.reset k self w ≡ (x, w')
      → wake_step resetting w ≡ (after_reset x, w')
  unfolding wake_step
  step w w' x f = ap (λ p. (after_reset p.0, p.1)) f

  no_rounds : (w : W) → finished (wake_rounds 0 writing w) ≡ none
  unfolding wake_rounds
  no_rounds w = refl

  abbrev IsRounds : ℕ → W → Type 0
  IsRounds fuel w = Eventfd.wake k fuel self w ≡ finished (wake_rounds fuel writing w)

  -- Calling `wake` is the same as making its system calls one at a time, in as many rounds of a
  -- write and a read as it has fuel: it gives the same result, or none when they run out.
  wake-steps :
      (fuel : ℕ) (w : W) → Eventfd.wake k fuel self w ≡ finished (wake_rounds fuel writing w)
  unfolding Eventfd.wake
  wake-steps zero w = sym (no_rounds w)
  wake-steps (suc n) w = go (wake-steps n) (k.write self.fd 1 w) refl
    where
      ended :
          (x : IoResult (Unit {0})) (r : IoResult (Unit {0})) (w' : W)
          → k.write self.fd 1 w ≡ (x, w')
          → after_write x ≡ done r
          → written n (x, w') ≡ some (r, w')
          → IsRounds (suc n) w
      ended x r w' e d f =
          ap (written n) e
          ∙ f
          ∙ sym (wake-ended n r w w' (ap (λ p. after_write p.0) e ∙ d) (ap (λ p. p.1) e))

      reset_go :
          ((v : W) → IsRounds n v)
          → (w' : W) → k.write self.fd 1 w ≡ (err would_block, w')
          → (x : IoResult (Unit {0}) × W) → Eventfd.reset k self w' ≡ x
          → IsRounds (suc n) w
      reset_go ih w' e (ok u, w'') f =
          wake-reset n w w' w'' (ok u) e f
          ∙ ih w''
          ∙ ap finished (sym (wake-again n w w' e (writing, w'') (step w' w'' (ok u) f)))
      reset_go ih w' e (err x, w'') f =
          wake-reset n w w' w'' (err x) e f
          ∙ sym (
              ap finished (
                wake-again n w w' e (done (err x), w'') (step w' w'' (err x) f)
                ∙ rounds_done n (err x) w''))

      go :
          ((v : W) → IsRounds n v)
          → (x : IoResult (Unit {0}) × W) → k.write self.fd 1 w ≡ x
          → IsRounds (suc n) w
      go ih (ok u, w') e = ended (ok u) (ok tt) w' e refl refl
      go ih (err would_block, w') e = reset_go ih w' e (Eventfd.reset k self w') refl
      go ih (err interrupted, w') e = ended (err interrupted) (err interrupted) w' e refl refl
      go ih (err in_progress, w') e = ended (err in_progress) (err in_progress) w' e refl refl
      go ih (err (raw c), w') e = ended (err (raw c)) (err (raw c)) w' e refl refl
