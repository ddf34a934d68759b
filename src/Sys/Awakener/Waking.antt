-- ===== src/Sys/Awakener/Waking.antt =====
-- src/sys/unix/awakener.rs: waking, and emptying a pipe.
use gaea.Base.{
  le_or_lt, ℕ, zero, suc, ◌+◌, ◌≤◌, ◌<◌, ◌≡◌, refl, ap, ◌∙◌, inl, inr, some, arith, ok, err,
  would_block,
}
use gaea.Sys.Awakener as Eventfd
use gaea.Sys.Awakener.Pipe as Pipe
use gaea.Sys.Awakener.Abi.{EventfdKernel, IsEventfd, max_count, PipeKernel, IsPipe}

module _ {W : Type 0} (k : EventfdKernel W) (count : W → ℕ) (self : Eventfd.Awakener)
    (law : IsEventfd k count self.fd) where
  wake-written :
      (fuel : ℕ) (w w' : W)
      → k.write self.fd 1 w ≡ (ok tt, w')
      → Eventfd.wake k (suc fuel) self w ≡ some (ok tt, w')
  unfolding Eventfd.wake
  wake-written fuel w w' e = rw (Eventfd.wake, e, ap (λ p. p.1) e) refl

  reset-read :
      (n : ℕ) (w w' : W) → k.read self.fd w ≡ (ok n, w') → Eventfd.reset k self w ≡ (ok tt, w')
  unfolding Eventfd.reset
  reset-read n w w' e = rw (Eventfd.reset, e, ap (λ p. p.1) e) refl

  wake-reset :
      (fuel n : ℕ) (w w' w'' : W)
      → k.write self.fd 1 w ≡ (err would_block, w')
      → k.read self.fd w' ≡ (ok n, w'')
      → Eventfd.wake k (suc fuel) self w ≡ Eventfd.wake k fuel self w''
  unfolding Eventfd.wake Eventfd.reset
  wake-reset fuel n w w' w'' e f =
      rw (Eventfd.wake, e, Eventfd.reset, ap (λ p. p.1) e, f)
        (ap (λ x. Eventfd.wake k fuel self (Eventfd.reset k self x).1) (ap (λ p. p.1) e)
          ∙ ap (λ p. Eventfd.wake k fuel self p.1) (reset-read n w' w'' f))

  -- If the eventfd behaves as documented and its count is a possible one, waking it succeeds, with
  -- at most one more call of itself, and the count is then not zero: also when the count could not
  -- be increased.
  pub wake-eventfd :
      (fuel : ℕ) (w : W)
      → count w ≤ max_count
      → (w' : W) × (Eventfd.wake k (suc (suc fuel)) self w ≡ some (ok tt, w')) × (0 < count w')
  wake-eventfd fuel w h = elim (le_or_lt (count w + 1) max_count) [
    | inl room ↦
        let (w', e, c) = law.written 1 w room in (w', wake-written (suc fuel) w w' e, omega arith)
    | inr no_room ↦
        let (w₁, e₁, c₁) = law.full 1 w no_room in
        let (w₂, e₂, c₂) = law.taken w₁ (omega arith) in
        let (w₃, e₃, c₃) = law.written 1 w₂ (omega arith) in
        (
          w₃,
          wake-reset (suc fuel) (count w₁) w w₁ w₂ e₁ e₂ ∙ wake-written fuel w₂ w₃ e₃,
          omega arith,
        )
  ]

module _ {W : Type 0} (k : PipeKernel W) (buffered : W → ℕ) (room : ℕ) (self : Pipe.Awakener)
    (law : IsPipe k buffered room self.sender self.receiver) where
  empty-read :
      (fuel n : ℕ) (w w' : W)
      → k.read self.receiver 4096 w ≡ (ok (suc n), w')
      → Pipe.empty k (suc fuel) self w ≡ Pipe.empty k fuel self w'
  unfolding Pipe.empty
  empty-read fuel n w w' e = rw (Pipe.empty, e, ap (λ p. p.1) e) refl

  empty-end :
      (fuel : ℕ) (w w' : W)
      → k.read self.receiver 4096 w ≡ (err would_block, w')
      → Pipe.empty k (suc fuel) self w ≡ some w'
  unfolding Pipe.empty
  empty-end fuel w w' e = rw (Pipe.empty, e, ap (λ p. p.1) e) refl

  write-done :
      (fuel : ℕ) (w w' : W)
      → k.write self.sender w ≡ (ok 1, w')
      → Pipe.wake k (suc fuel) self w ≡ some (ok tt, w')
  unfolding Pipe.wake
  write-done fuel w w' e = rw (Pipe.wake, e, ap (λ p. p.1) e) refl

  write-full :
      (fuel : ℕ) (w w' w'' : W)
      → k.write self.sender w ≡ (err would_block, w')
      → Pipe.empty k fuel self w' ≡ some w''
      → Pipe.wake k (suc fuel) self w ≡ Pipe.wake k fuel self w''
  unfolding Pipe.wake
  write-full fuel w w' w'' e f = rw (Pipe.wake, e, ap (λ p. p.1) e, f) refl

  -- Emptying a pipe ends, with fuel for each byte that is in it, and the pipe is then empty.
  pub empty-pipe :
      (fuel : ℕ) (w : W)
      → buffered w < fuel
      → (w' : W) × (Pipe.empty k fuel self w ≡ some w') × (buffered w' ≡ 0)
  empty-pipe zero w h = absurd (omega arith)
  empty-pipe (suc fuel) w h = elim (le_or_lt (buffered w) 0) [
    | inl none_left ↦
        let (w', e, b) = law.empty w 4096 (omega arith) in (w', empty-end fuel w w' e, b)
    | inr some_left ↦
        let (n, w₁, e₁, b₁) = law.taken w 4096 some_left (omega arith) in
        let (w₂, e₂, b₂) = empty-pipe fuel w₁ (omega arith) in
        (w₂, empty-read fuel n w w₁ e₁ ∙ e₂, b₂)
  ]

  -- If the pipe behaves as documented, has room for a byte, and no signal interrupts the calls,
  -- waking with it succeeds, also when the pipe is full: it ends, with fuel for each byte that is
  -- in the pipe and two more, and there is then a byte in the pipe.
  pub wake-pipe :
      (fuel : ℕ) (w : W)
      → 0 < room
      → suc (buffered w) < fuel
      → (w' : W) × (Pipe.wake k fuel self w ≡ some (ok tt, w')) × (0 < buffered w')
  wake-pipe zero w r h = absurd (omega arith)
  wake-pipe (suc zero) w r h = absurd (omega arith)
  wake-pipe (suc (suc fuel)) w r h = elim (le_or_lt room (buffered w)) [
    | inl is_full ↦
        let (w₁, e₁, b₁) = law.full w is_full in
        let (w₂, e₂, b₂) = empty-pipe (suc fuel) w₁ (omega arith) in
        let (w₃, e₃, b₃) = law.written w₂ (omega arith) in
        (w₃, write-full (suc fuel) w w₁ w₂ e₁ e₂ ∙ write-done fuel w₂ w₃ e₃, omega arith)
    | inr open_ ↦
        let (w', e, b) = law.written w open_ in (w', write-done (suc fuel) w w' e, omega arith)
  ]
