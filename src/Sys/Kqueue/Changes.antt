-- ===== src/Sys/Kqueue/Changes.antt =====
-- src/sys/unix/kqueue.rs: the changes that registrations make, and which of their errors count.
use gaea.Base.{
  ◌≢◌, IoError, IoResult, ℕ, ◌≤◌, ◌≡◌, refl, ap, ◌⊎◌, inl, inr, true, false, List, [], ◌∷◌, ◌++◌,
  arith, if◌then◌else◌, Bool-cases, length, All, ok, err, interrupted,
}
use gaea.Base.{raw, would_block, in_progress, IoError, IoResult, ◌≢◌}
use gaea.Event.{EventId}
use gaea.Os.Interests.{Interests, is_readable, is_writable}
use gaea.Os.Options.{RegisterOption}
use gaea.Sys.Kqueue.Abi.{Kevent, KqueueFlags, KqueueKernel}
use gaea.Sys.Kqueue.{
  Selector, deregister, reregister, deregister_changes, is_error, check_errors, ignores,
  kevent_register, register_changes, reregister_changes, new_kevent,
}

-- The filters of the changes, in their order.
abbrev pub filters : List Kevent → List ℕ
filters [] = []
filters (k ∷ ks) = k.filter ∷ filters ks

-- Every change is for the descriptor and carries the identifier.
abbrev pub IsFor : ℕ → EventId → Kevent → Type 0
IsFor fd id k = (k.ident ≡ fd) × (k.udata ≡ id)

module _ (c : KqueueFlags) where
  -- A registration makes one change for each interest, and no other: for the filter of writing if
  -- the interests are writable, and for that of reading if they are readable; never more than the
  -- two that its array has room for. A re-registration always makes both changes.
  pub register_changes-filters :
      (fd : ℕ) (id : EventId) (i : Interests) (o : RegisterOption)
      → (filters (register_changes c fd id i o)
          ≡ (if is_writable i then c.evfilt_write ∷ [] else [])
            ++ (if is_readable i then c.evfilt_read ∷ [] else []))
        × (length (register_changes c fd id i o) ≤ 2)
        × All (IsFor fd id) (register_changes c fd id i o)
        × (filters (reregister_changes c fd id i o) ≡ c.evfilt_write ∷ c.evfilt_read ∷ [])
        × All (IsFor fd id) (reregister_changes c fd id i o)
  unfolding register_changes reregister_changes new_kevent
  register_changes-filters fd id i o = elim (Bool-cases (is_writable i)) [
    | inl a ↦ elim (Bool-cases (is_readable i)) [
      | inl b ↦
          rw (a, b)
            (
              refl,
              omega arith,
              ((refl, refl), ((refl, refl), tt)),
              refl,
              ((refl, refl), ((refl, refl), tt)),
            )
      | inr b ↦
          rw (a, b)
            (refl, omega arith, ((refl, refl), tt), refl, ((refl, refl), ((refl, refl), tt)))
    ]
    | inr a ↦ elim (Bool-cases (is_readable i)) [
      | inl b ↦
          rw (a, b)
            (refl, omega arith, ((refl, refl), tt), refl, ((refl, refl), ((refl, refl), tt)))
      | inr b ↦ rw (a, b) (refl, omega arith, tt, refl, ((refl, refl), ((refl, refl), tt)))
    ]
  ]

  module _ {W : Type 0} (kernel : KqueueKernel W) where
    -- The errors of the entries are checked in order: either none of them counts, and the check
    -- succeeds, or it fails with the error of the first entry that counts.
    pub check_errors_cases :
        (ks : List Kevent) (ignored : List ℕ)
        → ((check_errors c kernel ks ignored ≡ ok tt) × All (λ k. is_error c ignored k ≡ false) ks)
          ⊎ ((before : List Kevent) × (e : Kevent) × (after : List Kevent) × (ks
                ≡ before ++ e ∷ after)
              × All (λ k. is_error c ignored k ≡ false) before
              × (is_error c ignored e ≡ true)
              × (check_errors c kernel ks ignored ≡ err (kernel.from_raw_os_error e.datum)))
    unfolding check_errors
    check_errors_cases [] ignored = inl (refl, tt)
    check_errors_cases (k ∷ ks) ignored = elim (Bool-cases (is_error c ignored k)) [
      | inl bad ↦ inr ([], k, ks, refl, tt, bad, rw bad)
      | inr good ↦ elim (check_errors_cases ks ignored) [
        | inl (done, all_good) ↦ inl (rw good done, (good, all_good))
        | inr (before, e, after, split, all_good, bad, failed) ↦
            inr (k ∷ before, e, after, ap (◌∷◌ k) split, (good, all_good), bad, rw good failed)
      ]
    ]

    -- The entries of a filter that is not registered are no failure.
    abbrev pub IsDone : Kevent → Type 0
    IsDone k = (k.datum ≡ 0) ⊎ (k.datum ≡ c.enoent)

    done-fine : (k : Kevent) → IsDone k → is_error c (c.enoent ∷ []) k ≡ false
    unfolding is_error ignores
    done-fine k d = ground arith

    pub All-done :
        (ks : List Kevent) → All IsDone ks → check_errors c kernel ks (c.enoent ∷ []) ≡ ok tt
    unfolding check_errors
    All-done [] d = refl
    All-done (k ∷ ks) d = rw (done-fine k d.0) (All-done ks d.1)

    fine :
        (kq : ℕ) (changes ks : List Kevent) (w w' : W)
        → All IsDone ks
        → kernel.changes kq changes w ≡ (ok ks, w')
          ⊎ (kernel.changes kq changes w ≡ (err interrupted, w'))
        → kevent_register c kernel kq changes (c.enoent ∷ []) w ≡ (ok tt, w')
    unfolding kevent_register
    fine kq changes ks w w' d (inl e) =
        rw (kevent_register, e, ap (λ p. p.1) e) (ap (λ r. (r, w')) (All-done ks d))
    fine kq changes ks w w' d (inr e) = rw (kevent_register, e, ap (λ p. p.1) e) refl

    -- A descriptor is deregistered, and re-registered, without an error if each entry that the
    -- system call returns is without an error or has `ENOENT`, as when one of the two filters was
    -- not registered, and also if the system call was interrupted.
    pub deregister_missing :
        (self : Selector) (fd : ℕ) (id : EventId) (i : Interests) (o : RegisterOption) (w w' : W)
        (ks : List Kevent)
        → All IsDone ks
        → kernel.changes self.kq (deregister_changes c fd) w ≡ (ok ks, w')
          ⊎ (kernel.changes self.kq (deregister_changes c fd) w ≡ (err interrupted, w'))
        → kernel.changes self.kq (reregister_changes c fd id i o) w ≡ (ok ks, w')
          ⊎ (kernel.changes self.kq (reregister_changes c fd id i o) w ≡ (err interrupted, w'))
        → (deregister c kernel self fd w ≡ (ok tt, w'))
          × (reregister c kernel self fd id i o w ≡ (ok tt, w'))
    unfolding deregister reregister
    deregister_missing self fd id i o w w' ks d p q = (
      fine self.kq (deregister_changes c fd) ks w w' d p,
      fine self.kq (reregister_changes c fd id i o) ks w w' d q,
    )

module _ (c : KqueueFlags) {W : Type 0} (kernel : KqueueKernel W) where
  abbrev pub Written : ℕ → List Kevent → List ℕ → W → Type 0
  Written kq ks ignored w =
      (entries : List Kevent) × (w' : W) × (kernel.changes kq ks w ≡ (ok entries, w'))
      × (kevent_register c kernel kq ks ignored w ≡ (check_errors c kernel entries ignored, w'))

  abbrev pub WasInterrupted : ℕ → List Kevent → List ℕ → W → Type 0
  WasInterrupted kq ks ignored w =
      (w' : W) × (kernel.changes kq ks w ≡ (err interrupted, w'))
      × (kevent_register c kernel kq ks ignored w ≡ (ok tt, w'))

  abbrev pub Failed : ℕ → List Kevent → List ℕ → W → Type 0
  Failed kq ks ignored w =
      (e : IoError) × (w' : W) × (kernel.changes kq ks w ≡ (err e, w'))
      × (e ≢ interrupted)
      × (kevent_register c kernel kq ks ignored w ≡ (err e, w'))

  -- The three outcomes of `kevent_register`.
  pub kevent_register_cases :
      (kq : ℕ) (ks : List Kevent) (ignored : List ℕ) (w : W)
      → Written kq ks ignored w ⊎ (WasInterrupted kq ks ignored w ⊎ Failed kq ks ignored w)
  unfolding kevent_register
  kevent_register_cases kq ks ignored w = go (kernel.changes kq ks w) refl
    where
      go :
          (x : IoResult (List Kevent) × W)
          → kernel.changes kq ks w ≡ x
          → Written kq ks ignored w ⊎ (WasInterrupted kq ks ignored w ⊎ Failed kq ks ignored w)
      go (ok entries, w') e = inl (
        entries,
        w',
        e,
        rw (kevent_register, e) (ap (λ x. (check_errors c kernel entries ignored, x.1)) e),
      )
      go (err interrupted, w') e =
          inr (inl (w', e, rw (kevent_register, e) (ap (λ x. (ok tt, x.1)) e)))
      go (err would_block, w') e = inr (
          inr (
            would_block,
            w',
            e,
            (λ p. ground arith),
            rw (kevent_register, e) (ap (λ x. (err would_block, x.1)) e),
          ))
      go (err in_progress, w') e = inr (
          inr (
            in_progress,
            w',
            e,
            (λ p. ground arith),
            rw (kevent_register, e) (ap (λ x. (err in_progress, x.1)) e),
          ))
      go (err (raw n), w') e = inr (
          inr (
            raw n,
            w',
            e,
            (λ p. ground arith),
            rw (kevent_register, e) (ap (λ x. (err (raw n), x.1)) e),
          ))
