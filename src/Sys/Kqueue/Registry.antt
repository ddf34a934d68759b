-- ===== src/Sys/Kqueue/Registry.antt =====
-- src/sys/unix/kqueue.rs: what the registrations make of the registered filters.
use gaea.Base.{
  ℕ, bit_or, ◌≡◌, refl, ap, ◌∙◌, ◌⊎◌, inl, inr, false, Option, some, List, [], ◌∷◌, ok, err,
  IoError, IoResult,
}
use gaea.Event.{EventId}
use gaea.Os.Interests.{Interests}
use gaea.Sys.Kqueue.Abi.{Kevent, KqueueFlags, KqueueKernel}
use gaea.Sys.Kqueue.{new_kevent, check_errors, ignores, kevent_register}
use gaea.Sys.Kqueue.Changes.{kevent_register_cases}
use gaea.Sys.Kqueue.Settings.{
  Setting, set_all, Coherent, Partly, MakeAll, apply_all-none_refused, apply_all-set_all,
  apply_all-Partly,
}
use gaea.Base.{◌≢◌}
use gaea.Sys.Kqueue.Knotes.{Knotes, Same, AreChanges, HasKnotes}

module _ (c : KqueueFlags) (are : AreChanges c) where
  pub counts_all : (r : ℕ) → r ≢ c.enoent → ignores [] r ≡ false
  unfolding ignores
  counts_all r h = refl

  abbrev additions : ℕ → ℕ → EventId → List ℕ → List Kevent
  additions fd flags id [] = []
  additions fd flags id (f ∷ fs) =
      new_kevent fd f (bit_or flags c.ev_add) id ∷ additions fd flags id fs

  abbrev added : ℕ → EventId → List ℕ → List Setting
  added fd id [] = []
  added fd id (f ∷ fs) = record { ident = fd; filter = f; value = some id } ∷ added fd id fs

  -- The two filters of a descriptor.
  abbrev both : ℕ → Option EventId → Option EventId → List Setting
  both fd v u =
      record { ident = fd; filter = c.evfilt_write; value = v }
      ∷ record { ident = fd; filter = c.evfilt_read; value = u }
      ∷ []

  module _ {W : Type 0} (kernel : KqueueKernel W) (kq : ℕ) (knotes : W → Knotes)
      (law : HasKnotes c kernel kq knotes) where
    -- A registration either does all that it promises, or it fails, and then each filter is as it
    -- was or as promised.
    abbrev pub Outcome : Knotes → W → IoResult (Unit {0}) × W → Type 0
    Outcome promised w (r, w') =
        ((r ≡ ok tt) × Same (knotes w') promised)
        ⊎ ((e : IoError) × (r ≡ err e) × Partly (knotes w) promised (knotes w'))

    pub kevent_register-Outcome :
        (ks : List Kevent) (ss : List Setting) (ignored : List ℕ) (promised : Knotes) (w : W)
        → ((r : ℕ) → r ≢ c.enoent → ignores ignored r ≡ false)
        → Coherent ss
        → MakeAll c ignored ks ss
        → Same (set_all ss (knotes w)) promised
        → Outcome promised w (kevent_register c kernel kq ks ignored w)
    kevent_register-Outcome ks ss ignored promised w counts coherent make promise =
        elim (kevent_register_cases c kernel kq ks ignored w) [
          | inl (entries, w', e, done) ↦
              let (refusals, kinds, these, same) = law.applied ks entries w w' e in
              let checked = ap (λ l. check_errors c kernel l ignored) these in
              let partly =
                apply_all-Partly c ignored are counts kernel ks ss refusals (knotes w) coherent make
                  kinds in
              elim (apply_all-set_all c ignored are counts kernel ks ss refusals (knotes w) make
                kinds) [
                  | inl (fine, all) ↦
                      rw done (inl (checked ∙ fine, λ k f. same k f ∙ all k f ∙ promise k f))
                  | inr (x, failed) ↦ rw done (
                      inr (
                        x,
                        checked ∙ failed,
                        λ k f. elim (partly k f) [
                          | inl p ↦ inl (same k f ∙ p)
                          | inr p ↦ inr (same k f ∙ p ∙ promise k f)
                        ],
                      ))
                ]
          | inr (inl (w', e, done)) ↦
              let all = apply_all-none_refused c ignored ks ss (knotes w) make in
              rw done (inl (refl, λ k f. law.was_interrupted ks w w' e k f ∙ all k f ∙ promise k f))
          | inr (inr (x, w', e, other, done)) ↦
              rw done (inr (x, refl, λ k f. inl (law.failed ks w w' x e other k f)))
        ]
