-- ===== src/Sys/Kqueue/Settings.antt =====
-- src/sys/unix/kqueue.rs: changes that set filters, and what is left when some of them are refused.
use gaea.Base.{
  All, some, suc, ap₂, ◌≢◌, ok, err, IoError, ℕ, suc, ◌≡◌, refl, sym, ap, ap₂, ◌∙◌, ◌≢◌, ◌⊎◌, inl,
  inr, true, false, ◌&&◌, Option, some, List, [], ◌∷◌, arith, ◌==◌, Bool-cases, All, ok, err,
  IoError,
}
use gaea.Event.{EventId}
use gaea.Sys.Kqueue.Abi.{Kevent, KqueueFlags, KqueueKernel}
use gaea.Sys.Kqueue.{ignores, is_error, check_errors}
use gaea.Sys.Kqueue.Knotes.{
  Knotes, Same, put, AreChanges, apply, attempt, receipt, apply_all, none_refused, contains-bit_or,
  itself,
}

-- What a filter of a descriptor is set to.
pub record Setting : Type 0 where
  pub ident : ℕ
  pub filter : ℕ
  pub value : Option EventId

unfoldable pub set_all : List Setting → Knotes → Knotes
set_all [] m = m
set_all (s ∷ ss) m = set_all ss (put m s.ident s.filter s.value)

-- What settings make of a filter is what it was, or it does not depend on that.
set_all_local :
    (ss : List Setting) (k f : ℕ)
    → ((m : Knotes) → set_all ss m k f ≡ m k f)
      ⊎ ((m n : Knotes) → set_all ss m k f ≡ set_all ss n k f)
unfolding set_all
set_all_local [] k f = inl (λ m. refl)
set_all_local (s ∷ ss) k f = elim (set_all_local ss k f) [
  | inr const ↦ inr (λ m n. const _ _)
  | inl same ↦ elim (Bool-cases (k == s.ident && (f == s.filter))) [
    | inl hit ↦ inr (λ m n. same _ ∙ rw hit refl ∙ sym (same _))
    | inr miss ↦ inl (λ m. same _ ∙ rw miss refl)
  ]
]

pub set_all-Same :
    (ss : List Setting) (m n : Knotes) → Same m n → Same (set_all ss m) (set_all ss n)
set_all-Same ss m n h k f = elim (set_all_local ss k f) [
  | inl same ↦ same m ∙ h k f ∙ sym (same n)
  | inr const ↦ const m n
]

put-same : (m : Knotes) (i g : ℕ) (v : Option EventId) → put m i g v i g ≡ v
put-same m i g v = let hit : (i == i && (g == g)) ≡ true = ground arith in rw hit refl

-- Later settings leave what earlier ones have set.
abbrev pub Coherent : List Setting → Type 0
Coherent [] = Unit {0}
Coherent (s ∷ ss) =
    ((m : Knotes) → set_all ss (put m s.ident s.filter s.value) s.ident s.filter ≡ s.value)
    × Coherent ss

set_all-keeps :
    (id : EventId) (ss : List Setting) (m : Knotes) (i g : ℕ)
    → All (λ s. s.value ≡ some id) ss
    → m i g ≡ some id
    → set_all ss m i g ≡ some id
unfolding set_all
set_all-keeps id [] m i g all e = e
set_all-keeps id (s ∷ ss) m i g (same, all) e =
    set_all-keeps id ss _ i g all (elim (Bool-cases (i == s.ident && (g == s.filter))) [
      | inl hit ↦ rw hit same
      | inr miss ↦ rw miss e
    ])

-- Settings of one identifier only are coherent.
pub All-Coherent :
    (id : EventId) (ss : List Setting) → All (λ s. s.value ≡ some id) ss → Coherent ss
All-Coherent id [] all = tt
All-Coherent id (s ∷ ss) (same, all) = (
  λ m.
      set_all-keeps id ss _ s.ident s.filter all (put-same m s.ident s.filter s.value ∙ same)
      ∙ sym same,
  All-Coherent id ss all,
)

-- Each filter is as it was before or as it is after.
abbrev pub Partly : Knotes → Knotes → Knotes → Type 0
Partly before after m = (k f : ℕ) → (m k f ≡ before k f) ⊎ (m k f ≡ after k f)

put-hit :
    (m : Knotes) (i g k f : ℕ) (v : Option EventId)
    → ((k ≡ i) × (f ≡ g)) ⊎ (put m i g v k f ≡ m k f)
put-hit m i g k f v = elim (Bool-cases (k == i && (f == g))) [
  | inl hit ↦ inl (ground arith, ground arith)
  | inr miss ↦ inr (rw miss refl)
]

module _ (c : KqueueFlags) (ignored : List ℕ) where
  -- The change makes the setting, with an entry that is no error.
  abbrev pub Makes : Kevent → Setting → Type 0
  Makes k s =
      (m : Knotes)
      → Same (apply c k m).0 (put m s.ident s.filter s.value)
        × (((apply c k m).1 ≡ 0) ⊎ (ignores ignored (apply c k m).1 ≡ true))

  abbrev pub MakeAll : List Kevent → List Setting → Type 0
  MakeAll [] [] = Unit {0}
  MakeAll (k ∷ ks) (s ∷ ss) = Makes k s × MakeAll ks ss
  MakeAll ks ss = ⊥

  fine :
      (k : Kevent) (n : ℕ)
      → (n ≡ 0) ⊎ (ignores ignored n ≡ true)
      → is_error c ignored (receipt c k n) ≡ false
  unfolding is_error
  fine k n h = ground arith

  -- One change makes its setting, or it is refused and does nothing.
  abbrev Tried : Kevent → Setting → ℕ → Knotes → Type 0
  Tried k s r m =
      (Same (attempt c k r m).0 (put m s.ident s.filter s.value)
        × (is_error c ignored (receipt c k (attempt c k r m).1) ≡ false))
      ⊎ (((attempt c k r m).0 ≡ m) × (is_error c ignored (receipt c k (attempt c k r m).1) ≡ true))

  -- Without a refusal all settings are made.
  pub apply_all-none_refused :
      (ks : List Kevent) (ss : List Setting) (m : Knotes)
      → MakeAll ks ss
      → Same (apply_all c ks none_refused m).0 (set_all ss m)
  unfolding apply_all attempt set_all
  apply_all-none_refused [] [] m make = λ i g. refl
  apply_all-none_refused [] (s ∷ ss) m make = absurd make
  apply_all-none_refused (k ∷ ks) [] m make = absurd make
  apply_all-none_refused (k ∷ ks) (s ∷ ss) m (makes, make) =
      λ i g. apply_all-none_refused ks ss _ make i g ∙ set_all-Same ss _ _ (makes m).0 i g

  module _ (are : AreChanges c) (counts : (r : ℕ) → r ≢ c.enoent → ignores ignored r ≡ false) where
    wrong : (k : Kevent) (r : ℕ) → r ≢ 0 → r ≢ c.enoent → is_error c ignored (receipt c k r) ≡ true
    unfolding is_error
    wrong k r some_ other = ground (
      arith,
      contains-bit_or c k.flags c.ev_error c.ev_error,
      itself c c.ev_error are.error_error,
      counts r other,
    )

    attempt-Tried :
        (k : Kevent) (s : Setting) (r : ℕ) (m : Knotes)
        → Makes k s
        → (r ≡ 0) ⊎ (r ≢ c.enoent)
        → Tried k s r m
    unfolding attempt
    attempt-Tried k s r m makes kind = elim (Bool-cases (r == 0)) [
      | inl zero_ ↦ rw zero_ (inl ((makes m).0, fine k _ (makes m).1))
      | inr some_ ↦ elim kind [
        | inl e ↦ absurd (ground arith)
        | inr other ↦ rw some_ (inr (refl, wrong k r (λ e. ground arith) other))
      ]
    ]

    module _ {W : Type 0} (kernel : KqueueKernel W) where
      -- If no entry counts as an error, all settings were made.
      pub apply_all-set_all :
          (ks : List Kevent) (ss : List Setting) (refusals : ℕ → ℕ) (m : Knotes)
          → MakeAll ks ss
          → ((n : ℕ) → (refusals n ≡ 0) ⊎ (refusals n ≢ c.enoent))
          → ((check_errors c kernel (apply_all c ks refusals m).1 ignored ≡ ok tt)
              × Same (apply_all c ks refusals m).0 (set_all ss m))
            ⊎ ((e : IoError) × (check_errors c kernel (apply_all c ks refusals m).1 ignored
                  ≡ err e))
      unfolding apply_all set_all check_errors
      apply_all-set_all [] [] refusals m make kinds = inl (refl, λ k f. refl)
      apply_all-set_all [] (s ∷ ss) refusals m make kinds = absurd make
      apply_all-set_all (k ∷ ks) [] refusals m make kinds = absurd make
      apply_all-set_all (k ∷ ks) (s ∷ ss) refusals m (makes, make) kinds =
          elim (attempt-Tried k s (refusals 0) m makes (kinds 0)) [
            | inl (same, good) ↦
                elim (apply_all-set_all ks ss (λ n. refusals (suc n)) (attempt c k (refusals 0) m).0
                  make (λ n. kinds (suc n))) [
                    | inl (fine_, all) ↦
                        rw good (inl (fine_, λ i g. all i g ∙ set_all-Same ss _ _ same i g))
                    | inr (e, failed) ↦ rw good (inr (e, failed))
                  ]
            | inr (same, bad) ↦ rw bad (inr (_, refl))
          ]

      -- Whatever was refused, each filter is as it was or as the settings make it.
      pub apply_all-Partly :
          (ks : List Kevent) (ss : List Setting) (refusals : ℕ → ℕ) (m : Knotes)
          → Coherent ss
          → MakeAll ks ss
          → ((n : ℕ) → (refusals n ≡ 0) ⊎ (refusals n ≢ c.enoent))
          → Partly m (set_all ss m) (apply_all c ks refusals m).0
      unfolding apply_all set_all
      apply_all-Partly [] [] refusals m coherent make kinds = λ i g. inl refl
      apply_all-Partly [] (s ∷ ss) refusals m coherent make kinds = absurd make
      apply_all-Partly (k ∷ ks) [] refusals m coherent make kinds = absurd make
      apply_all-Partly (k ∷ ks) (s ∷ ss) refusals m (stays, coherent) (makes, make) kinds = λ i g.
          let rest =
            apply_all-Partly ks ss (λ n. refusals (suc n)) (attempt c k (refusals 0) m).0 coherent
              make (λ n. kinds (suc n)) in
          elim (attempt-Tried k s (refusals 0) m makes (kinds 0)) [
            | inl (same, good) ↦ elim (rest i g) [
              | inr e ↦ inr (e ∙ set_all-Same ss _ _ same i g)
              | inl e ↦ elim (put-hit m s.ident s.filter i g s.value) [
                | inr other ↦ inl (e ∙ same i g ∙ other)
                | inl (a, b) ↦ inr (
                    e
                    ∙ same i g
                    ∙ ap₂ (put m s.ident s.filter s.value) a b
                    ∙ put-same m s.ident s.filter s.value
                    ∙ sym (stays m)
                    ∙ ap₂ (set_all ss (put m s.ident s.filter s.value)) (sym a) (sym b))
              ]
            ]
            | inr (same, bad) ↦ elim (rest i g) [
              | inl e ↦ inl (e ∙ ap (λ x. x i g) same)
              | inr e ↦ elim (set_all_local ss i g) [
                | inl untouched ↦ inl (e ∙ untouched _ ∙ ap (λ x. x i g) same)
                | inr const ↦ inr (e ∙ const _ _)
              ]
            ]
          ]
