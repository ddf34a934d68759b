-- ===== src/Timers/Deadlines.antt =====
-- src/timers.rs: adding and removing deadlines.
use mathlib.Core.Logic.Or
use mathlib.Core.Bool.{Bool-set}
use mathlib.Core.List.{Mem, mem-cons, not-mem-nil}
use mathlib.Core.List.Perm
use gaea.Base.{
  ℕ, suc, ◌+◌, ◌≡◌, refl, ◌⊎◌, inl, inr, Bool, true, false, none, some, List, [], ◌∷◌, Perm, arith,
  ◌==◌, Bool-cases, length-perm,
}
use gaea.Timers.Heap.{Deadline, MinHeap, IsMinHeap}
use gaea.Timers.{Timers, last_first, fill_gap, swap_remove, position, add_timeout, remove_deadline}

module _ {A : Type 0} where
  last_first-perm : (x : A) (xs : List A) → Perm (last_first x xs) (x ∷ xs)
  unfolding last_first
  last_first-perm x [] = Perm.rfl
  last_first-perm x (y ∷ ys) = go (last_first-perm y ys) (last_first y ys) refl
    where
      go :
          Perm (last_first y ys) (y ∷ ys)
          → (l : List A) → last_first y ys ≡ l
          → Perm (last_first x (y ∷ ys)) (x ∷ y ∷ ys)
      go ih [] e = absurd (grind (arith, length-perm ih))
      go ih (l ∷ rest) e =
          rw (e, last_first) (Perm.trans (Perm.swap x l rest) (Perm.cons x (rw e at ih)))

  fill_gap-perm : (xs : List A) → Perm (fill_gap xs) xs
  unfolding fill_gap
  fill_gap-perm [] = Perm.rfl
  fill_gap-perm (x ∷ xs) = last_first-perm x xs

  -- The first item that passes a test, if there is one, is found and can be removed by its index.
  abbrev Found : (A → Bool) → List A → Type 0
  Found p xs =
      ((position p xs ≡ none) × ((x : A) → Mem x xs → p x ≡ false))
      ⊎ ((i : ℕ) × (y : A) × (rest : List A) × (position p xs ≡ some i)
          × (swap_remove xs i ≡ some (y, rest))
          × (p y ≡ true)
          × Perm (y ∷ rest) xs)

  position-Found : (p : A → Bool) (xs : List A) → Found p xs
  unfolding position swap_remove
  position-Found p [] = inl (refl, λ x m. absurd (not-mem-nil m))
  position-Found p (x ∷ xs) = elim (Bool-cases (p x)) [
    | inl hit ↦ inr (0, x, fill_gap xs, rw hit, refl, hit, Perm.cons x (fill_gap-perm xs))
    | inr miss ↦ elim (position-Found p xs) [
      | inl (none_found, all_miss) ↦ inl (
        rw (miss, none_found),
        λ y m. Or.elim (Bool-set _ _) (mem-cons.0 m) (λ e. rw e miss) (all_miss y),
      )
      | inr (i, y, rest, found, removed, hit, perm) ↦ inr (
        suc i,
        y,
        x ∷ rest,
        rw (miss, found),
        rw (removed, swap_remove),
        hit,
        Perm.trans (Perm.swap x y rest) (Perm.cons x perm),
      )
    ]
  ]

module _ {H : Type 0} (heap : MinHeap H) (heap_law : IsMinHeap heap) where
  -- If the heap behaves as documented, removing a deadline never panics. If no deadline has the id,
  -- the timers are as they were; otherwise exactly one deadline with the id is removed, and all
  -- others stay.
  pub remove_deadline_cases :
      (t : Timers H) (id : ℕ)
      → ((remove_deadline heap t id ≡ some t)
          × ((d : Deadline) → Mem d (heap.vec t.deadlines) → (d.id == id) ≡ false))
        ⊎ ((d : Deadline) × (t' : Timers H) × (remove_deadline heap t id ≡ some t')
            × (d.id ≡ id)
            × Perm (d ∷ heap.vec t'.deadlines) (heap.vec t.deadlines))
  unfolding remove_deadline
  remove_deadline_cases t id = elim (position-Found (λ d. d.id == id) (heap.vec t.deadlines)) [
    | inl (none_found, all_miss) ↦ inl (rw (none_found, remove_deadline), all_miss)
    | inr (i, d, rest, found, removed, hit, perm) ↦ inr (
      d,
      record { deadlines = heap.from rest },
      rw (found, removed, remove_deadline) (ground arith),
      ground arith,
      Perm.trans (Perm.cons d (heap_law.vec-from rest)) perm,
    )
  ]

  -- If the heap behaves as documented, adding a timeout adds the deadline that lies that far past
  -- the time of the clock, and keeps the deadlines that are there.
  pub add_timeout-perm :
      {W : Type 0} (clock : W → ℕ × W) (t : Timers H) (id timeout : ℕ) (w : W)
      → Perm
          (heap.vec (add_timeout heap clock t id timeout w).0.deadlines)
          (record { deadline = (clock w).0 + timeout; id = id } ∷ heap.vec t.deadlines)
  unfolding add_timeout
  add_timeout-perm clock t id timeout w =
      heap_law.vec-push t.deadlines (record { deadline = (clock w).0 + timeout; id = id })
