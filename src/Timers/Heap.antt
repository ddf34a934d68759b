-- ===== src/Timers/Heap.antt =====
-- The `BinaryHeap<Reverse<Deadline>>` of src/timers.rs, as the operations that the file calls and
-- their documented behaviour; `Scan` gives an implementation.
use mathlib.Core.List.{Mem}
use gaea.Base.{
  ℕ, Bool, true, false, ◌≡◌, Option, none, some, List, [], ◌∷◌, Perm, ltb, leb, ◌==◌, ◌||◌, ◌&&◌,
  arith,
}

pub record Deadline : Type 0 where
  pub deadline : ℕ
  pub id : ℕ

-- The derived order: by `deadline`, then by `id`.
unfoldable pub deadline_le : Deadline → Deadline → Bool
deadline_le a b = ltb a.deadline b.deadline || (a.deadline == b.deadline && leb a.id b.id)

-- `vec` is the underlying vector, that of `iter` and `into_vec`. With `Reverse` the greatest item
-- of the heap is the least deadline.
pub record MinHeap (H : Type 0) : Type 0 where
  pub new : H
  pub push : H → Deadline → H
  pub peek : H → Option Deadline
  pub pop : H → Option (Deadline × H)
  pub vec : H → List Deadline
  pub from : List Deadline → H

pub record IsMinHeap {H : Type 0} (heap : MinHeap H) : Type 0 where
  pub vec-new : heap.vec heap.new ≡ []
  pub vec-push : (h : H) (d : Deadline) → Perm (heap.vec (heap.push h d)) (d ∷ heap.vec h)
  pub vec-from : (ds : List Deadline) → Perm (heap.vec (heap.from ds)) ds
  pub peek-none : (h : H) → heap.peek h ≡ none → heap.vec h ≡ []
  pub peek-least :
      (h : H) (d x : Deadline) → heap.peek h ≡ some d → Mem x (heap.vec h) → deadline_le d x ≡ true
  pub pop-peek :
      (h : H) (d : Deadline)
      → heap.peek h ≡ some d
      → (h' : H) × (heap.pop h ≡ some (d, h')) × Perm (d ∷ heap.vec h') (heap.vec h)

pub deadline_le_total : (a b : Deadline) → deadline_le a b ≡ false → deadline_le b a ≡ true
unfolding deadline_le
deadline_le_total a b h = ground arith

pub deadline_le_trans :
    (a b c : Deadline) → deadline_le a b ≡ true → deadline_le b c ≡ true → deadline_le a c ≡ true
unfolding deadline_le
deadline_le_trans a b c h k = ground arith

pub deadline_le_refl : (a : Deadline) → deadline_le a a ≡ true
unfolding deadline_le
deadline_le_refl a = ground arith
