-- ===== src/Timers/Scan.antt =====
-- An implementation of the heap of `Heap`, by a scan for the least deadline: it shows that the
-- behaviour asked of the heap can be met, and the tests run on it.
use mathlib.Core.Logic.Or
use mathlib.Core.Bool.{Bool-set}
use mathlib.Core.List.{Mem, mem-cons, not-mem-nil}
use mathlib.Core.List.Perm
use mathlib.Core.Option.{some-injective}
use gaea.Base.{
  ◌≡◌, refl, ap, subst, inl, inr, true, Option, none, some, List, [], ◌∷◌, Perm, if◌then◌else◌,
  Bool-cases,
}
use gaea.Timers.Heap.{
  Deadline, deadline_le, deadline_le_total, deadline_le_trans, deadline_le_refl, MinHeap, IsMinHeap,
}

-- The least of `x` and the deadlines of a list, and the others.
select : Deadline → List Deadline → Deadline × List Deadline
select x [] = (x, [])
select x (y ∷ ys) =
    if deadline_le x y
    then (let (m, rest) = select x ys in (m, y ∷ rest))
    else (let (m, rest) = select y ys in (m, x ∷ rest))

select-perm :
    (x : Deadline) (ys : List Deadline) → Perm ((select x ys).0 ∷ (select x ys).1) (x ∷ ys)
unfolding select
select-perm x [] = Perm.rfl
select-perm x (y ∷ ys) = elim (Bool-cases (deadline_le x y)) [
  | inl e ↦ rw e (
      Perm.trans (Perm.swap y _ _) (Perm.trans (Perm.cons y (select-perm x ys)) (Perm.swap x y ys)))
  | inr e ↦ rw e (Perm.trans (Perm.swap x _ _) (Perm.cons x (select-perm y ys)))
]

select_le :
    (x : Deadline) (ys : List Deadline) (z : Deadline)
    → deadline_le x z ≡ true
    → deadline_le (select x ys).0 z ≡ true
unfolding select
select_le x [] z h = h
select_le x (y ∷ ys) z h = elim (Bool-cases (deadline_le x y)) [
  | inl e ↦ rw e (select_le x ys z h)
  | inr e ↦ rw e (select_le y ys z (deadline_le_trans y x z (deadline_le_total x y e) h))
]

select-least :
    (x : Deadline) (ys : List Deadline) (z : Deadline)
    → Mem z ys
    → deadline_le (select x ys).0 z ≡ true
unfolding select
select-least x [] z m = absurd (not-mem-nil m)
select-least x (y ∷ ys) z m = elim (Bool-cases (deadline_le x y)) [
  | inl e ↦
      rw e (
        Or.elim (Bool-set _ _) (mem-cons.0 m) (λ p. select_le x ys z (rw p e))
          (select-least x ys z))
  | inr e ↦ rw e (
      Or.elim (Bool-set _ _) (mem-cons.0 m) (λ p. select_le y ys z (rw p (deadline_le_refl y)))
        (select-least y ys z))
]

scan_peek : List Deadline → Option Deadline
scan_peek [] = none
scan_peek (x ∷ xs) = some (select x xs).0

scan_pop : List Deadline → Option (Deadline × List Deadline)
scan_pop [] = none
scan_pop (x ∷ xs) = some (select x xs)

unfoldable pub scan_heap : MinHeap (List Deadline)
unfolding select scan_peek scan_pop deadline_le
scan_heap = record {
  new = [];
  push = λ h d. d ∷ h;
  peek = scan_peek;
  pop = scan_pop;
  vec = λ h. h;
  from = λ ds. ds;
}

scan_peek-none : (h : List Deadline) → scan_peek h ≡ none → h ≡ []
unfolding scan_peek
scan_peek-none [] e = refl
scan_peek-none (x ∷ xs) e = cc

scan_peek-least :
    (h : List Deadline) (d x : Deadline) → scan_peek h ≡ some d → Mem x h → deadline_le d x ≡ true
unfolding scan_peek
scan_peek-least [] d x e m = absurd (not-mem-nil m)
scan_peek-least (y ∷ ys) d x e m =
    subst (λ z. deadline_le z x ≡ true) (some-injective _ _ e)
      (Or.elim (Bool-set _ _) (mem-cons.0 m) (λ p. select_le y ys x (rw p (deadline_le_refl y)))
        (select-least y ys x))

scan_pop-peek :
    (h : List Deadline) (d : Deadline)
    → scan_peek h ≡ some d
    → (h' : List Deadline) × (scan_pop h ≡ some (d, h')) × Perm (d ∷ h') h
unfolding scan_peek scan_pop
scan_pop-peek [] d e = cc
scan_pop-peek (x ∷ xs) d e = (
  (select x xs).1,
  ap (λ z. some (z, (select x xs).1)) (some-injective _ _ e),
  subst (λ z. Perm (z ∷ (select x xs).1) (x ∷ xs)) (some-injective _ _ e) (select-perm x xs),
)

pub scan_heap-IsMinHeap : IsMinHeap scan_heap
unfolding scan_heap
scan_heap-IsMinHeap = record {
  vec-new = refl;
  vec-push = λ h d. Perm.rfl;
  vec-from = λ ds. Perm.rfl;
  peek-none = scan_peek-none;
  peek-least = scan_peek-least;
  pop-peek = scan_pop-peek;
}
