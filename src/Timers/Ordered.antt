-- ===== src/Timers/Ordered.antt =====
-- src/timers.rs against a list of deadlines that is kept in order: what the timers do does not
-- depend on the heap that they are built on.
use mathlib.Core.Logic.{∥∥₁_elim}
use mathlib.Core.List.{Mem, Permᴰ, mem-cons_self}
use mathlib.Core.List.Perm
use gaea.Base.{
  ℕ, ◌≡◌, refl, sym, ap, ap₂, ◌∙◌, inl, inr, true, false, List, [], ◌∷◌, Perm, arith, leb,
  if◌then◌else◌, Bool-cases,
}
use gaea.Timers.Heap.{Deadline, deadline_le, deadline_le_total, deadline_le_trans}

-- A deadline put into its place in an ordered list.
unfoldable pub insert : Deadline → List Deadline → List Deadline
unfolding deadline_le
insert d [] = d ∷ []
insert d (x ∷ xs) = let rest = insert d xs in if deadline_le d x then d ∷ x ∷ xs else x ∷ rest

unfoldable pub ordered : List Deadline → List Deadline
unfolding insert
ordered [] = []
ordered (d ∷ ds) = insert d (ordered ds)

-- Those at the front that have passed at a time.
unfoldable pub expired : ℕ → List Deadline → List Deadline
expired now [] = []
expired now (d ∷ ds) = let rest = expired now ds in if leb d.deadline now then d ∷ rest else []

insert-first :
    (d x : Deadline) (xs : List Deadline) → deadline_le d x ≡ true → insert d (x ∷ xs) ≡ d ∷ x ∷ xs
unfolding insert
insert-first d x xs e = rw e refl

insert-later :
    (d x : Deadline) (xs : List Deadline)
    → deadline_le d x ≡ false
    → insert d (x ∷ xs) ≡ x ∷ insert d xs
unfolding insert
insert-later d x xs e = rw e refl

deadline_le_antisym : (a b : Deadline) → deadline_le a b ≡ true → deadline_le b a ≡ true → a ≡ b
unfolding deadline_le
deadline_le_antisym a b h k =
    ap₂ (λ n i. record { deadline = n; id = i }) (ground arith) (ground arith)

-- Putting the later of two deadlines into a list that starts with the earlier one.
insert-second :
    (a b : Deadline) (ds : List Deadline)
    → deadline_le a b ≡ true
    → (deadline_le b a ≡ true → insert b ds ≡ b ∷ ds)
    → insert b (a ∷ ds) ≡ a ∷ insert b ds
insert-second a b ds h k = elim (Bool-cases (deadline_le b a)) [
  | inl e ↦
      insert-first b a ds e
      ∙ ap₂ (λ x y. x ∷ y ∷ ds) (deadline_le_antisym b a e h) (deadline_le_antisym a b h e)
      ∙ ap (λ l. a ∷ l) (sym (k e))
  | inr e ↦ insert-later b a ds e
]

insert-first_second :
    (a b : Deadline) (ds : List Deadline)
    → deadline_le a b ≡ true
    → insert a (insert b ds) ≡ insert b (insert a ds)
unfolding insert
insert-first_second a b [] h = insert-first a b [] h ∙ sym (insert-second a b [] h (λ e. refl))
insert-first_second a b (x ∷ xs) h = elim (Bool-cases (deadline_le b x)) [
  | inl e ↦
      let f = deadline_le_trans a b x h e in
      ap (insert a) (insert-first b x xs e)
      ∙ insert-first a b (x ∷ xs) h
      ∙ ap (λ l. a ∷ l) (sym (insert-first b x xs e))
      ∙ sym (insert-second a b (x ∷ xs) h (λ _. insert-first b x xs e))
      ∙ ap (insert b) (sym (insert-first a x xs f))
  | inr e ↦ elim (Bool-cases (deadline_le a x)) [
    | inl f ↦
        ap (insert a) (insert-later b x xs e)
        ∙ insert-first a x (insert b xs) f
        ∙ ap (λ l. a ∷ l) (sym (insert-later b x xs e))
        ∙ sym (
            insert-second a b (x ∷ xs) h
              (λ g. absurd (ground (arith, deadline_le_trans b a x g f))))
        ∙ ap (insert b) (sym (insert-first a x xs f))
    | inr f ↦
        ap (insert a) (insert-later b x xs e)
        ∙ insert-later a x (insert b xs) f
        ∙ ap (λ l. x ∷ l) (insert-first_second a b xs h)
        ∙ sym (insert-later b x (insert a xs) e)
        ∙ ap (insert b) (sym (insert-later a x xs f))
  ]
]

insert-insert :
    (a b : Deadline) (ds : List Deadline) → insert a (insert b ds) ≡ insert b (insert a ds)
insert-insert a b ds = elim (Bool-cases (deadline_le a b)) [
  | inl e ↦ insert-first_second a b ds e
  | inr e ↦ sym (insert-first_second b a ds (deadline_le_total a b e))
]

insert-perm : (d : Deadline) (ds : List Deadline) → Perm (insert d ds) (d ∷ ds)
unfolding insert
insert-perm d [] = Perm.rfl
insert-perm d (x ∷ xs) = elim (Bool-cases (deadline_le d x)) [
  | inl e ↦ rw e Perm.rfl
  | inr e ↦ rw e (Perm.trans (Perm.cons x (insert-perm d xs)) (Perm.swap d x xs))
]

pub ordered-perm : (ds : List Deadline) → Perm (ordered ds) ds
unfolding ordered
ordered-perm [] = Perm.rfl
ordered-perm (d ∷ ds) = Perm.trans (insert-perm d (ordered ds)) (Perm.cons d (ordered-perm ds))

Deadlines_set : IsSet (List Deadline)
Deadlines_set = hlevel

Permᴰ-ordered : {ds es : List Deadline} → Permᴰ ds es → ordered ds ≡ ordered es
unfolding ordered
Permᴰ-ordered (Permᴰ.trans first second) = Permᴰ-ordered first ∙ Permᴰ-ordered second
Permᴰ-ordered (Permᴰ.swap {a = a} {b = b} {l = l} p q) =
    insert-insert a b (ordered l) ∙ ap₂ (λ x y. insert x (insert y (ordered l))) q p
Permᴰ-ordered (Permᴰ.cons p rest) = ap₂ insert p (Permᴰ-ordered rest)
Permᴰ-ordered Permᴰ.nil = refl

-- The ordered list does not depend on the order of the list.
pub perm-ordered : {ds es : List Deadline} → Perm ds es → ordered ds ≡ ordered es
perm-ordered p = ∥∥₁_elim p (Deadlines_set _ _) Permᴰ-ordered

-- A deadline that comes before all others is put first.
pub insert_least :
    (d : Deadline) (ds : List Deadline)
    → ((x : Deadline) → Mem x ds → deadline_le d x ≡ true)
    → insert d (ordered ds) ≡ d ∷ ordered ds
unfolding insert
insert_least d ds least = go (ordered ds) (λ x m. least x ((Perm.mem_iff (ordered-perm ds)).0 m))
  where
    go :
        (es : List Deadline)
        → ((x : Deadline) → Mem x es → deadline_le d x ≡ true)
        → insert d es ≡ d ∷ es
    go [] h = refl
    go (x ∷ es) h = insert-first d x es (h x mem-cons_self)
