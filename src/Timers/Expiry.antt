-- ===== src/Timers/Expiry.antt =====
-- src/timers.rs: the expired deadlines of a heap are those at the front of the ordered list.
use mathlib.Core.List.{Mem, mem-cons_self}
use mathlib.Core.List.Perm
use gaea.Base.{
  ℕ, zero, suc, ◌≤◌, ◌<◌, ◌≡◌, refl, sym, ap, ◌∙◌, ◌⊎◌, inl, inr, true, List, [], ◌∷◌, ◌++◌, arith,
  leb, length, take, drop,
}
use gaea.Event.{Event}
use gaea.Event.Sink.{Sink, IsSink}
use gaea.Timers.Heap.{Deadline, MinHeap, IsMinHeap}
use gaea.Timers.Delivery.{Leads, AllExpired, Delivers}
use gaea.Timers.Ordered.{ordered, expired, insert_least, ordered-perm, perm-ordered}

expired-later :
    (now : ℕ) (ds : List Deadline)
    → ((x : Deadline) → Mem x ds → now < x.deadline)
    → expired now ds ≡ []
unfolding expired
expired-later now [] h = refl
expired-later now (d ∷ ds) h = let later = h d mem-cons_self in ground arith

leb-le : (a b : ℕ) → a ≤ b → leb a b ≡ true
leb-le a b h = ground arith

expired-append :
    (now n : ℕ) (out rest : List Deadline)
    → AllExpired now out
    → length out ≤ n
    → (length out ≡ n) ⊎ (expired now rest ≡ [])
    → take n (expired now (out ++ rest)) ≡ out
unfolding expired
expired-append now zero [] rest past few all = refl
expired-append now (suc n) [] rest past few (inl e) = absurd (omega arith)
expired-append now (suc n) [] rest past few (inr e) = rw e refl
expired-append now zero (d ∷ out) rest past few all = absurd (omega arith)
expired-append now (suc n) (d ∷ out) rest (past, pasts) few all =
    let ih =
      expired-append now n out rest pasts (omega arith)
        (elim all [ inl e ↦ inl (omega arith) | inr e ↦ inr e ]) in
    rw (leb-le _ _ past) (ap (λ l. d ∷ l) ih)

Leads-ordered :
    (out rest : List Deadline) → Leads out rest → ordered (out ++ rest) ≡ out ++ ordered rest
unfolding ordered
Leads-ordered [] rest h = refl
Leads-ordered (d ∷ out) rest (least, h) =
    insert_least d (out ++ rest) least ∙ ap (λ l. d ∷ l) (Leads-ordered out rest h)

pub ordered_nil : ordered [] ≡ []
unfolding ordered
ordered_nil = refl

drop-append : {A : Type 0} (xs ys : List A) → drop (length xs) (xs ++ ys) ≡ ys
drop-append [] ys = refl
drop-append (x ∷ xs) ys = drop-append xs ys

module _ {H ES : Type 0} (heap : MinHeap H) (heap_law : IsMinHeap heap) (sink : Sink ES)
    (contents : ES → List Event) (sink_law : IsSink sink contents) where
  -- What a poll delivers is decided by the ordered list.
  pub Delivers-ordered :
      (now n : ℕ) (h : H) (s : ES) (out : List Deadline) (h' : H) (s' : ES)
      → Delivers heap heap_law sink contents sink_law now n h s out h' s'
      → (out ≡ take n (expired now (ordered (heap.vec h))))
        × (ordered (heap.vec h') ≡ drop (length out) (ordered (heap.vec h)))
  Delivers-ordered now n h s out h' s' del =
      let split = sym (Leads-ordered out (heap.vec h') del.in_order) ∙ perm-ordered del.kept in
      let all : (length out ≡ n) ⊎ (expired now (ordered (heap.vec h')) ≡ []) =
        elim del.exhaustive [
          | inl e ↦ inl e
          | inr f ↦ inr (
              expired-later now (ordered (heap.vec h'))
                (λ x m. f x ((Perm.mem_iff (ordered-perm (heap.vec h'))).0 m)))
        ] in
      (
        sym (expired-append now n out (ordered (heap.vec h')) del.expired del.bounded all)
            ∙ ap (λ q. take n (expired now q)) split,
        sym (drop-append out (ordered (heap.vec h'))) ∙ ap (drop (length out)) split,
      )
