-- ===== src/Timers/Equivalence.antt =====
-- src/timers.rs: the timers do what the ordered list of their deadlines says.
use mathlib.Core.List.{mem-cons_of_mem}
use mathlib.Core.List.Perm
use gaea.Base.{
  ℕ, ◌+◌, ◌-◌, ◌≡◌, refl, sym, ap, ap₂, ◌∙◌, inl, inr, none, some, List, [], ◌∷◌, ◌++◌, map, arith,
  Option-cases, length, take, drop, length-perm,
}
use gaea.Event.{capacity_min, Event}
use gaea.Event.Sink.{less, Sink, IsSink}
use gaea.Timers.{Timers, max_timeout, add_deadline, add_timeout, timeout_at}
use gaea.Timers.Heap.{Deadline, MinHeap, IsMinHeap}
use gaea.Timers.Delivery.{timer_event, poll-Delivers}
use gaea.Timers.Reference.{
  Reference, Running, Call, adding_deadline, adding_timeout, asking, polling, timeout, polled,
  reference_call, reference_run, timers_call, timers_run,
}
use gaea.Timers.Ordered.{insert, ordered, expired, insert_least, ordered-perm, perm-ordered}
use gaea.Timers.Expiry.{Delivers-ordered, ordered_nil}

module _ {H ES : Type 0} (heap : MinHeap H) (heap_law : IsMinHeap heap) (sink : Sink ES)
    (contents : ES → List Event) (sink_law : IsSink sink contents) where
  -- The timers, the sink and the world are as the reference says.
  pub record Agrees {W : Type 0} (r : Running H ES W) (ref : Reference W) : Type 0 where
    pub queue : ordered (heap.vec r.source.deadlines) ≡ ref.queue
    pub events : contents r.sink ≡ ref.events
    pub left : sink.capacity_left r.sink ≡ ref.left
    pub world : r.world ≡ ref.world

  module _ {W E : Type 0} (clock : W → ℕ × W) (panic : E) where
    abbrev CallAgrees : Call → Running H ES W → Reference W → Type 0
    CallAgrees c r ref =
        ((timers_call heap sink clock panic c r).0 ≡ (reference_call clock E c ref).0)
        × Agrees (timers_call heap sink clock panic c r).1 (reference_call clock E c ref).1

    polling-CallAgrees :
        (r : Running H ES W) (ref : Reference W) → Agrees r ref → CallAgrees polling r ref
    unfolding timers_call reference_call
    polling-CallAgrees r ref h =
        let (out, del, fine, same) =
          poll-Delivers heap heap_law sink contents sink_law clock panic r.source r.sink r.world in
        let (o, q) = Delivers-ordered heap heap_law sink contents sink_law _ _ _ _ _ _ _ del in
        let size =
          sym (length-perm (ordered-perm (heap.vec r.source.deadlines))) ∙ ap length h.queue in
        let e =
          o
          ∙ ap₂ take (ap₂ capacity_min h.left size)
              (ap₂ expired (ap (λ w. (clock w).0) h.world) h.queue) in
        (
          ap polled fine,
          record {
            queue = q ∙ ap₂ (λ ds l. drop (length ds) l) e h.queue;
            events = del.stored ∙ ap₂ (λ es ds. es ++ map timer_event ds) h.events e;
            left = del.left ∙ ap₂ (λ c ds. less c (length ds)) h.left e;
            world = same ∙ ap (λ w. (clock w).1) h.world;
          },
        )

    adding-CallAgrees :
        (d : Deadline) (h : H) (q : List Deadline)
        → ordered (heap.vec h) ≡ q
        → ordered (heap.vec (heap.push h d)) ≡ insert d q
    unfolding ordered
    adding-CallAgrees d h q e = perm-ordered (heap_law.vec-push h d) ∙ ap (insert d) e

    first-ordered :
        (h : H) (d : Deadline)
        → heap.peek h ≡ some d
        → (rest : List Deadline) × (ordered (heap.vec h) ≡ d ∷ rest)
    unfolding ordered
    first-ordered h d top =
        let (h₁, popped, perm) = heap_law.pop-peek h d top in
        (
          ordered (heap.vec h₁),
          sym (perm-ordered perm)
              ∙ insert_least d (heap.vec h₁) (λ x m.
                heap_law.peek-least h d x top ((Perm.mem_iff perm).0 (mem-cons_of_mem d m))),
        )

    timeout_at-some :
        (now : ℕ) (t : Timers H) (d : Deadline)
        → heap.peek t.deadlines ≡ some d
        → timeout_at heap now t ≡ some (d.deadline - now)
    unfolding timeout_at
    timeout_at-some now t d e = rw (e, timeout_at) (ap some (ground arith))

    asking-none :
        (r : Running H ES W)
        → heap.peek r.source.deadlines ≡ none
        → timers_call heap sink clock panic asking r ≡ (timeout none, r)
    unfolding timers_call max_timeout
    asking-none r e = rw (e, max_timeout) refl

    asking-some :
        (r : Running H ES W) (d : Deadline)
        → heap.peek r.source.deadlines ≡ some d
        → timers_call heap sink clock panic asking r ≡ (
          timeout (some (d.deadline - (clock r.world).0)),
          record r { world = (clock r.world).1 },
        )
    unfolding timers_call max_timeout
    asking-some r d e =
        rw (e, max_timeout)
          (ap (λ a. (timeout a, record r { world = (clock r.world).1 }))
            (timeout_at-some _ r.source d e))

    reference-none :
        (ref : Reference W)
        → ref.queue ≡ []
        → reference_call clock E asking ref ≡ (timeout none, ref)
    unfolding reference_call
    reference-none ref e = rw e refl

    reference-some :
        (ref : Reference W) (d : Deadline) (rest : List Deadline)
        → ref.queue ≡ d ∷ rest
        → reference_call clock E asking ref ≡ (
          timeout (some (d.deadline - (clock ref.world).0)),
          record ref { world = (clock ref.world).1 },
        )
    unfolding reference_call
    reference-some ref d rest e = rw e refl

    asking-CallAgrees :
        (r : Running H ES W) (ref : Reference W) → Agrees r ref → CallAgrees asking r ref
    asking-CallAgrees r ref h = elim (Option-cases (heap.peek r.source.deadlines)) [
      | inl e ↦
          let empty = sym h.queue ∙ ap ordered (heap_law.peek-none _ e) in
          rw (asking-none r e, reference-none ref (empty ∙ ordered_nil)) (refl, h)
      | inr (d, top) ↦
          let (rest, first) = first-ordered r.source.deadlines d top in
          rw (asking-some r d top, reference-some ref d rest (sym h.queue ∙ first))
            (
              ap (λ w. timeout (some (d.deadline - (clock w).0))) h.world,
              record {
                queue = h.queue;
                events = h.events;
                left = h.left;
                world = ap (λ w. (clock w).1) h.world;
              },
            )
    ]

    call-Agrees :
        (c : Call) (r : Running H ES W) (ref : Reference W) → Agrees r ref → CallAgrees c r ref
    unfolding timers_call reference_call add_deadline add_timeout
    call-Agrees (adding_deadline id deadline) r ref h =
        let d : Deadline = record { deadline = deadline; id = id } in
        (
          refl,
          record {
            queue = adding-CallAgrees d _ ref.queue h.queue;
            events = h.events;
            left = h.left;
            world = h.world;
          },
        )
    call-Agrees (adding_timeout id after) r ref h =
        let d : W → Deadline = λ w. record { deadline = (clock w).0 + after; id = id } in
        (
          refl,
          record {
            queue =
                adding-CallAgrees (d r.world) _ ref.queue h.queue
                ∙ ap (λ w. insert (d w) ref.queue) h.world;
            events = h.events;
            left = h.left;
            world = ap (λ w. (clock w).1) h.world;
          },
        )
    call-Agrees asking r ref h = asking-CallAgrees r ref h
    call-Agrees polling r ref h = polling-CallAgrees r ref h

    -- If the heap and the sink behave as documented, then over any run of calls, which add
    -- deadlines and timeouts, ask for the timeout and poll, the timers answer what a list of
    -- deadlines in order answers, and deliver the events that it delivers: a poll takes the
    -- deadlines at the front that have passed, as many as the sink has capacity for. What is left
    -- is also the same, so nothing of it depends on the heap.
    pub timers_run-Agrees :
        (cs : List Call) (r : Running H ES W) (ref : Reference W)
        → Agrees r ref
        → ((timers_run heap sink clock panic cs r).0 ≡ (reference_run clock E cs ref).0)
          × Agrees (timers_run heap sink clock panic cs r).1 (reference_run clock E cs ref).1
    unfolding timers_run reference_run
    timers_run-Agrees [] r ref h = (refl, h)
    timers_run-Agrees (c ∷ cs) r ref h =
        let (a, h') = call-Agrees c r ref h in
        let (as_, h'') = timers_run-Agrees cs _ _ h' in (ap₂ (λ x xs. x ∷ xs) a as_, h'')
