-- ===== src/Timers/Delivery.antt =====
-- src/timers.rs: what polling the timers delivers, and when.
use mathlib.Core.List.{mem-cons_self, Mem, mem-cons_of_mem, not-mem-nil}
use mathlib.Core.List.Perm
use gaea.Base.{
  length-map, ◌+◌, ok, length-perm, ℕ, zero, suc, ◌≤◌, ◌<◌, ◌≡◌, refl, sym, ap, ◌∙◌, ◌⊎◌, inl, inr,
  true, false, some, List, [], ◌∷◌, ◌++◌, append-nil, append_assoc, map, Perm, length, length-perm,
  leb, Option-cases, Bool-cases, arith,
}
use gaea.Event.{capacity_min, Capacity, Event, event_new, ready_timer}
use gaea.Event.Sink.{
  room_le, less, less-less, less_zero, room_min, room_min, Sink, IsSink, HasRoom, room_first,
  room_rest,
}
use gaea.Event.Source.{Adds}
use gaea.Timers.Heap.{Deadline, deadline_le, MinHeap, IsMinHeap}
use gaea.Timers.{poll, timeout_at, Timers, poll_loop}

-- The event of a deadline.
abbrev pub timer_event : Deadline → Event
timer_event d = event_new d.id ready_timer

-- Each of the deadlines `out` comes no later in the order than those behind it and those of `rest`.
abbrev pub Leads : List Deadline → List Deadline → Type 0
Leads [] rest = Unit {0}
Leads (d ∷ out) rest =
    ((x : Deadline) → Mem x (out ++ rest) → deadline_le d x ≡ true) × Leads out rest

abbrev pub AllExpired : ℕ → List Deadline → Type 0
AllExpired now [] = Unit {0}
AllExpired now (d ∷ out) = (d.deadline ≤ now) × AllExpired now out

le-deadline : (d x : Deadline) → deadline_le d x ≡ true → d.deadline ≤ x.deadline
unfolding deadline_le
le-deadline d x h = ground arith

leb-false : (a b : ℕ) → leb a b ≡ false → b < a
leb-false a b h = ground arith

leb-true : (a b : ℕ) → leb a b ≡ true → a ≤ b
leb-true a b h = ground arith

room_one : (c : Capacity) (n : ℕ) → HasRoom c 1 → 0 < n → 0 < capacity_min c n
unfolding capacity_min
room_one c n h k = ground arith

module _ {H ES : Type 0} (heap : MinHeap H) (heap_law : IsMinHeap heap) (sink : Sink ES)
    (contents : ES → List Event) (sink_law : IsSink sink contents) where
  -- The deadlines `out` were taken from the heap and their events put into the sink: the first of
  -- the order, all expired, at most `n`, and fewer only if no expired deadline is left.
  pub record Delivers (now n : ℕ) (h : H) (s : ES) (out : List Deadline) (h' : H) (s' : ES)
      : Type 0 where
    pub stored : contents s' ≡ contents s ++ map timer_event out
    pub left : sink.capacity_left s' ≡ less (sink.capacity_left s) (length out)
    pub kept : Perm (out ++ heap.vec h') (heap.vec h)
    pub in_order : Leads out (heap.vec h')
    pub expired : AllExpired now out
    pub bounded : length out ≤ n
    pub exhaustive : (length out ≡ n) ⊎ ((x : Deadline) → Mem x (heap.vec h') → now < x.deadline)

  Delivers-nothing :
      (now n : ℕ) (h : H) (s : ES)
      → ((n ≡ 0) ⊎ ((x : Deadline) → Mem x (heap.vec h) → now < x.deadline))
      → Delivers now n h s [] h s
  Delivers-nothing now n h s none_left = record {
    stored = sym (append-nil (contents s));
    left = sym (less_zero _);
    kept = Perm.rfl;
    in_order = tt;
    expired = tt;
    bounded = omega arith;
    exhaustive = elim none_left [ inl e ↦ inl (sym e) | inr f ↦ inr f ];
  }

  Delivers-first :
      (now n : ℕ) (h h₁ h' : H) (s s' : ES) (d : Deadline) (out : List Deadline)
      → HasRoom (sink.capacity_left s) (suc n)
      → heap.peek h ≡ some d
      → d.deadline ≤ now
      → Perm (d ∷ heap.vec h₁) (heap.vec h)
      → Delivers now n h₁ (sink.add s (timer_event d)) out h' s'
      → Delivers now (suc n) h s (d ∷ out) h' s'
  Delivers-first now n h h₁ h' s s' d out room top past perm rest = record {
    stored =
        rest.stored
        ∙ ap (λ l. l ++ map timer_event out)
            (sink_law.added s (timer_event d) (room_first _ n room))
        ∙ append_assoc (contents s) (timer_event d ∷ []) (map timer_event out);
    left =
        rest.left
        ∙ ap (λ c. less c (length out))
            (sink_law.added_left s (timer_event d) (room_first _ n room))
        ∙ less-less _ 1 (length out)
        ∙ ap (less _) (omega arith);
    kept = Perm.trans (Perm.cons d rest.kept) perm;
    in_order = (
      (λ x m.
          heap_law.peek-least h d x top
            ((Perm.mem_iff perm).0 (mem-cons_of_mem d ((Perm.mem_iff rest.kept).0 m)))),
      rest.in_order,
    );
    expired = (past, rest.expired);
    bounded = omega (arith, rest.bounded);
    exhaustive = elim rest.exhaustive [ inl e ↦ inl (ap suc e) | inr f ↦ inr f ];
  }

  abbrev LoopDelivers : ℕ → ℕ → H → ES → Type 0
  LoopDelivers now n h s =
      (out : List Deadline) × (h' : H) × (s' : ES) × (poll_loop heap sink now n h s ≡ some (h', s'))
      × Delivers now n h s out h' s'

  poll_loop-LoopDelivers :
      (now n : ℕ) (h : H) (s : ES) → HasRoom (sink.capacity_left s) n → LoopDelivers now n h s
  unfolding poll_loop
  poll_loop-LoopDelivers now zero h s room = ([], h, s, refl, Delivers-nothing now 0 h s (inl refl))
  poll_loop-LoopDelivers now (suc n) h s room = elim (Option-cases (heap.peek h)) [
    | inl e ↦ (
      [],
      h,
      s,
      rw (e, poll_loop),
      Delivers-nothing now (suc n) h s
          (inr λ x m. absurd (not-mem-nil (rw (heap_law.peek-none h e) at m))),
    )
    | inr (d, top) ↦ elim (Bool-cases (leb d.deadline now)) [
      | inl past ↦
          let (h₁, popped, perm) = heap_law.pop-peek h d top in
          let s₁ = sink.add s (timer_event d) in
          let room₁ =
            rw (← sink_law.added_left s (timer_event d) (room_first _ n room)) at
              (room_rest _ n room) in
          let (out, h', s', run, del) = poll_loop-LoopDelivers now n h₁ s₁ room₁ in
          (
            d ∷ out,
            h',
            s',
            rw (top, past, popped, poll_loop) run,
            Delivers-first now n h h₁ h' s s' d out room top (leb-true _ _ past) perm del,
          )
      | inr future ↦ (
        [],
        h,
        s,
        rw (top, future, poll_loop),
        Delivers-nothing now (suc n) h s (
            inr λ x m.
              omega
                (arith, leb-false _ _ future, le-deadline d x (heap_law.peek-least h d x top m))),
      )
    ]
  ]

  -- If the heap and the sink behave as documented, a poll of the timers never fails and never
  -- panics. It takes deadlines from the heap that have passed at the time that the clock showed,
  -- the first of the order `deadline`, then `id`, and in that order; it puts the event of each into
  -- the sink and keeps all other deadlines. It takes as many as there is capacity for and deadlines
  -- in the heap, and fewer only if none of those that it keeps has passed.
  pub poll-Delivers :
      {W E : Type 0} (clock : W → ℕ × W) (panic : E) (t : Timers H) (s : ES) (w : W)
      → let r = poll heap sink clock panic t s w in
        let n = capacity_min (sink.capacity_left s) (length (heap.vec t.deadlines)) in
        (out : List Deadline) × Delivers (clock w).0 n t.deadlines s out r.source.deadlines r.sink
        × (r.result ≡ ok tt)
        × (r.world ≡ (clock w).1)
  unfolding poll
  poll-Delivers clock panic t s w =
      let n = capacity_min (sink.capacity_left s) (length (heap.vec t.deadlines)) in
      let (out, h', s', run, del) =
        poll_loop-LoopDelivers (clock w).0 n t.deadlines s (room_min _ _) in
      (out, rw (run, poll) del, rw (run, poll), rw (run, poll))

  -- If a deadline has passed and the sink has room, what is delivered is not nothing.
  Delivers-some :
      (now : ℕ) (h h' : H) (s s' : ES) (d : Deadline) (out : List Deadline)
      → heap.peek h ≡ some d
      → d.deadline ≤ now
      → HasRoom (sink.capacity_left s) 1
      → Delivers now (capacity_min (sink.capacity_left s) (length (heap.vec h))) h s out h' s'
      → (first : Deadline) × (others : List Deadline) × (out ≡ first ∷ others)
  Delivers-some now h h' s s' d (x ∷ out) top past room del = (x, out, refl)
  Delivers-some now h h' s s' d [] top past room del =
      let (h₁, popped, perm) = heap_law.pop-peek h d top in
      let here = (Perm.mem_iff (Perm.symm del.kept)).0 ((Perm.mem_iff perm).0 mem-cons_self) in
      absurd (elim del.exhaustive [
        | inl e ↦ grind (arith, length-perm perm, room_one _ (length (heap.vec h)) room)
        | inr f ↦ omega (arith, f d here)
      ])

  -- If the heap and the sink behave as documented, waiting for as long as `max_timeout` says is
  -- enough: when it answered a timeout at some time, a poll that much later, or after that, into a
  -- sink with room for an event, adds the event of a deadline first.
  pub poll_timely :
      {W E : Type 0} (clock : W → ℕ × W) (panic : E) (t : Timers H) (s : ES) (w : W)
      (now timeout : ℕ)
      → timeout_at heap now t ≡ some timeout
      → now + timeout ≤ (clock w).0
      → HasRoom (sink.capacity_left s) 1
      → (d : Deadline) × (out : List Deadline) × (contents (poll heap sink clock panic t s w).sink
          ≡ contents s ++ timer_event d ∷ map timer_event out)
  unfolding timeout_at
  poll_timely clock panic t s w now timeout e late room =
      let (out, del, fine, same) = poll-Delivers clock panic t s w in
      elim (Option-cases (heap.peek t.deadlines)) [
        | inl empty ↦ absurd (ground arith)
        | inr (d, top) ↦
            let (x, others, nonempty) = Delivers-some _ _ _ s _ d out top (ground arith) room del in
            (x, others, del.stored ∙ ap (λ l. contents s ++ map timer_event l) nonempty)
      ]

  -- Polling the timers only adds events to the sink, and no more than it has capacity for.
  pub poll-Adds :
      {W E : Type 0} (clock : W → ℕ × W) (panic : E) (t : Timers H) (s : ES) (w : W)
      → Adds sink contents s (poll heap sink clock panic t s w).sink
  poll-Adds clock panic t s w =
      let (out, del, fine, same) = poll-Delivers clock panic t s w in
      let size = length-map timer_event out in
      (
        map timer_event out,
        del.stored,
        rw size (room_le _ (length out) _ del.bounded (room_min _ _)),
        rw size del.left,
      )
