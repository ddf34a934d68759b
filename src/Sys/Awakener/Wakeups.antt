-- ===== src/Sys/Awakener/Wakeups.antt =====
-- src/sys/unix/awakener.rs with src/sys/unix/epoll.rs: a poller hears of the calls of `wake`.
use mathlib.Core.Logic.Or
use mathlib.Core.Bool.{Bool-set}
use mathlib.Core.List.{Mem, mem-cons, not-mem-nil}
use gaea.Base.{
  append_cancel, le_or_lt, ℕ, ◌+◌, ◌≤◌, ◌<◌, ◌≡◌, refl, sym, ap, ◌∙◌, ◌≢◌, ◌⊎◌, inl, inr, Bool,
  true, false, not, ◌&&◌, Option, List, [], ◌∷◌, ◌++◌, map, arith, ◌==◌, length, length-append,
  length-map, ok,
}
use gaea.Event.{Event, EventId, capacity_min}
use gaea.Event.Sink.{Sink, IsSink}
use gaea.Event.Source.{Duration}
use gaea.Sys.{events_cap}
use gaea.Sys.Awakener as Eventfd
use gaea.Sys.Awakener.{Awakener}
use gaea.Sys.Awakener.Abi.{EventfdKernel, IsEdgeTriggered, max_count}
use gaea.Sys.Awakener.Steps.{after_write, after_reset, Phase, writing, resetting, done, wake_step}
use gaea.Sys.Epoll.Abi.{EpollFlags, EpEvent, EpollKernel, WaitsWithin}
use gaea.Sys.Epoll.{Selector, select, contains_flag, ep_event_to_event}
use gaea.Sys.Epoll.Conversion.{ep_event_to_event-tests}
use gaea.Sys.Epoll.Selection.{select_cases, received}
use gaea.Sys.Awakener.System.{
  reports, Threads, IsActive, stepped, Step, calls, steps, polls, Reached, here, then_,
}

busy : (before after : List Phase) (p : Phase) → 0 < length (before ++ p ∷ after)
busy before after p = omega (arith, length-append before (p ∷ after))

module _ {W ES : Type 0} (k : EventfdKernel W) (epolls : EpollKernel W) (flags : EpollFlags)
    (sink : Sink ES) (contents : ES → List Event) (awakener : Awakener) (selector : Selector)
    (id : EventId) (sink_law : IsSink sink contents) (within : WaitsWithin epolls) (count : W → ℕ)
    (pending : W → Bool) (law : IsEdgeTriggered k epolls flags count pending awakener.fd id) where
  -- The eventfd will be reported.
  abbrev Reportable : W → Type 0
  Reportable w = (pending w ≡ true) × (0 < count w)

  -- While a wake-up is owed, the eventfd will be reported, or a thread is still going to write.
  pub Keeps : Threads W → Type 0
  Keeps t = t.owed ≡ true → Reportable t.world ⊎ (0 < length t.wakers)

  step-written :
      (w : W)
      → count w + 1 ≤ max_count
      → (w' : W) × (wake_step k awakener writing w ≡ (done (ok tt), w')) × Reportable w'
  unfolding wake_step
  step-written w room =
      let (w', e, c, p) = law.written 1 w room in
      (w', ap (λ x. (after_write x.0, x.1)) e, (p, omega arith))

  step-full :
      (w : W)
      → max_count < count w + 1
      → (w' : W) × (wake_step k awakener writing w ≡ (resetting, w'))
  unfolding wake_step
  step-full w no_room =
      let (w', e, c, p) = law.full 1 w no_room in (w', ap (λ x. (after_write x.0, x.1)) e)

  reset-done : (w : W) → (w' : W) × (Eventfd.reset k awakener w ≡ (ok tt, w'))
  unfolding Eventfd.reset
  reset-done w = elim (le_or_lt (count w) 0) [
    | inl none_left ↦
        let (w', e, c) = law.empty w (omega arith) in
        (w', rw (Eventfd.reset, e, ap (λ p. p.1) e) refl)
    | inr some_left ↦
        let (w', e, c) = law.taken w some_left in (w', rw (Eventfd.reset, e, ap (λ p. p.1) e) refl)
  ]

  step-reset : (w : W) → (w' : W) × (wake_step k awakener resetting w ≡ (writing, w'))
  unfolding wake_step
  step-reset w = let (w', e) = reset-done w in (w', ap (λ x. (after_reset x.0, x.1)) e)

  steps-Keeps :
      (w : W) (before after : List Phase) (p : Phase) (owed : Bool)
      → IsActive p
      → Keeps (stepped before after owed (wake_step k awakener p w))
  unfolding stepped Keeps
  steps-Keeps w before after writing owed active = elim (le_or_lt (count w + 1) max_count) [
    | inl room ↦ let (w', e, r) = step-written w room in rw e (λ _. inl r)
    | inr no_room ↦
        let (w', e) = step-full w no_room in rw e (λ _. inr (busy before after resetting))
  ]
  steps-Keeps w before after resetting owed active =
      let (w', e) = step-reset w in rw e (λ _. inr (busy before after writing))
  steps-Keeps w before after (done r) owed active = absurd active

  reported_event :
      (e : EpEvent) (es : List EpEvent)
      → Mem e es
      → e.u64 ≡ id
      → contains_flag e.events flags.epollin ≡ true
      → reports id (map (ep_event_to_event flags) es) ≡ true
  unfolding reports
  reported_event e [] m same bit = absurd (not-mem-nil m)
  reported_event e (x ∷ xs) m same bit =
      Or.elim (Bool-set _ _) (mem-cons.0 m)
        (λ p.
          let tests = ep_event_to_event-tests flags e in
          let hit : (e.u64 == id) ≡ true = ground arith in
          rw (← p, tests.0, tests.1, hit, bit) refl)
        (λ m'. rw (reported_event e xs m' same bit) (ground arith))

  -- Either a poll reports the wake-up, or it had no room for it.
  abbrev Outcome : ES → List Event → W → Type 0
  Outcome s events w' =
      (reports id events ≡ true)
      ⊎ ((length events ≡ capacity_min (sink.capacity_left s) events_cap) × Reportable w')

  received-Outcome :
      (s : ES) (timeout : Option Duration) (w w' : W) (es : List EpEvent)
      → received flags sink contents sink_law epolls within selector s timeout w ≡ (ok es, w')
      → Reportable w
      → Outcome s (map (ep_event_to_event flags) es) w'
  received-Outcome s timeout w w' es e (p, c) =
      let (same, report) = law.reported _ _ _ w w' es e in
      elim (report p c) [
        | inl (ev, m, i, b) ↦ inl (reported_event ev es m i b)
        | inr (full, p') ↦ inr (length-map (ep_event_to_event flags) es ∙ full, (p', omega arith))
      ]

  polls-Keeps :
      (t : Threads W) (s : ES) (timeout : Option Duration) (events : List Event)
      → contents (select flags epolls sink selector s timeout t.world).1 ≡ contents s ++ events
      → Keeps t
      → (t.owed && not (reports id events)) ≡ true
      → Reportable (select flags epolls sink selector s timeout t.world).2 ⊎ (0 < length t.wakers)
  unfolding Keeps
  polls-Keeps t s timeout events put h still =
      let owed : t.owed ≡ true = ground arith in
      let silent : reports id events ≡ false = ground arith in
      elim (h owed) [
        | inr b ↦ inr b
        | inl r ↦
            elim (select_cases flags sink contents sink_law epolls within selector s timeout
              t.world) [
                | inl (full, e) ↦ inl (rw e r)
                | inr (inl (open_, x, w', failed, e)) ↦
                    let (c, p) = law.wait_failed _ _ _ t.world w' x failed in
                    inl (rw e (p ∙ r.0, omega (arith, r.1)))
                | inr (inr (open_, es, w', got, fine, stored, left, same)) ↦
                    let these = append_cancel (contents s) _ _ (sym put ∙ stored) in
                    elim (received-Outcome s timeout t.world w' es got r) [
                      | inl heard ↦ absurd (ground (arith, these, heard, silent))
                      | inr (full, r') ↦ inl (rw same r')
                    ]
              ]
      ]

  Step-Keeps :
      {t u : Threads W}
      → Step k epolls flags sink contents awakener selector id t u
      → Keeps t
      → Keeps u
  unfolding Keeps
  Step-Keeps (calls t) h = λ owed. inr (omega arith)
  Step-Keeps (steps w before after p owed active) h = steps-Keeps w before after p owed active
  Step-Keeps (polls t s timeout events put) h = polls-Keeps t s timeout events put h

  Reached-Keeps :
      {t u : Threads W}
      → Reached k epolls flags sink contents awakener selector id t u
      → t.owed ≡ false
      → Keeps u
  unfolding Keeps
  Reached-Keeps here none_owed = λ owed. absurd (ground arith)
  Reached-Keeps (then_ r s) none_owed = Step-Keeps s (Reached-Keeps r none_owed)

  -- If the eventfd and the edge-triggered epoll behave as documented, then however the system calls
  -- of any number of calls of `wake` and polls follow one another, no wake-up is lost: once all
  -- calls have returned, of which one has succeeded since a poll last reported a wake-up, a poll
  -- that succeeds into a sink with room puts a readable event with the identifier of the awakener
  -- into it, or as many others as it had room for.
  pub wake-reported :
      (t u : Threads W) (s : ES) (timeout : Option Duration)
      → t.owed ≡ false
      → Reached k epolls flags sink contents awakener selector id t u
      → u.owed ≡ true
      → u.wakers ≡ []
      → capacity_min (sink.capacity_left s) events_cap ≢ 0
      → (select flags epolls sink selector s timeout u.world).0 ≡ ok tt
      → (events : List Event) × (contents (select flags epolls sink selector s timeout u.world).1
          ≡ contents s ++ events)
        × ((reports id events ≡ true)
            ⊎ (length events ≡ capacity_min (sink.capacity_left s) events_cap))
  unfolding Keeps
  wake-reported t u s timeout none_owed run owed idle open_ fine =
      elim (Reached-Keeps run none_owed owed) [
        | inr b ↦ absurd (ground (arith, b, idle))
        | inl r ↦
            elim (select_cases flags sink contents sink_law epolls within selector s timeout
              u.world) [
                | inl (full, e) ↦ absurd (open_ full)
                | inr (inl (open_, x, w', failed, e)) ↦ absurd (ground (arith, fine, e))
                | inr (inr (open_, es, w', got, fine', stored, left, same)) ↦
                    elim (received-Outcome s timeout u.world w' es got r) [
                      | inl heard ↦ (_, stored, inl heard)
                      | inr (full, r') ↦ (_, stored, inr full)
                    ]
              ]
      ]
