-- ===== src/Sys/Awakener/UserEvents.antt =====
-- src/sys/unix/awakener.rs with src/sys/unix/kqueue.rs: a poller on a kqueue hears of the calls of
-- `wake`, each of which is one system call.
use mathlib.Core.Logic.Or
use mathlib.Core.Bool.{Bool-set}
use mathlib.Core.List.{Mem, mem-cons, not-mem-nil}
use gaea.Base.{
  ◌!=◌, Bool-cases, ◌≢◌, append_cancel, ℕ, bit_or, ◌≡◌, refl, sym, ◌∙◌, ◌⊎◌, inl, inr, Bool, true,
  false, not, ◌&&◌, ◌||◌, Option, List, [], ◌∷◌, ◌++◌, map, arith, ◌==◌, length, length-map, ok,
  err, IoError, IoResult,
}
use gaea.Event.{Event, EventId, capacity_min}
use gaea.Event.Sink.{Sink, IsSink}
use gaea.Event.Source.{Duration}
use gaea.Sys.{events_cap}
use gaea.Sys.Awakener.Abi.{IsTrigger, IsUserEvent}
use gaea.Sys.Awakener.Kqueue.{Awakener, wake}
use gaea.Sys.Awakener.System.{reports}
use gaea.Sys.Awakener.UserSystem.{Waking, woken, Step, wakes, polls, others, Reached, here, then_}
use gaea.Sys.Kqueue.Abi.{Kevent, KqueueFlags, AreFilters, KqueueKernel, WaitsWithin}
use gaea.Sys.Kqueue as Kqueue
use gaea.Sys.Kqueue.{
  ignores, Selector, select, kevent_to_event, kevent_register, check_errors, contains_flag,
  new_kevent,
}
use gaea.Sys.Kqueue.Conversion.{kevent_to_event-tests}
use gaea.Sys.Kqueue.Knotes.{receipt, AreChanges, contains-bit_or, apart, itself}
use gaea.Sys.Kqueue.Changes.{kevent_register_cases}
use gaea.Sys.Kqueue.Selection.{select_outcomes, received}

module _ (c : KqueueFlags) {W ES : Type 0} (kernel : KqueueKernel W) (sink : Sink ES)
    (contents : ES → List Event) (sink_law : IsSink sink contents) (within : WaitsWithin kernel)
    (filters : AreFilters c) (are : AreChanges c) (IsOn : ℕ → Type 0) (triggered : W → Bool)
    (id : EventId) (law : IsUserEvent c kernel IsOn triggered id) (selector : Selector)
    (on : IsOn selector.kq) where
  -- The change of `wake`.
  abbrev trigger : Kevent
  trigger = record (new_kevent 0 c.evfilt_user (bit_or c.ev_add c.ev_receipt) id) {
    fflags = c.note_trigger;
  }

  trigger-IsTrigger : IsTrigger c id trigger
  unfolding new_kevent
  trigger-IsTrigger = (
    refl,
    refl,
    refl,
    refl,
    ground (
      arith,
      contains-bit_or c c.ev_add c.ev_receipt c.ev_receipt,
      itself c c.ev_receipt are.receipt_receipt,
    ),
    ground (arith, contains-bit_or c c.ev_add c.ev_receipt c.ev_add, itself c c.ev_add are.add_add),
    ground (
      arith,
      contains-bit_or c c.ev_add c.ev_receipt c.ev_delete,
      apart c c.ev_add c.ev_delete are.add_delete,
      apart c c.ev_receipt c.ev_delete are.receipt_delete,
    ),
  )

  -- While a wake-up is owed, the user event is triggered.
  pub Keeps : Waking W → Type 0
  Keeps t = t.owed ≡ true → triggered t.world ≡ true

  woken_triggered :
      (owed : Bool) (r : IoResult (Unit {0})) (w : W)
      → triggered w ≡ true
      → Keeps (woken owed (r, w))
  unfolding Keeps woken
  woken_triggered owed (ok u) w h = λ _. h
  woken_triggered owed (err e) w h = λ _. h

  woken_failed :
      (owed : Bool) (e : IoError) (w w' : W)
      → triggered w' ≡ triggered w
      → Keeps (record { world = w; owed = owed })
      → Keeps (woken owed (err e, w'))
  unfolding Keeps woken
  woken_failed owed e w w' same h = λ still. same ∙ h still

  -- A receipt is an error exactly when it has an error number.
  receipt-checked :
      (k : Kevent) (errno : ℕ)
      → ((errno ≡ 0) × (check_errors c kernel (receipt c k errno ∷ []) [] ≡ ok tt))
        ⊎ ((errno ≢ 0)
            × (check_errors c kernel (receipt c k errno ∷ []) []
                ≡ err (kernel.from_raw_os_error errno)))
  unfolding check_errors Kqueue.is_error ignores
  receipt-checked k errno =
      let marked = contains-bit_or c k.flags c.ev_error c.ev_error in
      let own = itself c c.ev_error are.error_error in
      elim (Bool-cases (errno == 0)) [
        | inl e ↦
            let none_set : errno ≡ 0 = ground arith in
            let test : (errno != 0) ≡ false = ground arith in
            inl (none_set, rw (marked, own, test) (ground arith))
        | inr e ↦
            let some_set : errno ≢ 0 = ground arith in
            let test : (errno != 0) ≡ true = ground arith in
            inr (some_set, rw (marked, own, test) (ground arith))
      ]

  applied-Keeps :
      (w w' : W) (owed : Bool) (entries : List Kevent) (errno : ℕ)
      → entries ≡ receipt c trigger errno ∷ []
      → (errno ≡ 0 → triggered w' ≡ true)
      → (errno ≢ 0 → triggered w' ≡ triggered w)
      → Keeps (record { world = w; owed = owed })
      → Keeps (woken owed (check_errors c kernel entries [], w'))
  applied-Keeps w w' owed entries errno these set kept h =
      rw these (elim (receipt-checked trigger errno) [
        | inl (e, fine) ↦ woken_triggered owed _ w' (set e)
        | inr (e, bad) ↦ rw bad (woken_failed owed _ w w' (kept e) h)
      ])

  changed-Keeps :
      (kq : ℕ) (w : W) (owed : Bool)
      → IsOn kq
      → Keeps (record { world = w; owed = owed })
      → Keeps (woken owed (kevent_register c kernel kq (trigger ∷ []) [] w))
  changed-Keeps kq w owed on_it h = elim (kevent_register_cases c kernel kq (trigger ∷ []) [] w) [
    | inl (entries, w', e, done) ↦
        let (errno, these, set, kept) =
          law.applied kq trigger entries w w' on_it trigger-IsTrigger e in
        rw done (applied-Keeps w w' owed entries errno these set kept h)
    | inr (inl (w', e, done)) ↦
        rw done (
          woken_triggered owed _ w' (law.was_interrupted kq trigger w w' on_it trigger-IsTrigger e))
    | inr (inr (x, w', e, other, done)) ↦
        rw done (
          woken_failed owed x w w' (law.failed kq trigger w w' x on_it trigger-IsTrigger e other) h)
  ]

  wakes-Keeps :
      (t : Waking W) (a : Awakener)
      → IsOn a.selector.kq
      → a.id ≡ id
      → Keeps t
      → Keeps (woken t.owed (wake c kernel a t.world))
  unfolding wake Kqueue.wake
  wakes-Keeps t a on_it same h = rw same (changed-Keeps a.selector.kq t.world t.owed on_it h)

  reported_event :
      (e : Kevent) (es : List Kevent)
      → Mem e es
      → e.udata ≡ id
      → e.filter ≡ c.evfilt_user
      → reports id (map (kevent_to_event c) es) ≡ true
  unfolding reports
  reported_event e [] m same user = absurd (not-mem-nil m)
  reported_event e (x ∷ xs) m same user =
      Or.elim (Bool-set _ _) (mem-cons.0 m)
        (λ p.
          let tests = kevent_to_event-tests c filters e in
          let hit : (e.udata == id) ≡ true = ground arith in
          let readable : (e.filter == c.evfilt_read || e.filter == c.evfilt_user) ≡ true =
            ground arith in
          rw (← p, tests.0, tests.1, hit, readable) refl)
        (λ m'. rw (reported_event e xs m' same user) (ground arith))

  -- Either a poll reports the wake-up, or it had no room for it.
  abbrev Outcome : ES → List Event → W → Type 0
  Outcome s events w' =
      (reports id events ≡ true)
      ⊎ ((length events ≡ capacity_min (sink.capacity_left s) events_cap) × (triggered w' ≡ true))

  received-Outcome :
      (s : ES) (timeout : Option Duration) (w w' : W) (es : List Kevent)
      → received c kernel sink contents sink_law within selector s timeout w ≡ (ok es, w')
      → triggered w ≡ true
      → Outcome s (map (kevent_to_event c) es) w'
  received-Outcome s timeout w w' es e h = elim (law.returned _ _ _ w w' es on e h) [
    | inl (k, m, same, user) ↦ inl (reported_event k es m same user)
    | inr (full, h') ↦ inr (length-map (kevent_to_event c) es ∙ full, h')
  ]

  polls-Keeps :
      (t : Waking W) (s : ES) (timeout : Option Duration) (events : List Event)
      → contents (select c kernel sink selector s timeout t.world).1 ≡ contents s ++ events
      → Keeps t
      → (t.owed && not (reports id events)) ≡ true
      → triggered (select c kernel sink selector s timeout t.world).2 ≡ true
  unfolding Keeps
  polls-Keeps t s timeout events put h still =
      let triggered_ = h (ground arith) in
      let silent : reports id events ≡ false = ground arith in
      elim (select_outcomes c kernel sink contents sink_law within selector s timeout t.world) [
        | inl (x, w', failed, e) ↦ rw e (law.wait_failed _ _ _ t.world w' x on failed ∙ triggered_)
        | inr (es, w', got, fine, stored, left, same) ↦
            let these = append_cancel (contents s) _ _ (sym put ∙ stored) in
            elim (received-Outcome s timeout t.world w' es got triggered_) [
              | inl heard ↦ absurd (ground (arith, these, heard, silent))
              | inr (full, kept) ↦ rw same kept
            ]
      ]

  Step-Keeps :
      {t u : Waking W}
      → Step c kernel sink contents IsOn triggered id selector t u
      → Keeps t
      → Keeps u
  Step-Keeps (wakes t a on_it same) h = wakes-Keeps t a on_it same h
  Step-Keeps (polls t s timeout events put) h = unfold Keeps in polls-Keeps t s timeout events put h
  Step-Keeps (others t w safe) h = unfold Keeps in λ owed. safe (h owed)

  Reached-Keeps :
      {t u : Waking W}
      → Reached c kernel sink contents IsOn triggered id selector t u
      → t.owed ≡ false
      → Keeps u
  Reached-Keeps here none_owed = unfold Keeps in λ owed. absurd (ground arith)
  Reached-Keeps (then_ r s) none_owed = Step-Keeps s (Reached-Keeps r none_owed)

  -- If the flags of kqueue are as they are named, and the sink and the user events of the kqueue
  -- behave as documented, then however calls of `wake`, on any descriptors of the kqueue, and polls
  -- follow one another, no wake-up is lost: once a call of `wake` has succeeded since a poll last
  -- reported a wake-up, a poll that succeeds puts a readable event with the identifier of the
  -- awakener into the sink, or as many others as it had room for. A change that the system refuses,
  -- in the entry that it returns, is no success.
  pub wake-reports :
      (t u : Waking W) (s : ES) (timeout : Option Duration)
      → t.owed ≡ false
      → Reached c kernel sink contents IsOn triggered id selector t u
      → u.owed ≡ true
      → (select c kernel sink selector s timeout u.world).0 ≡ ok tt
      → (events : List Event) × (contents (select c kernel sink selector s timeout u.world).1
          ≡ contents s ++ events)
        × ((reports id events ≡ true)
            ⊎ (length events ≡ capacity_min (sink.capacity_left s) events_cap))
  unfolding Keeps
  wake-reports t u s timeout none_owed run owed fine =
      let triggered_ = Reached-Keeps run none_owed owed in
      elim (select_outcomes c kernel sink contents sink_law within selector s timeout u.world) [
        | inl (x, w', failed, e) ↦ absurd (ground (arith, fine, e))
        | inr (es, w', got, fine', stored, left, same) ↦
            elim (received-Outcome s timeout u.world w' es got triggered_) [
              | inl heard ↦ (_, stored, inl heard)
              | inr (full, kept) ↦ (_, stored, inr full)
            ]
      ]
