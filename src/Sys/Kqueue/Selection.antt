-- ===== src/Sys/Kqueue/Selection.antt =====
-- src/sys/unix/kqueue.rs: the outcomes of `Selector::select`.
use mathlib.Core.Option
use gaea.Base.Io.{Io}
use gaea.Base.{
  ◌≡◌, refl, sym, ap, ◌∙◌, ◌⊎◌, inl, inr, Option, List, [], ◌∷◌, ◌++◌, map, append-nil, length,
  length-map, ok, err, IoError, IoResult,
}
use gaea.Event.{Event, capacity_min}
use gaea.Event.Sink.{Sink, IsSink, HasRoom, room_within, less, less_zero}
use gaea.Event.Source.{Duration}
use gaea.Sys.{events_cap}
use gaea.Sys.Kqueue.Abi.{Kevent, KqueueFlags, KqueueKernel, WaitsWithin}
use gaea.Sys.Kqueue.{Selector, timespec_from_duration, kevent_to_event, deliver, select}

module _ (c : KqueueFlags) {ES W : Type 0} (kernel : KqueueKernel W) (sink : Sink ES)
    (contents : ES → List Event) (sink_law : IsSink sink contents) where
  deliver_stores :
      (es : List Kevent) (s : ES)
      → HasRoom (sink.capacity_left s) (length es)
      → let (r, s') = deliver c kernel sink (ok es) s in
        (r ≡ ok tt)
        × (contents s' ≡ contents s ++ map (kevent_to_event c) es)
        × (sink.capacity_left s' ≡ less (sink.capacity_left s) (length es))
  unfolding deliver
  deliver_stores [] s room = (refl, sym (append-nil (contents s)), sym (less_zero _))
  deliver_stores (e ∷ es) s room =
      let size = length-map (kevent_to_event c) (e ∷ es) in
      let room' = rw (← size) at room in
      (
        refl,
        sink_law.extended s (map (kevent_to_event c) (e ∷ es)) room',
        sink_law.extended_left s (map (kevent_to_event c) (e ∷ es)) room' ∙ ap (less _) size,
      )

  module _ (within : WaitsWithin kernel) where
    -- The one system call that `select` makes, and what `select` does, for its failure and for its
    -- success.
    abbrev pub received : Selector → ES → Option Duration → Io W (List Kevent)
    received p s t =
        kernel.wait p.kq (capacity_min (sink.capacity_left s) events_cap)
          (Option.map timespec_from_duration t)

    abbrev pub Fails : Selector → ES → Option Duration → W → Type 0
    Fails p s t w =
        (e : IoError) × (w' : W) × (received p s t w ≡ (err e, w'))
        × (select c kernel sink p s t w ≡ (err e, s, w'))

    abbrev pub Receives : Selector → ES → Option Duration → W → Type 0
    Receives p s t w =
        let out = select c kernel sink p s t w in
        (es : List Kevent) × (w' : W) × (received p s t w ≡ (ok es, w'))
        × (out.0 ≡ ok tt)
        × (contents out.1 ≡ contents s ++ map (kevent_to_event c) es)
        × (sink.capacity_left out.1 ≡ less (sink.capacity_left s) (length es))
        × (out.2 ≡ w')

    -- If the sink and `kevent` behave as documented, `select` makes one system call, for at most as
    -- many events as the sink has capacity for, with the timeout as a `timespec`. If that fails, so
    -- does `select`, and the sink is as it was. If it succeeds, so does `select`, and the sink
    -- holds the events that the system gave, converted, in the order in which it gave them.
    pub select_outcomes :
        (p : Selector) (s : ES) (t : Option Duration) (w : W) → Fails p s t w ⊎ Receives p s t w
    unfolding select
    select_outcomes p s t w = go (received p s t w) refl
      where
        go :
            (x : IoResult (List Kevent) × W)
            → received p s t w ≡ x
            → Fails p s t w ⊎ Receives p s t w
        go (err e, w') r = inl (e, w', r, rw (select, r, deliver) refl)
        go (ok es, w') r =
            let few = within p.kq _ (Option.map timespec_from_duration t) w es (ap (λ x. x.0) r) in
            let room = room_within (sink.capacity_left s) events_cap (length es) few in
            let (a, b, d) = deliver_stores es s room in
            inr (
              es,
              w',
              r,
              rw (select, r) a,
              rw (select, r) b,
              rw (select, r) d,
              rw (select, ap (λ x. x.1) r) refl,
            )
