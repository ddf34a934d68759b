-- ===== src/Sources/Waiting.antt =====
-- src/lib.rs with src/sys/unix/epoll.rs: for how long `poll` lets the system wait.
use mathlib.Core.Option
use gaea.Base.{
  ℕ, ◌*◌, ◌≡◌, refl, ap, ◌∙◌, ◌⊎◌, inl, inr, true, false, Option, none, some, List, [], ◌∷◌, arith,
  ◌==◌, Bool-cases, All, ok, IoResult,
}
use gaea.Event.{capacity_min}
use gaea.Event.Source.{Polled}
use gaea.Os.Queue.{blocking_poll, map_err}
use gaea.Sys.{events_cap}
use gaea.Sys.Epoll.{deliver, select}
use gaea.Sys.Epoll.Abi.{EpEvent}
use gaea.Event.Source.{Duration}
use gaea.Poll.{PolledAll, poll, poll_rest, and_then, fold_timeouts}
use gaea.Poll.Order.{poll_first}
use gaea.Poll.Timeout.{NoLonger, limits, fold_timeouts_least}
use gaea.Os.Queue.{OsQueue}
use gaea.Sys.Epoll.{duration_to_millis}
use gaea.Sys.Epoll.Conversion.{duration_to_millis_bounds}
use gaea.Sources.{AnySource, os_queue, Platform, any_source, any_blocking_poll}

-- The timeout of the system call, in nanoseconds.
abbrev pub nanos : Option ℕ → Option Duration
nanos millis = Option.map (λ m. m * 1_000_000) millis

abbrev waited : Option Duration → Option Duration
waited t = nanos (Option.map duration_to_millis t)

NoLonger-refl : (t : Option Duration) → NoLonger t t
NoLonger-refl none = tt
NoLonger-refl (some d) = omega arith

waited-NoLonger : (t l : Option Duration) → NoLonger t l → NoLonger (waited t) l
waited-NoLonger t none h = tt
waited-NoLonger none (some l) h = h
waited-NoLonger (some d) (some l) h = omega (arith, (duration_to_millis_bounds d).0)

All-waited :
    (t : Option Duration) (ls : List (Option Duration))
    → All (NoLonger t) ls
    → All (NoLonger (waited t)) ls
All-waited t [] h = tt
All-waited t (l ∷ ls) (h, hs) = (waited-NoLonger t l h, All-waited t ls hs)

module _ {H ES W E : Type 0} (p : Platform H ES W E) where
  -- What the queue of the operating system leaves behind after an answer of the system.
  abbrev pub answered : OsQueue → ES → IoResult (List EpEvent) × W → Polled (AnySource H) ES W E
  answered o s (answer, w') =
      let (r, s') = deliver p.flags p.sink answer s in
      record { source = os_queue o; sink = s'; world = w'; result = map_err p.from r }

  abbrev pub idle : OsQueue → ES → W → Polled (AnySource H) ES W E
  idle o s w' = record { source = os_queue o; sink = s; world = w'; result = ok tt }

  -- The poll goes on from what the first source leaves behind.
  abbrev pub GoesOn :
      OsQueue → List (AnySource H) → ES → Option Duration → W → Polled (AnySource H) ES W E → Type 0
  GoesOn o rest s timeout w first =
      poll (any_source p) (os_queue o ∷ rest) s timeout w
      ≡ and_then (any_source p) first rest (poll_rest (any_source p) rest first.sink first.world)

  blocking-idle :
      (o : OsQueue) (s : ES) (t : Option Duration) (w : W)
      → (capacity_min (p.sink.capacity_left s) events_cap == 0) ≡ true
      → any_blocking_poll p (os_queue o) s t w ≡ idle o s w
  unfolding any_blocking_poll blocking_poll select
  blocking-idle o s t w full = rw full refl

  blocking-answered :
      (o : OsQueue) (s : ES) (t : Option Duration) (w : W)
      → (capacity_min (p.sink.capacity_left s) events_cap == 0) ≡ false
      → any_blocking_poll p (os_queue o) s t w
        ≡ answered o s (
            p.kernel.epoll_wait o.selector.epfd
              (capacity_min (p.sink.capacity_left s) events_cap)
              (Option.map duration_to_millis t)
              w)
  unfolding any_blocking_poll blocking_poll select deliver
  blocking-answered o s t w room = rw room refl

  -- When the queue of the operating system is the first source, a poll either does not wait, as the
  -- sink is full, or it makes one call of `epoll_wait` first, after the limits of the sources were
  -- asked for, and goes on from its answer. The timeout of that call, in whole milliseconds, is no
  -- longer than the timeout of the caller and than the limit of any source; where one of these is
  -- given, the call has a timeout.
  pub poll_waits :
      (o : OsQueue) (rest : List (AnySource H)) (s : ES) (timeout : Option Duration) (w : W)
      → let xs = os_queue o ∷ rest in
        let w₁ = (fold_timeouts (any_source p) timeout xs w).1 in
        let cap = capacity_min (p.sink.capacity_left s) events_cap in
        ((cap ≡ 0) × GoesOn o rest s timeout w (idle o s w₁))
        ⊎ ((millis : Option ℕ) × GoesOn o rest s timeout w
              (answered o s (p.kernel.epoll_wait o.selector.epfd cap millis w₁))
            × NoLonger (nanos millis) timeout
            × All (NoLonger (nanos millis)) (limits (any_source p) xs w))
  poll_waits o rest s timeout w =
      let xs = os_queue o ∷ rest in
      let (t, w₁) = fold_timeouts (any_source p) timeout xs w in
      let (h, hs) = (fold_timeouts_least (any_source p) t timeout xs w).0 (NoLonger-refl t) in
      let first = poll_first (any_source p) (os_queue o) rest s timeout w in
      let go : Polled (AnySource H) ES W E → PolledAll (AnySource H) ES W E =
        λ x. and_then (any_source p) x rest (poll_rest (any_source p) rest x.sink x.world) in
      elim (Bool-cases (capacity_min (p.sink.capacity_left s) events_cap == 0)) [
        | inl full ↦ inl (ground arith, first ∙ ap go (blocking-idle o s t w₁ full))
        | inr room ↦ inr (
          Option.map duration_to_millis t,
          first ∙ ap go (blocking-answered o s t w₁ room),
          waited-NoLonger t timeout h,
          All-waited t (limits (any_source p) xs w) hs,
        )
      ]
