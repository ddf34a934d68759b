-- ===== src/Poll/Order.antt =====
-- src/lib.rs: which sources `poll` reaches, and what it does to the sink.
use gaea.Base.{
  suc, ◌≡◌, refl, ap, ◌∙◌, ◌⊎◌, inl, inr, Option, List, [], ◌∷◌, ◌++◌, length, Result, ok, err,
}
use gaea.Event.{Event}
use gaea.Event.Sink.{Sink}
use gaea.Event.Source.{Source, Polled, Duration, Adds, Adds-refl, Adds-trans}
use gaea.Poll.{fold_timeouts, PolledAll, and_then, poll_rest, poll_all, poll}

module _ {S ES W E : Type 0} (methods : Source S ES W E) where
  -- A call of `poll` or `blocking_poll` on a source, and what it left behind.
  abbrev pub Called : S → Polled S ES W E → Type 0
  Called x r =
      ((s : ES) × (w : W) × (r ≡ methods.poll x s w))
      ⊎ ((s : ES) × (t : Option Duration) × (w : W) × (r ≡ methods.blocking_poll x s t w))

  -- The sources `xs` were polled up to one whose call failed with `e`: the call's source and sink
  -- stand in `out`, and the sources behind it are as they were.
  abbrev pub StoppedAt : E → List S → PolledAll S ES W E → Type 0
  StoppedAt e xs out =
      (before : List S) × (x : S) × (after : List S) × (before' : List S) × (r : Polled S ES W E)
      × Called x r
      × (r.result ≡ err e)
      × (xs ≡ before ++ x ∷ after)
      × (out.source ≡ before' ++ r.source ∷ after)
      × (out.sink ≡ r.sink)
      × (length before ≡ length before')

  -- The first source is asked to wait for the least of all timeouts, and those behind it are polled
  -- after it.
  pub poll_first :
      (x : S) (xs : List S) (s : ES) (timeout : Option Duration) (w : W)
      → let (t, w₁) = fold_timeouts methods timeout (x ∷ xs) w in
        let first = methods.blocking_poll x s t w₁ in
        poll methods (x ∷ xs) s timeout w
        ≡ and_then methods first xs (poll_rest methods xs first.sink first.world)
  unfolding poll poll_all
  poll_first x xs s timeout w = refl

  and_then-StoppedAt :
      (x : S) (first : Polled S ES W E) (rest : List S) (others : PolledAll S ES W E) (e : E)
      → Called x first
      → (others.result ≡ err e → StoppedAt e rest others)
      → (and_then methods first rest others).result ≡ err e
      → StoppedAt e (x ∷ rest) (and_then methods first rest others)
  and_then-StoppedAt x first rest others e call ih h = go first.result refl
    where
      go :
          (r : Result (Unit {0}) E)
          → first.result ≡ r
          → StoppedAt e (x ∷ rest) (and_then methods first rest others)
      go (ok _) p =
          let (b, y, a, b', r, c, f, xs, ys, s, l) = ih (rw (p, and_then) at h) in
          rw (p, and_then)
            (
              x ∷ b,
              y,
              a,
              first.source ∷ b',
              r,
              c,
              f,
              ap (◌∷◌ x) xs,
              ap (◌∷◌ first.source) ys,
              s,
              ap suc l,
            )
      go (err e') p =
          rw (p, and_then)
            ([], x, rest, [], first, call, p ∙ (rw (p, and_then) at h), refl, refl, refl, refl)

  poll_rest-StoppedAt :
      (xs : List S) (s : ES) (w : W) (e : E)
      → (poll_rest methods xs s w).result ≡ err e
      → StoppedAt e xs (poll_rest methods xs s w)
  unfolding poll_rest
  poll_rest-StoppedAt [] s w e h = cc
  poll_rest-StoppedAt (x ∷ xs) s w e h =
      let first = methods.poll x s w in
      and_then-StoppedAt x first xs _ e (inl (s, w, refl))
        (poll_rest-StoppedAt xs first.sink first.world e) h

  poll_all-StoppedAt :
      (xs : List S) (s : ES) (t : Option Duration) (w : W) (e : E)
      → (poll_all methods xs s t w).result ≡ err e
      → StoppedAt e xs (poll_all methods xs s t w)
  unfolding poll_all
  poll_all-StoppedAt [] s t w e h = cc
  poll_all-StoppedAt (x ∷ xs) s t w e h =
      let first = methods.blocking_poll x s t w in
      and_then-StoppedAt x first xs _ e (inr (s, t, w, refl))
        (poll_rest-StoppedAt xs first.sink first.world e) h

  -- When `poll` fails, it stopped at a source whose own call failed with that error: the sink is as
  -- that call left it, and the sources behind are as they were.
  pub poll_failed :
      (xs : List S) (s : ES) (t : Option Duration) (w : W) (e : E)
      → (poll methods xs s t w).result ≡ err e
      → StoppedAt e xs (poll methods xs s t w)
  unfolding poll
  poll_failed xs s t w e h =
      let (t', w') = fold_timeouts methods t xs w in poll_all-StoppedAt xs s t' w' e h

  module _ (sink : Sink ES) (contents : ES → List Event)
      (polls : (x : S) (s : ES) (w : W) → Adds sink contents s (methods.poll x s w).sink)
      (blocks : (x : S) (s : ES) (t : Option Duration) (w : W)
        → Adds sink contents s (methods.blocking_poll x s t w).sink) where
    and_then-Adds :
        (s : ES) (first : Polled S ES W E) (rest : List S) (others : PolledAll S ES W E)
        → Adds sink contents s first.sink
        → Adds sink contents first.sink others.sink
        → Adds sink contents s (and_then methods first rest others).sink
    and_then-Adds s first rest others h k = go first.result refl
      where
        go :
            (r : Result (Unit {0}) E)
            → first.result ≡ r
            → Adds sink contents s (and_then methods first rest others).sink
        go (ok _) p = rw (p, and_then) (Adds-trans sink contents s first.sink others.sink h k)
        go (err _) p = rw (p, and_then) h

    poll_rest-Adds :
        (xs : List S) (s : ES) (w : W) → Adds sink contents s (poll_rest methods xs s w).sink
    unfolding poll_rest
    poll_rest-Adds [] s w = Adds-refl sink contents s
    poll_rest-Adds (x ∷ xs) s w =
        let first = methods.poll x s w in
        and_then-Adds s first xs _ (polls x s w) (poll_rest-Adds xs first.sink first.world)

    -- If each source only adds events to the sink, and no more than it has capacity for, then so
    -- does `poll` over any list of sources, also when it fails.
    pub poll-Adds :
        (xs : List S) (s : ES) (t : Option Duration) (w : W)
        → Adds sink contents s (poll methods xs s t w).sink
    unfolding poll poll_all
    poll-Adds [] s t w = Adds-refl sink contents s
    poll-Adds (x ∷ xs) s t w =
        let (t', w') = fold_timeouts methods t (x ∷ xs) w in
        let first = methods.blocking_poll x s t' w' in
        and_then-Adds s first xs _ (blocks x s t' w') (poll_rest-Adds xs first.sink first.world)
