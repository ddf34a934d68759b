-- ===== src/Poll/Invariants.antt =====
-- src/lib.rs: invariants of the sources and of the sink under `poll`.
use gaea.Base.{◌≡◌, refl, Option, List, [], ◌∷◌, All, Result, ok, err}
use gaea.Event.Source.{Source, Polled, Duration}
use gaea.Poll.{PolledAll, and_then, poll_rest, poll_all, poll, fold_timeouts}

module _ {S ES W E : Type 0} (methods : Source S ES W E) (P : S → Type 0) (Q : ES → Type 0)
    (polls : (x : S) (s : ES) (w : W)
      → P x
      → Q s
      → P (methods.poll x s w).source × Q (methods.poll x s w).sink)
    (blocks : (x : S) (s : ES) (t : Option Duration) (w : W)
      → P x
      → Q s
      → P (methods.blocking_poll x s t w).source × Q (methods.blocking_poll x s t w).sink) where
  and_then-preserves :
      (first : Polled S ES W E) (rest : List S) (others : PolledAll S ES W E)
      → P first.source
      → Q first.sink
      → All P rest
      → All P others.source × Q others.sink
      → All P (and_then methods first rest others).source
        × Q (and_then methods first rest others).sink
  and_then-preserves first rest others p q all (ps, q') = go first.result refl
    where
      go :
          (r : Result (Unit {0}) E)
          → first.result ≡ r
          → All P (and_then methods first rest others).source
            × Q (and_then methods first rest others).sink
      go (ok _) e = rw (e, and_then) ((p, ps), q')
      go (err _) e = rw (e, and_then) ((p, all), q)

  poll_rest-preserves :
      (xs : List S) (s : ES) (w : W)
      → All P xs
      → Q s
      → All P (poll_rest methods xs s w).source × Q (poll_rest methods xs s w).sink
  unfolding poll_rest
  poll_rest-preserves [] s w ps q = (tt, q)
  poll_rest-preserves (x ∷ xs) s w (p, ps) q =
      let first = methods.poll x s w in
      let (p', q') = polls x s w p q in
      and_then-preserves first xs _ p' q' ps (poll_rest-preserves xs first.sink first.world ps q')

  -- If the calls of each source keep an invariant of the sources and one of the sink, then so does
  -- `poll` over any list of sources, also when it fails.
  pub poll-preserves :
      (xs : List S) (s : ES) (t : Option Duration) (w : W)
      → All P xs
      → Q s
      → All P (poll methods xs s t w).source × Q (poll methods xs s t w).sink
  unfolding poll poll_all
  poll-preserves [] s t w ps q = (tt, q)
  poll-preserves (x ∷ xs) s t w (p, ps) q =
      let (t', w') = fold_timeouts methods t (x ∷ xs) w in
      let first = methods.blocking_poll x s t' w' in
      let (p', q') = blocks x s t' w' p q in
      and_then-preserves first xs _ p' q' ps (poll_rest-preserves xs first.sink first.world ps q')
