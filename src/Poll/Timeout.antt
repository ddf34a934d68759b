-- ===== src/Poll/Timeout.antt =====
-- src/lib.rs: the timeout of the blocking poll.
use gaea.Base.{◌≤◌, ◌↔◌, Option, none, some, List, [], ◌∷◌, All, arith}
use gaea.Event.Source.{Source, Duration}
use gaea.Poll.{min_timeout, fold_timeouts}

-- A timeout is no longer than another; none means to wait for ever.
abbrev pub NoLonger : Option Duration → Option Duration → Type 0
NoLonger t none = Unit {0}
NoLonger none (some b) = ⊥
NoLonger (some a) (some b) = a ≤ b

-- A timeout is no longer than the smaller of two exactly when it is no longer than either.
pub NoLonger-min_timeout :
    (t a b : Option Duration) → NoLonger t (min_timeout a b) ↔ (NoLonger t a × NoLonger t b)
unfolding min_timeout
NoLonger-min_timeout t none none = ((λ _. (tt, tt)), (λ _. tt))
NoLonger-min_timeout t none (some b) = ((λ h. (tt, h)), (λ h. h.1))
NoLonger-min_timeout t (some a) none = ((λ h. (h, tt)), (λ h. h.0))
NoLonger-min_timeout none (some a) (some b) = ((λ h. absurd h), (λ h. h.0))
NoLonger-min_timeout (some t) (some a) (some b) = (omega arith, omega arith)

module _ {S ES W E : Type 0} (methods : Source S ES W E) where
  -- What the sources answer to `max_timeout`, asked in turn.
  abbrev pub limits : List S → W → List (Option Duration)
  limits [] w = []
  limits (x ∷ xs) w = let (limit, w') = methods.max_timeout x w in limit ∷ limits xs w'

  -- The timeout that `poll` blocks for is the least of the caller's timeout and the limits of the
  -- sources: a time is no longer than it exactly when it is no longer than any of these.
  pub fold_timeouts_least :
      (t timeout : Option Duration) (xs : List S) (w : W)
      → NoLonger t (fold_timeouts methods timeout xs w).0
        ↔ (NoLonger t timeout × All (NoLonger t) (limits xs w))
  unfolding fold_timeouts
  fold_timeouts_least t timeout [] w = ((λ h. (h, tt)), (λ h. h.0))
  fold_timeouts_least t timeout (x ∷ xs) w =
      let (limit, w') = methods.max_timeout x w in
      let ih = fold_timeouts_least t (min_timeout timeout limit) xs w' in
      let both = NoLonger-min_timeout t timeout limit in
      (
        (λ h. let (m, l) = ih.0 h in let (a, b) = both.0 m in (a, (b, l))),
        (λ h. ih.1 (both.1 (h.0, h.1.0), h.1.1)),
      )
