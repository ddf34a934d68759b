-- ===== src/SignalLoop/Handling.antt =====
-- examples/signals.rs: the lines that are printed for the signals that are pending.
use gaea.Base.{
  ℕ, zero, suc, ◌<◌, ◌≡◌, refl, sym, ap, ◌∙◌, ◌≢◌, inl, inr, Bool, true, false, Option, none, some,
  List, [], ◌∷◌, ◌++◌, map, append_assoc, arith, ◌==◌, ==_iff, length, All, ok, err,
}
use gaea.Event.{Event}
use gaea.Os.Handlers.{Signals, signals_receive}
use gaea.Os.Queue.{OsQueue}
use gaea.Os.Signals.{Signal, interrupt, quit, terminate, SignalNumbers, from_raw}
use gaea.Os.Queue.Alone.{poll_alone-append}
use gaea.Sys.{events_cap}
use gaea.Sys.Epoll.{ep_event_to_event}
use gaea.Sys.Epoll.Abi.{EpollFlags, EpollKernel, EpEvent}
use gaea.Sys.SignalFd.Abi.{SignalKernel, IsSignalfd}
use gaea.Sys.SignalFd.{returned}
use gaea.Sys.SignalFd.Receiving.{receive-next}
use gaea.SignalLoop.{
  Line, signal_id, got_terminate, and_then, print_signal, print_received, handle_event,
  handle_events, run_once, run,
}

-- epoll(7), for a level-triggered registration of the descriptor of the signals: while signals are
-- pending, each wait reports this. No other signal arrives, and the interruptions of reads are
-- fewer than the fuel.
pub record ReportsSignals {W : Type 0} (kernel : EpollKernel W) (pending : W → List ℕ)
    (interruptions : W → ℕ) (epfd fuel : ℕ) (report : EpEvent) : Type 0 where
  pub id : report.u64 ≡ signal_id
  pub waits :
      (cap n : ℕ) (ns : List ℕ) (w : W)
      → 0 < cap
      → pending w ≡ n ∷ ns
      → (w' : W) × (kernel.epoll_wait epfd cap none w ≡ (ok (report ∷ []), w'))
        × (pending w' ≡ n ∷ ns)
        × (interruptions w' < fuel)

module _ (c : SignalNumbers) {W G : Type 0} (k : SignalKernel W G) (flags : EpollFlags)
    (kernel : EpollKernel W) (os_queue : OsQueue) (signals : Signals) (pending : W → List ℕ)
    (interruptions : W → ℕ) (fuel : ℕ) (report : EpEvent)
    (fd_law : IsSignalfd k pending interruptions signals.inner.fd)
    (queue_law : ReportsSignals kernel pending interruptions os_queue.selector.epfd fuel
      report) where
  abbrev event : Event
  event = ep_event_to_event flags report

  -- The line for a signal.
  abbrev line : ℕ → Line
  line n = (print_signal event (from_raw c n)).1

  nothing_follows :
      (b : Bool) (lines : List Line) (w : W)
      → and_then (some (ok b, lines, w)) (λ lines w. some (ok false, lines, w))
        ≡ some (ok b, lines, w)
  unfolding and_then
  nothing_follows true lines w = refl
  nothing_follows false lines w = refl

  -- What is received for the event is printed.
  event-received :
      (lines : List Line) (w w' : W) (n : ℕ)
      → signals_receive c k fuel signals w ≡ returned (ok (from_raw c n)) w'
      → handle_events c k flags kernel fuel signals (event ∷ []) lines w
        ≡ some (ok (print_signal event (from_raw c n)).0, lines ++ line n ∷ [], w')
  unfolding handle_events handle_event print_received ep_event_to_event
  event-received lines w w' n e =
      let own : (event.id == signal_id) ≡ true = (==_iff event.id signal_id).1 queue_law.id in
      rw (own, e) (nothing_follows (print_signal event (from_raw c n)).0 (lines ++ line n ∷ []) w')

  run_once-polled :
      (lines : List Line) (w w' : W)
      → kernel.epoll_wait os_queue.selector.epfd events_cap none w ≡ (ok (report ∷ []), w')
      → run_once c k flags kernel fuel os_queue signals lines w
        ≡ handle_events c k flags kernel fuel signals (event ∷ []) lines w'
  unfolding run_once
  run_once-polled lines w w' e =
      ap
        (λ polled. elim polled.result [
          | ok u ↦ handle_events c k flags kernel fuel signals polled.sink lines polled.world
          | err e ↦ some (err e, lines, polled.world)
        ])
        (poll_alone-append flags kernel os_queue (report ∷ []) [] w w' e)

  -- A round takes the first signal that is pending, and prints its line.
  run_once-takes :
      (lines : List Line) (w : W) (n : ℕ) (ns : List ℕ)
      → pending w ≡ n ∷ ns
      → (w' : W) × (run_once c k flags kernel fuel os_queue signals lines w
          ≡ some (ok (print_signal event (from_raw c n)).0, lines ++ line n ∷ [], w'))
        × (pending w' ≡ ns)
  unfolding signals_receive
  run_once-takes lines w n ns e =
      let (w₁, waited, still, few) = queue_law.waits events_cap n ns w (omega arith) e in
      elim (receive-next c k signals.inner pending interruptions fd_law fuel w₁ few) [
        | inl (none_left, _, _, _) ↦ absurd (let b = sym still ∙ none_left in cc)
        | inr (m, ms, w₂, first, r, left) ↦
            let head_same : m ≡ n = cc in
            let tail_same : ms ≡ ns = cc in
            (
              w₂,
              run_once-polled lines w w₁ waited
                  ∙ (event-received lines w₁ w₂ n
                      (r ∙ ap (λ m. returned (ok (from_raw c m)) w₂) head_same)),
              left ∙ tail_same,
            )
      ]

  run-run_once :
      (rounds : ℕ) (lines lines' : List Line) (w w' : W) (b : Bool)
      → run_once c k flags kernel fuel os_queue signals lines w ≡ some (ok b, lines', w')
      → run c k flags kernel fuel (suc rounds) os_queue signals lines w
        ≡ and_then (some (ok b, lines', w')) (run c k flags kernel fuel rounds os_queue signals)
  unfolding run
  run-run_once rounds lines lines' w w' b r =
      ap (λ x. and_then x (run c k flags kernel fuel rounds os_queue signals)) r

  print_signal-last :
      (x : Option Signal) → x ≡ some terminate → print_signal event x ≡ (true, got_terminate)
  unfolding print_signal
  print_signal-last x e = rw e refl

  print_signal-others : (x : Option Signal) → x ≢ some terminate → (print_signal event x).0 ≡ false
  unfolding print_signal
  print_signal-others (some interrupt) h = refl
  print_signal-others (some quit) h = refl
  print_signal-others (some terminate) h = absurd (h refl)
  print_signal-others none h = refl

  -- If the system behaves as documented, and the signals that are pending are some that are not to
  -- terminate, one that is, and then any others, the program returns `Ok(())` within one round for
  -- each up to the one to terminate: it has then printed a line for each of these, in their order,
  -- and the others are still pending.
  pub run-returns :
      (rounds : ℕ) (lines : List Line) (w : W) (others : List ℕ) (n : ℕ) (rest : List ℕ)
      → pending w ≡ others ++ n ∷ rest
      → All (λ m. from_raw c m ≢ some terminate) others
      → from_raw c n ≡ some terminate
      → length others < rounds
      → (w' : W) × (run c k flags kernel fuel rounds os_queue signals lines w
          ≡ some (ok true, lines ++ (map line others ++ got_terminate ∷ []), w'))
        × (pending w' ≡ rest)
  unfolding and_then
  run-returns zero lines w others n rest e plain last enough = absurd (omega arith)
  run-returns (suc rounds) lines w [] n rest e plain last enough =
      let (w', r, left) = run_once-takes lines w n rest e in
      let prints = print_signal-last (from_raw c n) last in
      (
        w',
        run-run_once rounds lines _ w w' _ r ∙ rw (ap (λ p. p.0) prints, ap (λ p. p.1) prints) refl,
        left,
      )
  run-returns (suc rounds) lines w (m ∷ ms) n rest e (other, plain) last enough =
      let (w₁, r, left) = run_once-takes lines w m (ms ++ n ∷ rest) e in
      let (w', r', left') =
        run-returns rounds (lines ++ line m ∷ []) w₁ ms n rest left plain last (omega arith) in
      let goes_on = print_signal-others (from_raw c m) other in
      (
        w',
        run-run_once rounds lines _ w w₁ _ r
            ∙ rw goes_on
                (r' ∙ ap (λ l. some (ok true, l, w')) (append_assoc lines (line m ∷ []) _)),
        left',
      )
