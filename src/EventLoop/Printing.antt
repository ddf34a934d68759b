-- ===== src/EventLoop/Printing.antt =====
-- src/lib.rs: what the event loop of the documentation prints.
use mathlib.Core.Option
use gaea.Base.{
  ℕ, zero, suc, ◌≡◌, refl, sym, ap, ◌∙◌, inl, inr, some, List, [], ◌∷◌, ◌++◌, map, ok, err, IoError,
  IoResult,
}
use gaea.Base.{Result-cases}
use gaea.Event.{Event}
use gaea.EventLoop.{Line, print, timeout, Running, print_events, run_once, run}
use gaea.Os.Queue.{blocking_poll, OsQueue}
use gaea.Poll.{poll, poll_rest, and_then, fold_timeouts}
use gaea.Sources.{AnySource, os_queue, queue, Platform, any_source, any_poll, any_blocking_poll}
use gaea.Sources.Steps.{vec_platform, os_step, os_step_failed, queue_step, poll_two, poll_stopped}
use gaea.Sys.{events_cap}
use gaea.Sys.Epoll.Abi.{EpollFlags, EpollKernel, EpEvent}
use gaea.Sys.Epoll.{ep_event_to_event, duration_to_millis}
use gaea.Timers.Heap.{MinHeap}
use gaea.UserSpace.{Queue}

-- The time for which a round may wait, in milliseconds: not at all if the queue holds an event.
abbrev pub wait : List Event → ℕ
wait [] = 1000
wait (_ ∷ _) = 0

module _ (flags : EpollFlags) {W : Type 0} (kernel : EpollKernel W) (epfd : ℕ) where
  -- What the loop does, in terms of the system call: a round prints the events that the system
  -- answers with, and then those that wait in the queue.
  unfoldable pub reference : ℕ → List Event → List Line → W → IoResult (Unit {0}) × List Line × W
  reference zero queued lines w = (ok tt, lines, w)
  reference (suc rounds) queued lines w =
      let (answer, w') = kernel.epoll_wait epfd events_cap (some (wait queued)) w in
      elim answer [
        | err e ↦ (err e, lines, w')
        | ok es ↦
            reference rounds [] (lines ++ map print (map (ep_event_to_event flags) es ++ queued)) w'
      ]

-- What is seen of the program.
abbrev pub output :
    {W : Type 0} → IoResult (Unit {0}) × Running W → IoResult (Unit {0}) × List Line × W
output (result, r) = (result, r.lines, r.world)

module _ {H W : Type 0} (heap : MinHeap H) (clock : W → ℕ × W) (panic : IoError)
    (flags : EpollFlags) (kernel : EpollKernel W) where
  abbrev platform : Platform H (List Event) W IoError
  platform = vec_platform heap clock panic flags kernel (λ e. e)

  -- The wait of a round, which reads no clock.
  round_timeout :
      (o : OsQueue) (queued : List Event) (w : W)
      → let (t, w') =
          fold_timeouts
            (any_source platform)
            (some timeout)
            (os_queue o ∷ queue (record { events = queued }) ∷ [])
            w in
        (Option.map duration_to_millis t ≡ some (wait queued)) × (w' ≡ w)
  unfolding fold_timeouts gaea.Sources.any_max_timeout gaea.UserSpace.max_timeout
      gaea.Os.Queue.max_timeout gaea.Poll.min_timeout duration_to_millis
  round_timeout o [] w = (refl, refl)
  round_timeout o (e ∷ es) w = (refl, refl)

  -- A round polls both queues, or stops at the error of the system.
  round_polled :
      (o : OsQueue) (queued : List Event) (es : List EpEvent) (w w' : W)
      → kernel.epoll_wait o.selector.epfd events_cap (some (wait queued)) w ≡ (ok es, w')
      → poll
          (any_source platform)
          (os_queue o ∷ queue (record { events = queued }) ∷ [])
          []
          (some timeout)
          w
        ≡ record {
          source = os_queue o ∷ queue (record { events = [] }) ∷ [];
          sink = map (ep_event_to_event flags) es ++ queued;
          world = w';
          result = ok tt;
        }
  round_polled o queued es w w' e =
      let (millis, same) = round_timeout o queued w in
      poll_two (any_source platform) (os_queue o) (queue (record { events = queued })) []
        (some timeout) w _ _
        (os_step heap clock panic flags kernel (λ x. x) o [] _ es _ w' (rw (millis, same) e))
        (queue_step heap clock panic flags kernel (λ x. x) (record { events = queued }) _ w') refl
        refl

  round_stopped :
      (o : OsQueue) (queued : List Event) (x : IoError) (w w' : W)
      → kernel.epoll_wait o.selector.epfd events_cap (some (wait queued)) w ≡ (err x, w')
      → poll
          (any_source platform)
          (os_queue o ∷ queue (record { events = queued }) ∷ [])
          []
          (some timeout)
          w
        ≡ record {
          source = os_queue o ∷ queue (record { events = queued }) ∷ [];
          sink = [];
          world = w';
          result = err x;
        }
  round_stopped o queued x w w' e =
      let (millis, same) = round_timeout o queued w in
      poll_stopped (any_source platform) (os_queue o) (queue (record { events = queued }) ∷ []) []
        (some timeout) w _ x
        (os_step_failed heap clock panic flags kernel (λ x. x) o [] _ x _ w' (rw (millis, same) e))
        refl

  abbrev at : OsQueue → List Event → List Line → W → Running W
  at o queued lines w = record {
    program = record { os_queue = o; queue = record { events = queued } };
    lines = lines;
    world = w;
  }

  run_once-ok :
      (o : OsQueue) (queued : List Event) (lines : List Line) (es : List EpEvent) (w w' : W)
      → kernel.epoll_wait o.selector.epfd events_cap (some (wait queued)) w ≡ (ok es, w')
      → run_once platform (at o queued lines w)
        ≡ (ok tt, at o [] (lines ++ map print (map (ep_event_to_event flags) es ++ queued)) w')
  unfolding run_once print_events
  run_once-ok o queued lines es w w' e =
      ap (print_events platform (at o queued lines w)) (round_polled o queued es w w' e)

  run_once-err :
      (o : OsQueue) (queued : List Event) (lines : List Line) (x : IoError) (w w' : W)
      → kernel.epoll_wait o.selector.epfd events_cap (some (wait queued)) w ≡ (err x, w')
      → run_once platform (at o queued lines w) ≡ (err x, at o queued lines w')
  unfolding run_once print_events
  run_once-err o queued lines x w w' e =
      ap (print_events platform (at o queued lines w)) (round_stopped o queued x w w' e)

  -- The rest of the loop and of its reference, for what the round returned.
  abbrev rest : ℕ → IoResult (Unit {0}) × Running W → IoResult (Unit {0}) × List Line × W
  rest rounds (result, r) =
      output (elim result [ ok u ↦ run platform rounds r | err e ↦ (err e, r) ])

  abbrev reference_rest :
      (epfd rounds : ℕ) (queued : List Event) (lines : List Line)
      → IoResult (List EpEvent) × W
      → IoResult (Unit {0}) × List Line × W
  reference_rest epfd rounds queued lines (answer, w') = elim answer [
    | err e ↦ (err e, lines, w')
    | ok es ↦
        reference flags kernel epfd rounds []
          (lines ++ map print (map (ep_event_to_event flags) es ++ queued)) w'
  ]

  -- The loop does what its reference says: over any number of rounds it prints, in each round, the
  -- events of the system, in the order in which the system gave them, and then those that wait in
  -- the queue, each of them once, in the first round. It waits for a second at most, and not at all
  -- while events wait in the queue. It returns at the first error of the system, with that error,
  -- and then has printed what the rounds before it had to print.
  pub run-reference :
      (rounds : ℕ) (o : OsQueue) (queued : List Event) (lines : List Line) (w : W)
      → output (
          run platform rounds (record {
            program = record { os_queue = o; queue = record { events = queued } };
            lines = lines;
            world = w;
          }))
        ≡ reference flags kernel o.selector.epfd rounds queued lines w
  unfolding run reference
  run-reference zero o queued lines w = refl
  run-reference (suc rounds) o queued lines w =
      let epfd = o.selector.epfd in
      elim (Result-cases (kernel.epoll_wait epfd events_cap (some (wait queued)) w)) [
        | inl (es, w', e) ↦
            ap (rest rounds) (run_once-ok o queued lines es w w' e)
            ∙ run-reference rounds o [] _ w'
            ∙ sym (ap (reference_rest epfd rounds queued lines) e)
        | inr (x, w', e) ↦
            ap (rest rounds) (run_once-err o queued lines x w w' e)
            ∙ sym (ap (reference_rest epfd rounds queued lines) e)
      ]
