-- ===== src/SignalLoop.antt =====
-- examples/signals.rs: a program that prints the signals that it receives, until it is to
-- terminate. What it prints is a list of lines.
pub mod Handling
use gaea.Base.{
  ℕ, zero, suc, Bool, true, false, Option, none, some, List, [], ◌∷◌, ◌++◌, ◌==◌, if◌then◌else◌, ok,
  err, IoResult,
}
use gaea.Base.Io.{Io}
use gaea.Event.{Event, EventId}
use gaea.Event.Sink.{vec_sink}
use gaea.Os.Handlers.{Signals, signals_new, signals_receive}
use gaea.Os.Queue.{OsQueue, os_source}
use gaea.Os.Queue as Queue
use gaea.Os.Signals.{Signal, interrupt, quit, terminate, SignalNumbers, set_all}
use gaea.Poll.{poll}
use gaea.Sys.Epoll.Abi.{EpollFlags, EpollKernel}
use gaea.Sys.SignalFd.Abi.{SignalKernel}
use gaea.Sys.SignalFd.{Received, returned, panicked, out_of_fuel}

abbrev pub signal_id : EventId
signal_id = 10

pub data Line : Type 0 where
  got_interrupt got_terminate got_quit : Line
  got_unknown_signal : Event → Line
  got_unknown_event : Event → Line

-- How a part of the program returns: its result, which is whether `main` is to return, the lines
-- that are printed and the world. `none` is a panic, or the end of the fuel.
abbrev pub Returns : Type 0 → Type 0
Returns W = Option (IoResult Bool × List Line × W)

-- The next part, unless `main` has returned.
unfoldable pub and_then : {W : Type 0} → Returns W → (List Line → W → Returns W) → Returns W
and_then none next = none
and_then (some (ok false, lines, w)) next = next lines w
and_then (some (ok true, lines, w)) next = some (ok true, lines, w)
and_then (some (err e, lines, w)) next = some (err e, lines, w)

-- The match on the signal.
unfoldable pub print_signal : Event → Option Signal → Bool × Line
print_signal event (some interrupt) = (false, got_interrupt)
print_signal event (some terminate) = (true, got_terminate)
print_signal event (some quit) = (false, got_quit)
print_signal event none = (false, got_unknown_signal event)

unfoldable pub print_received : {W : Type 0} → Event → List Line → Received W → Returns W
unfolding print_signal
print_received event lines (returned (ok signal) w) =
    let (done, line) = print_signal event signal in some (ok done, lines ++ line ∷ [], w)
print_received event lines (returned (err e) w) = some (err e, lines, w)
print_received event lines (panicked w) = none
print_received event lines out_of_fuel = none

module _ (c : SignalNumbers) {W G : Type 0} (k : SignalKernel W G) (flags : EpollFlags)
    (kernel : EpollKernel W) where
  -- What `main` does before its loop. `none` is a `debug_assert!` that fails.
  unfoldable pub start : W → Option (IoResult (OsQueue × Signals) × W)
  start w =
      let (r, w₁) = Queue.new flags kernel w in
      elim r [
        | err e ↦ some (err e, w₁)
        | ok os_queue ↦ elim (signals_new c k flags kernel os_queue set_all signal_id) [
          | none ↦ none
          | some call ↦
              let (r', w₂) = call w₁ in
              elim r' [ err e ↦ some (err e, w₂) | ok signals ↦ some (ok (os_queue, signals), w₂) ]
        ]
      ]

  unfoldable pub handle_event : ℕ → Signals → Event → List Line → W → Returns W
  unfolding print_received signals_receive
  handle_event fuel signals event lines w =
      if event.id == signal_id
      then print_received event lines (signals_receive c k fuel signals w)
      else some (ok false, lines ++ got_unknown_event event ∷ [], w)

  unfoldable pub handle_events : ℕ → Signals → List Event → List Line → W → Returns W
  unfolding handle_event and_then
  handle_events fuel signals [] lines w = some (ok false, lines, w)
  handle_events fuel signals (event ∷ events) lines w =
      and_then (handle_event fuel signals event lines w) (handle_events fuel signals events)

  -- A round of the loop, with an empty sink at its start, as `drain` leaves it.
  unfoldable pub run_once : ℕ → OsQueue → Signals → List Line → W → Returns W
  unfolding handle_events
  run_once fuel os_queue signals lines w =
      let polled = poll (os_source flags kernel vec_sink (λ e. e)) (os_queue ∷ []) [] none w in
      elim polled.result [
        | ok u ↦ handle_events fuel signals polled.sink lines polled.world
        | err e ↦ some (err e, lines, polled.world)
      ]

  -- So many rounds of the loop.
  unfoldable pub run : ℕ → ℕ → OsQueue → Signals → List Line → W → Returns W
  unfolding run_once and_then
  run fuel zero os_queue signals lines w = some (ok false, lines, w)
  run fuel (suc rounds) os_queue signals lines w =
      and_then (run_once fuel os_queue signals lines w) (run fuel rounds os_queue signals)
