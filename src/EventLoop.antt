-- ===== src/EventLoop.antt =====
-- src/lib.rs: the event loop of the documentation of the crate, on a queue of the operating system
-- and a queue of user space. What it prints is a list of lines.
pub mod Printing
use gaea.Base.{ℕ, zero, suc, some, List, [], ◌∷◌, ◌++◌, map, ok, err, IoError, IoResult}
use gaea.Base.Io.{Io, pure, ◌>>=◌}
use gaea.Event.{Event, EventId, Ready, event_new, ready_readable}
use gaea.Event.Source.{Duration}
use gaea.Os.Queue.{OsQueue}
use gaea.Os.Queue as Os
use gaea.UserSpace.{Queue}
use gaea.UserSpace as UserSpace
use gaea.Poll.{poll, PolledAll}
use gaea.Sources.{AnySource, queue, os_queue, Platform, any_source}

-- `Got event: id={}, readiness={:?}`.
pub record Line : Type 0 where
  pub id : EventId
  pub readiness : Ready

abbrev pub print : Event → Line
print event = record { id = event.id; readiness = event.readiness }

-- One second.
abbrev pub timeout : Duration
timeout = 1_000_000_000

pub record Program : Type 0 where
  pub os_queue : OsQueue
  pub queue : Queue

-- The variables of the program, with the lines that it has printed.
pub record Running (W : Type 0) : Type 0 where
  pub program : Program
  pub lines : List Line
  pub world : W

-- `poll` has the two variables by `&mut`.
abbrev pub assign : {H : Type 0} → Program → List (AnySource H) → Program
assign p (os_queue o ∷ queue q ∷ []) = record { os_queue = o; queue = q }
assign p _ = p

module _ {H W : Type 0} (p : Platform H (List Event) W IoError) where
  unfoldable pub start : Io W Program
  start = do
    made ← Os.new p.flags p.kernel
    pure (record {
      os_queue = made;
      queue = UserSpace.add UserSpace.new (event_new 0 ready_readable);
    })

  -- `?` behind the poll, and the loop over the events.
  unfoldable pub print_events :
      Running W → PolledAll (AnySource H) (List Event) W IoError → IoResult (Unit {0}) × Running W
  print_events r polled = elim polled.result [
    | ok u ↦ (
      ok tt,
      record {
        program = assign r.program polled.source;
        lines = r.lines ++ map print polled.sink;
        world = polled.world;
      },
    )
    | err e ↦ (err e, record r { world = polled.world })
  ]

  -- A round of the loop, which starts with no events, as `drain` leaves them.
  unfoldable pub run_once : Running W → IoResult (Unit {0}) × Running W
  unfolding print_events
  run_once r =
      let sources = os_queue r.program.os_queue ∷ queue r.program.queue ∷ [] in
      print_events r (poll (any_source p) sources [] (some timeout) r.world)

  -- So many rounds of the loop; as a test of the documentation it runs for one.
  unfoldable pub run : ℕ → Running W → IoResult (Unit {0}) × Running W
  unfolding run_once
  run zero r = (ok tt, r)
  run (suc rounds) r =
      let (result, r') = run_once r in elim result [ ok u ↦ run rounds r' | err e ↦ (err e, r') ]
