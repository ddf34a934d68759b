-- ===== src/Os/Queue.antt =====
-- src/os/mod.rs: `OsQueue` on Linux, and its implementation of `event::Source`. `IoError` is turned
-- into the error of the caller by a function `from`. Tracing is left out.
pub mod Polling
pub mod Alone
use gaea.Base.{Option, none, some, Result, ok, err, IoError}
use gaea.Base.Io.{Io, pure, ◌>>=◌}
use gaea.Event.Sink.{Sink}
use gaea.Event.Source.{Source, Polled, Duration}
use gaea.Sys.Epoll.Abi.{EpollFlags, EpollKernel}
use gaea.Sys.Epoll.{Selector, selector_new, select}

pub record OsQueue : Type 0 where
  pub selector : Selector

-- `map_err(Into::into)`.
abbrev pub map_err : {E F : Type 0} → (E → F) → Result (Unit {0}) E → Result (Unit {0}) F
map_err from (ok _) = ok tt
map_err from (err e) = err (from e)

unfoldable pub max_timeout : OsQueue → Option Duration
max_timeout self = none

module _ (flags : EpollFlags) {W : Type 0} (kernel : EpollKernel W) where
  unfoldable pub new : Io W OsQueue
  unfolding selector_new
  new = do selector ← selector_new flags kernel; pure (record { selector = selector })

  module _ {ES E : Type 0} (sink : Sink ES) (from : IoError → E) where
    unfoldable pub blocking_poll : OsQueue → ES → Option Duration → W → Polled OsQueue ES W E
    blocking_poll self event_sink timeout w =
        let (r, s, w') = select flags kernel sink self.selector event_sink timeout w in
        record { source = self; sink = s; world = w'; result = map_err from r }

    unfoldable pub poll : OsQueue → ES → W → Polled OsQueue ES W E
    unfolding blocking_poll
    poll self event_sink w = blocking_poll self event_sink (some 0) w

    -- `impl event::Source for OsQueue`.
    abbrev pub os_source : Source OsQueue ES W E
    os_source = record {
      max_timeout = λ self w. (max_timeout self, w);
      poll = poll;
      blocking_poll = blocking_poll;
    }
