-- ===== src/Sys/Kqueue/SignalKnotes.antt =====
-- src/sys/unix/kqueue.rs: the filters that `register_signals` registers.
use gaea.Base.{Bool, false, ◌&&◌, Option, none, some, List, [], ◌∷◌, ◌==◌, if◌then◌else◌}
use gaea.Event.{EventId}
use gaea.Os.Signals.{Signal, SignalSet, SignalNumbers, into_raw, from_raw, from, contains}
use gaea.Sys.Kqueue.Abi.{KqueueFlags}
use gaea.Sys.Kqueue.Knotes.{Knotes}
use gaea.Sys.Kqueue.Settings.{Setting}

-- The signal of a number is in the set.
abbrev pub holds : SignalSet → Option Signal → Bool
holds s none = false
holds s (some x) = contains s (from x)

module _ (c : KqueueFlags) (numbers : SignalNumbers) where
  -- What registering a set of signals promises: exactly its signals are registered, under the
  -- identifier, and nothing else has changed.
  abbrev pub signals_registered : EventId → SignalSet → Knotes → Knotes
  signals_registered id s m n f =
      if f == c.evfilt_signal && holds s (from_raw numbers n) then some id else m n f

  -- The settings that the changes make.
  abbrev signal_settings : EventId → List Signal → List Setting
  signal_settings id [] = []
  signal_settings id (x ∷ xs) =
      record { ident = into_raw numbers x; filter = c.evfilt_signal; value = some id }
      ∷ signal_settings id xs
