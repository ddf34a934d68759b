-- ===== src/Tests/OsTests.antt =====
-- src/os on concrete inputs.
use gaea.Base.{◌≡◌, ◌↔◌, some, arith, length}
use gaea.Os.Interests.{IsValid, interests_readable, interests_writable}
use gaea.Os.Signals.{
  len, count, terminate, SignalSet, SignalNumbers, AreDistinct, collect, size_hint, into_raw,
  from_raw,
}
use gaea.Os.Signals.Sets.{from_raw-into_raw}
use gaea.Os.Signals.Iteration.{members, collect-members}
use gaea.Os.Queue.{OsQueue}

abbrev os_queue : OsQueue
os_queue = record { selector = record { epfd = 3 } }

abbrev two_signals : SignalSet
two_signals = record { bits = 5 }

collect-members_example :
    (collect 4 two_signals ≡ some (members two_signals))
    × (size_hint two_signals ≡ (length (members two_signals), some (length (members two_signals))))
    × (count two_signals ≡ length (members two_signals))
    × (len two_signals ≡ length (members two_signals))
collect-members_example = collect-members two_signals 0 (omega arith)

abbrev linux_signals : SignalNumbers
linux_signals = record { sigint = 2; sigquit = 3; sigterm = 15 }

linux_signals-AreDistinct : AreDistinct linux_signals
linux_signals-AreDistinct = omega arith

from_raw-into_raw_example :
    (from_raw linux_signals (into_raw linux_signals terminate) ≡ some terminate)
    × ((from_raw linux_signals 15 ≡ some terminate) ↔ (15 ≡ into_raw linux_signals terminate))
from_raw-into_raw_example = from_raw-into_raw linux_signals linux_signals-AreDistinct terminate 15

readable-IsValid : IsValid interests_readable
readable-IsValid = record { nonzero = omega arith; small = omega arith }

writable-IsValid : IsValid interests_writable
writable-IsValid = record { nonzero = omega arith; small = omega arith }
