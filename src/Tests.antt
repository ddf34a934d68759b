-- ===== src/Tests.antt =====
-- The theorems at work on concrete inputs.
mod Sample
mod Polling
mod TimerTests
mod EpollTests
mod OsTests
mod SysTests
mod ServerTests
mod WakeupTests
mod UserEventTests
mod KqueueTests
mod KnoteTests
mod SignalTests
mod LoopTests
mod EchoTests
mod EventLoopTests
mod LeakTests
mod OwnedTests
