-- ===== src/Lib.antt =====
-- gaea is a library for readiness event queues: `poll` (src/lib.rs) asks a list of event sources
-- for events and puts these into an event sink. The sources of the crate are the user space queue
-- `Queue` (src/user_space.rs), the deadline queue `Timers` (src/timers.rs) and `OsQueue`
-- (src/os/mod.rs), which hands file descriptors to the selector of the platform (src/sys/unix).
-- `Event`, `Ready`, `Capacity` and the traits `Sink` and `Source` (src/event.rs) lie between them.
--
-- The parts, each with the file that models it; the children of a file hold its theorems.
--
--   Event        src/event.rs: readiness sets, events, capacities. Event/Sink has the trait `Sink`
--                as a record of its methods, with the laws that its documentation asks for; its
--                default `extend`, and the sink `Vec<Event>`. Event/Source has the trait `Source`,
--                and Event/Debug the printing of a readiness set.
--   UserSpace    src/user_space.rs: `Queue`.
--   Timers       src/timers.rs: `Timers`. Timers/Heap has the operations and the laws of the binary
--                heap of the standard library, and Timers/Scan a heap that has the laws. The
--                reference for the timers is a list of deadlines in order (Timers/Reference, with
--                Timers/Ordered, Timers/Expiry and Timers/Equivalence).
--   Poll         src/lib.rs: `poll` and `min_timeout`, over any type of sources with the methods of
--                `Source`. Poll/Invariants carries invariants of the sources through `poll`.
--   Sources      the three sources of the crate as one type, as trait objects are, under `poll`;
--                Sources/Waiting is about the time for which `poll` may block, Sources/Readiness
--                about the bits of the readiness of events, and Sources/Round about a poll of all
--                three,
--                by the lemmas of Sources/Steps.
--   Os           src/os: Os/Interests and Os/Options (src/os/interests.rs, src/os/option.rs),
--                Os/Signals (src/os/signals.rs, the sets and numbers of signals), Os/Queue
--                (src/os/mod.rs, `OsQueue` on Linux), Os/Evented (src/sys/unix/eventedfd.rs),
--                Os/Handles, the choice among the types that implement `Evented` and their
--                registration in src/os/mod.rs, with histories of such calls in
--                Os/Handles/Histories, and
--                Os/Handlers (`os::Awakener` and `os::Signals` of src/os/awakener.rs and
--                src/os/signals.rs, on Linux).
--   Sys          src/sys/unix: Sys/Epoll (src/sys/unix/epoll.rs), Sys/Kqueue
--                (src/sys/unix/kqueue.rs), Sys/Awakener (src/sys/unix/awakener.rs), Sys/Net
--                (src/sys/unix/tcp.rs, src/sys/unix/udp.rs and src/sys/unix/pipe.rs), Sys/SignalFd
--                and Sys/SignalKq (src/sys/unix/signals.rs on
--                Linux and on kqueue). Sys/Kqueue/Knotes and Sys/Kqueue/Registry describe what a
--                list of changes leaves registered in a kqueue, Sys/Kqueue/SignalKnotes the same
--                for signals; Sys/Kqueue/Settings is about changes that the system refuses.
--                Sys/Awakener/Steps and Sys/Awakener/System take `wake` apart into
--                single system calls, with polls of the queue and wakes of other threads in
--                between, and Sys/Awakener/UserSystem puts polls between the calls of `wake` on a
--                kqueue. In Sys/Net/Owned the descriptors belong to sockets of the standard
--                library, which close them when they are dropped. Sys/Leaks is about the
--                descriptors of
--                the awakener and the signal handler of Linux, and Sys/Kqueue/Owned about those of
--                the ones on kqueue, which `Drop` closes.
--   Net          src/net: `TcpStream`, `TcpListener` and `UdpSocket`, which pass
--                their calls on to the
--                types of the same names in Sys/Net (Sys/Net/Stream, Sys/Net/Listener,
--                Sys/Net/Udp).
--   Echo         src/net/udp.rs: the echo program in the documentation of `UdpSocket`, with what it
--                relies on of the system (Echo/Abi).
--   Server       examples/tcp_server.rs: the loop of `main`, with the map of connections
--                (Server/Connections) and what the example calls (Server/Abi). Server/Logging is
--                about
--                which connections the system hands out.
--   EventLoop    src/lib.rs: the event loop in the documentation of the crate, on two queues.
--   SignalLoop   examples/signals.rs: its loop, with the lines that it prints.
--   Base, Bits   what the others share: tests, lists, results, input and output, bit sets.
--   Tests        the theorems on concrete inputs.
--
-- How code becomes a definition. A method that takes `&mut self` returns the new value beside its
-- result. What the operating system does is a change of a world `W`: a system call is a function
-- of the world, a field of a record in a module called Abi, and so is the clock; theorems that
-- rely on what the manual pages say of a call have that as a hypothesis, and the tests give an
-- implementation that fulfils it. A method is named after the Rust method, in the module of its
-- file. An error is a value of `Result`; a panic is `none`, except in `poll` of the timers and of
-- the user space queue (where `drain` has one), where it is an error of its own, and in `receive`,
-- which has a case for it. `debug_assert!` is there if the build has debug assertions, which is a
-- field of `EpollFlags`. The counter of ids in the example server wraps, as in release builds; the
-- theorems leave it room, so that it does not. Numbers are natural numbers: an `Instant` and a
-- `Duration` count nanoseconds. A bit set is the number of its bits. The timeout of epoll is
-- bounded by 24 hours and `events_cap` is 128, as in the source.
--
-- Loops are structural recursion over a list or over a number of rounds. Fuel is used in five
-- places, where enough of it is: `wake` on an eventfd needs two rounds, `wake` on a pipe needs one
-- for each byte in it and two more, the loop over a signal set four, `receive` one for each
-- interruption and one more, and `accept_connections` of the example one for each connection that
-- waits and one more.
--
-- Not modelled: tracing and logging, what the server prints, the conversions between `Id` and
-- `usize`, and the vectored reads and writes of nightly Rust. The methods of sockets and pipes
-- that only call the method of the standard library have that as a parameter (Sys/Net/Std); a
-- buffer to read into is its length. What `main` of an example owns is not dropped at its end, nor
-- are the descriptors that a failed set-up on Linux leaks. The error of a formatter is not passed
-- on. The panic of `Instant::now() + timeout` past the last instant of the platform is left out.
pub mod Base
pub mod Bits
pub mod Event
pub mod UserSpace
pub mod Poll
pub mod Timers
pub mod Os
pub mod Sys
pub mod Net
pub mod Echo
pub mod EventLoop
pub mod Sources
pub mod Server
pub mod SignalLoop
pub mod Tests
