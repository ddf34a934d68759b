-- ===== src/Os/Handles.antt =====
-- The types that implement `Evented` (src/os/evented.rs) as one type: an `EventedFd`, the ends of a
-- pipe, and the sockets of src/net; and the methods of `OsQueue` in src/os/mod.rs that register
-- them. `none` is a panic.
pub mod Histories
use gaea.Base.{ℕ, ◌≡◌, refl, Bool, true, not, Option, none, some, arith}
use gaea.Base.Io.{Io}
use gaea.Event.{EventId}
use gaea.Os.Interests.{
  Interests, interests_readable, interests_writable, interests_both, is_readable, is_writable,
}
use gaea.Os.Options.{RegisterOption}
use gaea.Os.Queue.{OsQueue}
use gaea.Os.Evented.{debug_assert, fd_register, fd_reregister, fd_deregister}
use gaea.Net.Stream as NetStream
use gaea.Net.Listener as NetListener
use gaea.Net.Udp as NetUdp
use gaea.Sys.Net.Pipe as Pipe
use gaea.Sys.Epoll.Abi.{EpollFlags, EpollKernel}
use gaea.Sys.Epoll as Epoll

-- A handle that owns, or refers to, a file descriptor.
pub data Handle : Type 0 where
  evented_fd tcp_stream tcp_listener udp_socket receiver sender : ℕ → Handle

unfoldable pub as_raw_fd : Handle → ℕ
as_raw_fd (evented_fd fd) = fd
as_raw_fd (tcp_stream fd) = fd
as_raw_fd (tcp_listener fd) = fd
as_raw_fd (udp_socket fd) = fd
as_raw_fd (receiver fd) = fd
as_raw_fd (sender fd) = fd

-- The constants `INTERESTS`; an `EventedFd` has none.
unfoldable pub interests_of : Handle → Option Interests
interests_of (evented_fd fd) = none
interests_of (tcp_stream fd) = some interests_both
interests_of (tcp_listener fd) = some interests_readable
interests_of (udp_socket fd) = some interests_both
interests_of (receiver fd) = some interests_readable
interests_of (sender fd) = some interests_writable

-- What a handle can be monitored for: the reading end of a pipe and a listener are never
-- written, and the writing end of a pipe is never read.
abbrev pub can_monitor : Handle → Interests → Bool
can_monitor (tcp_listener fd) i = not (is_writable i)
can_monitor (receiver fd) i = not (is_writable i)
can_monitor (sender fd) i = not (is_readable i)
can_monitor _ i = true

-- The constant `INTERESTS` of a handle is never refused.
pub interests_of-can_monitor :
    (h : Handle) {i : Interests} → interests_of h ≡ some i → can_monitor h i ≡ true
unfolding interests_of is_readable is_writable
interests_of-can_monitor h e = ground arith

module _ (flags : EpollFlags) {W : Type 0} (kernel : EpollKernel W) where
  -- The methods of each handle.
  handle_register :
      Handle → OsQueue → EventId → Interests → RegisterOption → Option (Io W (Unit {0}))
  unfolding fd_register
  handle_register (evented_fd fd) q id i o = some (fd_register flags kernel fd q id i o)
  handle_register (tcp_stream fd) q id i o =
      some (NetStream.register flags kernel (NetStream.from_raw_fd fd) q id i o)
  handle_register (tcp_listener fd) q id i o =
      NetListener.register flags kernel (NetListener.from_raw_fd fd) q id i o
  handle_register (udp_socket fd) q id i o =
      some (NetUdp.register flags kernel (NetUdp.from_raw_fd fd) q id i o)
  handle_register (receiver fd) q id i o =
      Pipe.receiver_register flags kernel (record { inner = fd }) q id i o
  handle_register (sender fd) q id i o =
      Pipe.sender_register flags kernel (record { inner = fd }) q id i o

  handle_reregister :
      Handle → OsQueue → EventId → Interests → RegisterOption → Option (Io W (Unit {0}))
  unfolding fd_reregister
  handle_reregister (evented_fd fd) q id i o = some (fd_reregister flags kernel fd q id i o)
  handle_reregister (tcp_stream fd) q id i o =
      some (NetStream.reregister flags kernel (NetStream.from_raw_fd fd) q id i o)
  handle_reregister (tcp_listener fd) q id i o =
      NetListener.reregister flags kernel (NetListener.from_raw_fd fd) q id i o
  handle_reregister (udp_socket fd) q id i o =
      some (NetUdp.reregister flags kernel (NetUdp.from_raw_fd fd) q id i o)
  handle_reregister (receiver fd) q id i o =
      Pipe.receiver_reregister flags kernel (record { inner = fd }) q id i o
  handle_reregister (sender fd) q id i o =
      Pipe.sender_reregister flags kernel (record { inner = fd }) q id i o

  handle_deregister : Handle → OsQueue → Io W (Unit {0})
  unfolding fd_deregister
  handle_deregister (evented_fd fd) q = fd_deregister flags kernel fd q
  handle_deregister (tcp_stream fd) q =
      NetStream.deregister flags kernel (NetStream.from_raw_fd fd) q
  handle_deregister (tcp_listener fd) q =
      NetListener.deregister flags kernel (NetListener.from_raw_fd fd) q
  handle_deregister (udp_socket fd) q = NetUdp.deregister flags kernel (NetUdp.from_raw_fd fd) q
  handle_deregister (receiver fd) q =
      Pipe.receiver_deregister flags kernel (record { inner = fd }) q
  handle_deregister (sender fd) q = Pipe.sender_deregister flags kernel (record { inner = fd }) q

  -- The methods of `OsQueue`.
  pub register : OsQueue → Handle → EventId → Interests → RegisterOption → Option (Io W (Unit {0}))
  unfolding handle_register
  register self handle id interests opt = handle_register handle self id interests opt

  pub reregister :
      OsQueue → Handle → EventId → Interests → RegisterOption → Option (Io W (Unit {0}))
  unfolding handle_reregister
  reregister self handle id interests opt = handle_reregister handle self id interests opt

  pub deregister : OsQueue → Handle → Io W (Unit {0})
  unfolding handle_deregister
  deregister self handle = handle_deregister handle self

  -- Whatever the handle, `OsQueue` registers, re-registers and deregisters its file descriptor with
  -- the selector, with the arguments as they were given. Interests that the handle can not be
  -- monitored for are refused in both registrations, by a panic, in a build with debug assertions.
  pub register_handles :
      (q : OsQueue) (h : Handle) (id : EventId) (i : Interests) (o : RegisterOption)
      → (register q h id i o
          ≡ debug_assert
              (can_monitor h i)
              flags.debug_assertions
              (Epoll.register flags kernel q.selector (as_raw_fd h) id i o))
        × (reregister q h id i o
            ≡ debug_assert
                (can_monitor h i)
                flags.debug_assertions
                (Epoll.reregister flags kernel q.selector (as_raw_fd h) id i o))
        × (deregister q h ≡ Epoll.deregister flags kernel q.selector (as_raw_fd h))
  unfolding register reregister deregister as_raw_fd NetStream.register NetStream.reregister
      NetStream.deregister NetStream.from_raw_fd NetListener.register NetListener.reregister
      NetListener.deregister NetListener.from_raw_fd NetUdp.register NetUdp.reregister
      NetUdp.deregister NetUdp.from_raw_fd Pipe.receiver_register Pipe.receiver_reregister
      Pipe.receiver_deregister Pipe.sender_register Pipe.sender_reregister Pipe.sender_deregister
  register_handles q (evented_fd fd) id i o = (refl, refl, refl)
  register_handles q (tcp_stream fd) id i o = (refl, refl, refl)
  register_handles q (tcp_listener fd) id i o = (refl, refl, refl)
  register_handles q (udp_socket fd) id i o = (refl, refl, refl)
  register_handles q (receiver fd) id i o = (refl, refl, refl)
  register_handles q (sender fd) id i o = (refl, refl, refl)
