-- ===== src/Sys/Net/Pipe.antt =====
-- src/sys/unix/pipe.rs: the ends of a pipe.
use gaea.Event.{EventId}
use gaea.Os.Options.{RegisterOption}
use gaea.Os.Queue.{OsQueue}
use gaea.Os.Evented.{debug_assert, fd_register, fd_reregister, fd_deregister}
use gaea.Sys.Epoll.Abi.{EpollFlags, EpollKernel}
use gaea.Base.{not, Option, ℕ, List}
use gaea.Base.Io.{Io}
use gaea.Os.Interests.{is_readable, is_writable, Interests, interests_readable, interests_writable}
use gaea.Sys.Net.Std.{StdFile}

pub record Receiver : Type 0 where
  pub inner : ℕ

pub record Sender : Type 0 where
  pub inner : ℕ

abbrev pub receiver_interests : Interests
receiver_interests = interests_readable

abbrev pub sender_interests : Interests
sender_interests = interests_writable

unfoldable pub receiver_fd : Receiver → ℕ
receiver_fd self = self.inner

unfoldable pub sender_fd : Sender → ℕ
sender_fd self = self.inner

unfoldable pub receiver_into_raw_fd : Receiver → ℕ
receiver_into_raw_fd self = self.inner

unfoldable pub sender_into_raw_fd : Sender → ℕ
sender_into_raw_fd self = self.inner

module _ {W : Type 0} (file : StdFile W) where
  unfoldable pub read : Receiver → ℕ → Io W (List ℕ)
  read self buf = file.read self.inner buf

  unfoldable pub write : Sender → List ℕ → Io W ℕ
  write self buf = file.write self.inner buf

  unfoldable pub flush : Sender → Io W (Unit {0})
  flush self = file.flush self.inner

-- `Evented`.
module _ (flags : EpollFlags) {W : Type 0} (kernel : EpollKernel W) where
  unfoldable pub receiver_register :
      Receiver → OsQueue → EventId → Interests → RegisterOption → Option (Io W (Unit {0}))
  unfolding fd_register receiver_fd
  receiver_register self os_queue id interests opt =
      debug_assert (not (is_writable interests)) flags.debug_assertions
        (fd_register flags kernel (receiver_fd self) os_queue id interests opt)

  unfoldable pub receiver_reregister :
      Receiver → OsQueue → EventId → Interests → RegisterOption → Option (Io W (Unit {0}))
  unfolding fd_reregister receiver_fd
  receiver_reregister self os_queue id interests opt =
      debug_assert (not (is_writable interests)) flags.debug_assertions
        (fd_reregister flags kernel (receiver_fd self) os_queue id interests opt)

  unfoldable pub receiver_deregister : Receiver → OsQueue → Io W (Unit {0})
  unfolding fd_deregister receiver_fd
  receiver_deregister self os_queue = fd_deregister flags kernel (receiver_fd self) os_queue

  unfoldable pub sender_register :
      Sender → OsQueue → EventId → Interests → RegisterOption → Option (Io W (Unit {0}))
  unfolding fd_register sender_fd
  sender_register self os_queue id interests opt =
      debug_assert (not (is_readable interests)) flags.debug_assertions
        (fd_register flags kernel (sender_fd self) os_queue id interests opt)

  unfoldable pub sender_reregister :
      Sender → OsQueue → EventId → Interests → RegisterOption → Option (Io W (Unit {0}))
  unfolding fd_reregister sender_fd
  sender_reregister self os_queue id interests opt =
      debug_assert (not (is_readable interests)) flags.debug_assertions
        (fd_reregister flags kernel (sender_fd self) os_queue id interests opt)

  unfoldable pub sender_deregister : Sender → OsQueue → Io W (Unit {0})
  unfolding fd_deregister sender_fd
  sender_deregister self os_queue = fd_deregister flags kernel (sender_fd self) os_queue
