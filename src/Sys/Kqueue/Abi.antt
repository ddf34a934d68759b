-- ===== src/Sys/Kqueue/Abi.antt =====
-- What src/sys/unix/kqueue.rs takes from libc and the kernel: the constants, and the system call
-- `kevent` with its documented behaviour.
use gaea.Base.Io.{Io}
use gaea.Base.{ℕ, ◌≤◌, ◌≡◌, ◌≢◌, Option, List, length, ok, IoError}

-- The structure `kevent`.
pub record Kevent : Type 0 where
  pub ident : ℕ
  pub filter : ℕ
  pub flags : ℕ
  pub fflags : ℕ
  pub datum : ℕ
  pub udata : ℕ

pub record KqueueFlags : Type 0 where
  pub ev_add : ℕ
  pub ev_delete : ℕ
  pub ev_receipt : ℕ
  pub ev_clear : ℕ
  pub ev_oneshot : ℕ
  pub ev_error : ℕ
  pub ev_eof : ℕ
  pub evfilt_read : ℕ
  pub evfilt_write : ℕ
  pub evfilt_user : ℕ
  pub evfilt_signal : ℕ
  pub note_trigger : ℕ
  pub enoent : ℕ

-- The filters differ from one another.
pub record AreFilters (f : KqueueFlags) : Type 0 where
  pub read_write : f.evfilt_read ≢ f.evfilt_write
  pub read_user : f.evfilt_read ≢ f.evfilt_user
  pub write_user : f.evfilt_write ≢ f.evfilt_user

-- `timespec`.
pub record Timespec : Type 0 where
  pub tv_sec : ℕ
  pub tv_nsec : ℕ

-- `changes` is `kevent` with an array of changes that is also the array of events: what the
-- array holds afterwards. `wait` is `kevent` with no changes, room for events and a timeout, or none
-- to wait for ever.
pub record KqueueKernel (W : Type 0) : Type 0 where
  pub kqueue : Io W ℕ
  pub dup : ℕ → Io W ℕ
  pub changes : ℕ → List Kevent → Io W (List Kevent)
  pub wait : ℕ → ℕ → Option Timespec → Io W (List Kevent)
  pub close : ℕ → Io W (Unit {0})
  pub from_raw_os_error : ℕ → IoError

-- `kevent` returns at most as many events as the array it is given has room for.
abbrev pub WaitsWithin : {W : Type 0} → KqueueKernel W → Type 0
WaitsWithin {W} kernel =
    (kq cap : ℕ) (timeout : Option Timespec) (w : W) (es : List Kevent)
    → (kernel.wait kq cap timeout w).0 ≡ ok es
    → length es ≤ cap
