-- ===== src/Sys/Epoll/Abi.antt =====
-- What src/sys/unix/epoll.rs takes from libc and the kernel: the flags, and the system calls of
-- epoll with their documented behaviour.
use gaea.Base.Io.{Io}
use gaea.Base.{Bool, ℕ, ◌≤◌, bit_and, ◌≡◌, ◌≢◌, Option, List, length, ok}

-- The constants of libc, and whether the build has debug assertions.
pub record EpollFlags : Type 0 where
  pub epollin : ℕ
  pub epollpri : ℕ
  pub epollout : ℕ
  pub epollrdhup : ℕ
  pub epollerr : ℕ
  pub epollhup : ℕ
  pub epollet : ℕ
  pub epolloneshot : ℕ
  pub debug_assertions : Bool

-- The flags of a request are not zero, and no two of them share a bit.
pub record AreFlags (f : EpollFlags) : Type 0 where
  pub in_in : bit_and f.epollin f.epollin ≢ 0
  pub pri_pri : bit_and f.epollpri f.epollpri ≢ 0
  pub out_out : bit_and f.epollout f.epollout ≢ 0
  pub rdhup_rdhup : bit_and f.epollrdhup f.epollrdhup ≢ 0
  pub et_et : bit_and f.epollet f.epollet ≢ 0
  pub oneshot_oneshot : bit_and f.epolloneshot f.epolloneshot ≢ 0
  pub pri_in : bit_and f.epollpri f.epollin ≡ 0
  pub pri_out : bit_and f.epollpri f.epollout ≡ 0
  pub pri_et : bit_and f.epollpri f.epollet ≡ 0
  pub pri_oneshot : bit_and f.epollpri f.epolloneshot ≡ 0
  pub rdhup_in : bit_and f.epollrdhup f.epollin ≡ 0
  pub rdhup_out : bit_and f.epollrdhup f.epollout ≡ 0
  pub rdhup_et : bit_and f.epollrdhup f.epollet ≡ 0
  pub rdhup_oneshot : bit_and f.epollrdhup f.epolloneshot ≡ 0
  pub in_out : bit_and f.epollin f.epollout ≡ 0
  pub in_et : bit_and f.epollin f.epollet ≡ 0
  pub in_oneshot : bit_and f.epollin f.epolloneshot ≡ 0
  pub out_et : bit_and f.epollout f.epollet ≡ 0
  pub out_oneshot : bit_and f.epollout f.epolloneshot ≡ 0
  pub et_oneshot : bit_and f.epollet f.epolloneshot ≡ 0

-- `epoll_event`.
pub record EpEvent : Type 0 where
  pub events : ℕ
  pub u64 : ℕ

pub data CtlOp : Type 0 where
  ctl_add ctl_mod ctl_del : CtlOp

-- The calls of epoll; the first argument is the descriptor of an instance, and a timeout of `none`
-- is the -1 of the call, to wait for ever.
pub record EpollKernel (W : Type 0) : Type 0 where
  pub epoll_create1 : Io W ℕ
  pub epoll_ctl : ℕ → CtlOp → ℕ → Option EpEvent → Io W (Unit {0})
  pub epoll_wait : ℕ → ℕ → Option ℕ → Io W (List EpEvent)
  pub close : ℕ → Io W (Unit {0})

-- `epoll_wait` returns at most as many events as the array it is given has room for.
abbrev pub WaitsWithin : {W : Type 0} → EpollKernel W → Type 0
WaitsWithin {W} kernel =
    (epfd cap : ℕ) (timeout : Option ℕ) (w : W) (es : List EpEvent)
    → (kernel.epoll_wait epfd cap timeout w).0 ≡ ok es
    → length es ≤ cap
