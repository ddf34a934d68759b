-- ===== src/Sys/Awakener/Abi.antt =====
-- What src/sys/unix/awakener.rs takes from the kernel: eventfds, pipes and the user
-- events of a kqueue, with their documented behaviour.
use mathlib.Core.List.{Mem}
use gaea.Base.Io.{Io}
use gaea.Sys.Epoll.Abi.{EpollFlags, EpEvent, EpollKernel}
use gaea.Sys.Epoll.{contains_flag}
use gaea.Event.{EventId}
use gaea.Sys.Kqueue as Kqueue
use gaea.Sys.Kqueue.Knotes.{receipt}
use gaea.Sys.Kqueue.Abi.{Kevent, KqueueFlags, KqueueKernel, Timespec}
use gaea.Base.{false, ◌≢◌, ◌∷◌, [], interrupted}
use gaea.Base.{
  ℕ, suc, ◌+◌, ◌-◌, ◌^◌, ◌≤◌, ◌<◌, ◌≡◌, ◌⊎◌, Bool, true, Option, List, length, IoError, ok, err,
  would_block,
}

-- `eventfd`, `dup`, and reading and writing the eight bytes of a number.
pub record EventfdKernel (W : Type 0) : Type 0 where
  pub eventfd : Io W ℕ
  pub dup : ℕ → Io W ℕ
  pub read : ℕ → Io W ℕ
  pub write : ℕ → ℕ → Io W (Unit {0})

-- The largest count of an eventfd.
abbrev pub max_count : ℕ
max_count = 2 ^ 64 - 2

-- eventfd(2), for an open, non-blocking descriptor with its count: a write adds to the count, and
-- would block if the count got too large; a read takes the count, and would block if that is zero.
pub record IsEventfd {W : Type 0} (k : EventfdKernel W) (count : W → ℕ) (fd : ℕ) : Type 0 where
  pub written :
      (n : ℕ) (w : W)
      → count w + n ≤ max_count
      → (w' : W) × (k.write fd n w ≡ (ok tt, w')) × (count w' ≡ count w + n)
  pub full :
      (n : ℕ) (w : W)
      → max_count < count w + n
      → (w' : W) × (k.write fd n w ≡ (err would_block, w')) × (count w' ≡ count w)
  pub taken : (w : W) → 0 < count w → (w' : W) × (k.read fd w ≡ (ok (count w), w')) × (count w' ≡ 0)

-- `dup`, reading at most so many bytes, and writing one byte.
pub record PipeKernel (W : Type 0) : Type 0 where
  pub dup : ℕ → Io W ℕ
  pub read : ℕ → ℕ → Io W ℕ
  pub write : ℕ → Io W ℕ

-- pipe(7), for the two non-blocking ends of an open pipe with the number of bytes in it, if no
-- signal interrupts the calls: a write would block if the pipe is full, a read would block if it
-- is empty, and takes some bytes otherwise.
pub record IsPipe {W : Type 0} (k : PipeKernel W) (buffered : W → ℕ) (room sender receiver : ℕ)
    : Type 0 where
  pub written :
      (w : W)
      → buffered w < room
      → (w' : W) × (k.write sender w ≡ (ok 1, w')) × (buffered w' ≡ suc (buffered w))
  pub full :
      (w : W)
      → room ≤ buffered w
      → (w' : W) × (k.write sender w ≡ (err would_block, w')) × (buffered w' ≡ buffered w)
  pub taken :
      (w : W) (len : ℕ)
      → 0 < buffered w
      → 0 < len
      → (n : ℕ) × (w' : W) × (k.read receiver len w ≡ (ok (suc n), w'))
        × (buffered w' + suc n ≡ buffered w)
  pub empty :
      (w : W) (len : ℕ)
      → buffered w ≡ 0
      → (w' : W) × (k.read receiver len w ≡ (err would_block, w')) × (buffered w' ≡ 0)

-- eventfd(2) and epoll(7), for an eventfd that is registered with edge-triggered epoll under an
-- identifier. A write makes the registration `pending`. A wait reports what is pending if the count
-- is not zero then, as an event with `EPOLLIN`, or it is left pending for lack of room: then as many
-- other events were reported as there was room for. A wait does not change the count, and a wait
-- that fails changes nothing.
pub record IsEdgeTriggered {W : Type 0} (k : EventfdKernel W) (epolls : EpollKernel W)
    (flags : EpollFlags) (count : W → ℕ) (pending : W → Bool) (fd id : ℕ) : Type 0 where
  pub written :
      (n : ℕ) (w : W)
      → count w + n ≤ max_count
      → (w' : W) × (k.write fd n w ≡ (ok tt, w')) × (count w' ≡ count w + n) × (pending w' ≡ true)
  pub full :
      (n : ℕ) (w : W)
      → max_count < count w + n
      → (w' : W) × (k.write fd n w ≡ (err would_block, w'))
        × (count w' ≡ count w)
        × (pending w' ≡ pending w)
  pub taken : (w : W) → 0 < count w → (w' : W) × (k.read fd w ≡ (ok (count w), w')) × (count w' ≡ 0)
  pub empty :
      (w : W) → count w ≡ 0 → (w' : W) × (k.read fd w ≡ (err would_block, w')) × (count w' ≡ 0)
  pub reported :
      (epfd cap : ℕ) (t : Option ℕ) (w w' : W) (es : List EpEvent)
      → epolls.epoll_wait epfd cap t w ≡ (ok es, w')
      → (count w' ≡ count w)
        × (pending w ≡ true
            → 0 < count w
            → ((e : EpEvent) × Mem e es
                × (e.u64 ≡ id)
                × (contains_flag e.events flags.epollin ≡ true))
              ⊎ ((length es ≡ cap) × (pending w' ≡ true)))
  pub wait_failed :
      (epfd cap : ℕ) (t : Option ℕ) (w w' : W) (e : IoError)
      → epolls.epoll_wait epfd cap t w ≡ (err e, w')
      → (count w' ≡ count w) × (pending w' ≡ pending w)

-- A change that triggers the user event 0 of a kqueue, and adds it if it is not there, and that
-- asks for a receipt.
abbrev pub IsTrigger : KqueueFlags → EventId → Kevent → Type 0
IsTrigger c id k =
    (k.ident ≡ 0)
    × (k.filter ≡ c.evfilt_user)
    × (k.fflags ≡ c.note_trigger)
    × (k.udata ≡ id)
    × (Kqueue.contains_flag k.flags c.ev_receipt ≡ true)
    × (Kqueue.contains_flag k.flags c.ev_add ≡ true)
    × (Kqueue.contains_flag k.flags c.ev_delete ≡ false)

-- kqueue(2), for the user event 0 of one kqueue, which has the descriptors `IsOn`: whether it is
-- `triggered`. A call with a change that triggers it, and has `EV_RECEIPT`, returns the change as
-- its one entry, with `EV_ERROR` and an error number: it has triggered the event if that is 0, and
-- has done nothing if not. It has triggered the event too if a signal interrupts it, and has done
-- nothing if it fails otherwise. A wait returns what is triggered, or it
-- is left triggered for lack of room, and a wait that fails changes nothing.
pub record IsUserEvent (c : KqueueFlags) {W : Type 0} (kernel : KqueueKernel W) (IsOn : ℕ → Type 0)
    (triggered : W → Bool) (id : EventId) : Type 0 where
  pub applied :
      (kq : ℕ) (k : Kevent) (entries : List Kevent) (w w' : W)
      → IsOn kq
      → IsTrigger c id k
      → kernel.changes kq (k ∷ []) w ≡ (ok entries, w')
      → (errno : ℕ) × (entries ≡ receipt c k errno ∷ [])
        × (errno ≡ 0 → triggered w' ≡ true)
        × (errno ≢ 0 → triggered w' ≡ triggered w)
  pub was_interrupted :
      (kq : ℕ) (k : Kevent) (w w' : W)
      → IsOn kq
      → IsTrigger c id k
      → kernel.changes kq (k ∷ []) w ≡ (err interrupted, w')
      → triggered w' ≡ true
  pub failed :
      (kq : ℕ) (k : Kevent) (w w' : W) (e : IoError)
      → IsOn kq
      → IsTrigger c id k
      → kernel.changes kq (k ∷ []) w ≡ (err e, w')
      → e ≢ interrupted
      → triggered w' ≡ triggered w
  pub returned :
      (kq cap : ℕ) (t : Option Timespec) (w w' : W) (es : List Kevent)
      → IsOn kq
      → kernel.wait kq cap t w ≡ (ok es, w')
      → triggered w ≡ true
      → ((e : Kevent) × Mem e es × (e.udata ≡ id) × (e.filter ≡ c.evfilt_user))
        ⊎ ((length es ≡ cap) × (triggered w' ≡ true))
  pub wait_failed :
      (kq cap : ℕ) (t : Option Timespec) (w w' : W) (e : IoError)
      → IsOn kq
      → kernel.wait kq cap t w ≡ (err e, w')
      → triggered w' ≡ triggered w
