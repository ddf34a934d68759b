-- ===== src/Echo/Abi.antt =====
-- What the echo program of src/net/udp.rs relies on of the system.
use gaea.Base.{
  ℕ, ◌<◌, ◌≤◌, ◌≡◌, ◌≢◌, ◌⊎◌, Bool, true, false, ◌||◌, none, List, [], ◌∷◌, ◌++◌, ◌==◌, length,
  take, All, ok,
}
use gaea.Sys.Epoll.Abi.{EpollKernel, EpEvent}
use gaea.Sys.Net.Abi.{SocketAddr}
use gaea.Sys.Net.Std.{StdUdp}

-- Whether there is an event with the id.
abbrev pub has : ℕ → List EpEvent → Bool
has id [] = false
has id (e ∷ es) = (e.u64 == id) || has id es

-- epoll(7) and udp(7), for two sockets on one host, the first connected to the second, and both
-- registered as level-triggered, with ids 0 for writing on the first and 1 for reading on the
-- second, where no one else sends to the second. udp(7) and epoll_wait(2) let a call fail or be
-- interrupted by a signal, and a datagram get lost, for reasons that the program does not control.
-- `IsUndisturbed` holds of a world after which none of this happens: then a datagram of at most
-- 65507 bytes is appended to the inbox of the second socket, from which it is received whole or cut
-- to the buffer, and the first socket can be written. Of other worlds nothing is said.
pub record IsLoopback {W : Type 0} (kernel : EpollKernel W) (udp : StdUdp W)
    (inbox : W → List (List ℕ × SocketAddr)) (address : SocketAddr) (epfd sender echoer : ℕ)
    (IsUndisturbed : W → Type 0) : Type 0 where
  pub sends :
      (bytes : List ℕ) (w : W)
      → IsUndisturbed w
      → length bytes ≤ 65_507
      → (w' : W) × (udp.send sender bytes w ≡ (ok (length bytes), w'))
        × (inbox w' ≡ inbox w ++ (bytes, address) ∷ [])
        × IsUndisturbed w'
  pub receives :
      (n : ℕ) (bytes : List ℕ) (from : SocketAddr) (rest : List (List ℕ × SocketAddr)) (w : W)
      → IsUndisturbed w
      → inbox w ≡ (bytes, from) ∷ rest
      → (w' : W) × (udp.recv_from echoer n w ≡ (ok (take n bytes, from), w'))
        × (inbox w' ≡ rest)
        × IsUndisturbed w'
  pub waits :
      (cap : ℕ) (w : W)
      → IsUndisturbed w
      → 1 < cap
      → (es : List EpEvent) × (w' : W) × (kernel.epoll_wait epfd cap none w ≡ (ok es, w'))
        × IsUndisturbed w'
        × (inbox w' ≡ inbox w)
        × (has 0 es ≡ true)
        × (inbox w ≢ [] → has 1 es ≡ true)
        × All (λ e. (e.u64 ≡ 0) ⊎ ((e.u64 ≡ 1) × (inbox w ≢ []))) es
