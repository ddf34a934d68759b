-- ===== src/Echo/Messages.antt =====
-- src/net/udp.rs: the message that the echo program receives.
use mathlib.Core.List.{map-append}
use gaea.Base.{
  ℕ, suc, ◌≡◌, refl, sym, ap, subst, ◌∙◌, ◌≢◌, ◌⊎◌, inl, inr, true, false, none, some, List, [],
  ◌∷◌, ◌++◌, map, arith, ◌==◌, ==_iff, All, ok, err,
}
use gaea.Event.{Event}
use gaea.Net.Udp.{send, recv_from}
use gaea.Os.Queue.Alone.{poll_alone-append}
use gaea.Sys.{events_cap}
use gaea.Sys.Epoll.{ep_event_to_event}
use gaea.Sys.Epoll.Abi.{EpollFlags, EpollKernel, EpEvent}
use gaea.Sys.Net.Abi.{SocketAddr}
use gaea.Sys.Net.Std.{StdUdp}
use gaea.Echo.Abi.{has, IsLoopback}
use gaea.Echo.{
  sender_id, echoer_id, msg_to_send, Message, Ends, and_then, after_send, after_recv, Program,
  handle_event, handle_events, run,
}

module _ (flags : EpollFlags) {W : Type 0} (kernel : EpollKernel W) (udp : StdUdp W)
    (inbox : W → List (List ℕ × SocketAddr)) (address : SocketAddr) (p : Program)
    (IsUndisturbed : W → Type 0)
    (law : IsLoopback kernel udp inbox address p.os_queue.selector.epfd
      p.sender_socket.socket.socket p.echoer_socket.socket.socket IsUndisturbed) where
  abbrev message : Message
  message = (msg_to_send, address)

  -- What is in the inbox is messages of the program.
  abbrev Messages : List Message → Type 0
  Messages inbox = All (λ m. m ≡ message) inbox

  abbrev handles : List EpEvent → W → Ends W
  handles es w = handle_events flags kernel udp p (map (ep_event_to_event flags) es) w

  handle_event-sender :
      (e : Event) (w : W)
      → e.id ≡ sender_id
      → IsUndisturbed w
      → (w' : W) × (handle_event flags kernel udp p e w ≡ some (ok none, w'))
        × (inbox w' ≡ inbox w ++ message ∷ [])
        × IsUndisturbed w'
  unfolding handle_event after_send send
  handle_event-sender e w h calm =
      let (w', sent, grown, calm') = law.sends msg_to_send w calm (omega arith) in
      let own : (e.id == sender_id) ≡ true = (==_iff e.id sender_id).1 h in
      (w', rw (own, sent) refl, grown, calm')

  handle_event-echoer :
      (e : Event) (rest : List Message) (w : W)
      → e.id ≡ echoer_id
      → inbox w ≡ message ∷ rest
      → IsUndisturbed w
      → (w' : W) × (handle_event flags kernel udp p e w ≡ some (ok (some message), w'))
  unfolding handle_event after_recv recv_from
  handle_event-echoer e rest w h some_left calm =
      let (w', received, left, _) = law.receives 20 msg_to_send address rest w calm some_left in
      let other : (e.id == sender_id) ≡ false = ground arith in
      let own : (e.id == echoer_id) ≡ true = (==_iff e.id echoer_id).1 h in
      (w', rw (other, own, received) refl)

  Messages-grow : (inbox : List Message) → Messages inbox → Messages (inbox ++ message ∷ [])
  Messages-grow [] all = (refl, tt)
  Messages-grow (m ∷ ms) (first, all) = (first, Messages-grow ms all)

  snoc-ne-nil : (inbox : List Message) → inbox ++ message ∷ [] ≢ []
  snoc-ne-nil [] e = cc
  snoc-ne-nil (m ∷ ms) e = cc

  -- Events of the sender alone: each sends a message.
  handle_events-senders :
      (es : List EpEvent) (w : W)
      → All (λ e. e.u64 ≡ 0) es
      → Messages (inbox w)
      → IsUndisturbed w
      → (w' : W) × (handles es w ≡ some (ok none, w'))
        × IsUndisturbed w'
        × Messages (inbox w')
        × ((inbox w ≢ []) ⊎ (has 0 es ≡ true) → inbox w' ≢ [])
  unfolding handle_events ep_event_to_event and_then
  handle_events-senders [] w all messages calm = (w, refl, calm, messages, nothing_new)
    where
      nothing_new : (inbox w ≢ []) ⊎ (false ≡ true) → inbox w ≢ []
      nothing_new (inl some_left) = some_left
      nothing_new (inr e) = cc
  handle_events-senders (e ∷ es) w (own, all) messages calm =
      let (w₁, sent, grown, calm₁) = handle_event-sender (ep_event_to_event flags e) w own calm in
      let (w', rest, calm', messages', more) =
        handle_events-senders es w₁ all
          (subst Messages (sym grown) (Messages-grow (inbox w) messages)) calm₁ in
      (
        w',
        rw (sent) rest,
        calm',
        messages',
        λ h. more (inl (λ e'. snoc-ne-nil (inbox w) (sym grown ∙ e'))),
      )

  -- Events of both, with one of the echoer, while there is a message: it is received.
  handle_events-echoes :
      (es : List EpEvent) (w : W)
      → All (λ e. (e.u64 ≡ 0) ⊎ (e.u64 ≡ 1)) es
      → has 1 es ≡ true
      → Messages (inbox w)
      → inbox w ≢ []
      → IsUndisturbed w
      → (w' : W) × (handles es w ≡ some (ok (some message), w'))
  unfolding handle_events ep_event_to_event and_then
  handle_events-echoes [] w all reported messages some_left calm = cc
  handle_events-echoes (e ∷ es) w (inl sender, all) reported messages some_left calm =
      let (w₁, sent, grown, calm₁) =
        handle_event-sender (ep_event_to_event flags e) w sender calm in
      let (w', rest) =
        handle_events-echoes es w₁ all (ground arith)
          (subst Messages (sym grown) (Messages-grow (inbox w) messages))
          (λ e'. snoc-ne-nil (inbox w) (sym grown ∙ e')) calm₁ in
      (w', rw sent rest)
  handle_events-echoes (e ∷ es) w (inr echoer, all) reported messages some_left calm =
      go (inbox w) refl messages
    where
      go :
          (l : List Message)
          → inbox w ≡ l
          → Messages l
          → (w' : W) × (handles (e ∷ es) w ≡ some (ok (some message), w'))
      go [] e' all' = absurd (some_left e')
      go (m ∷ ms) e' (first, all') =
          let (w', received) =
            handle_event-echoer (ep_event_to_event flags e) ms w echoer
              (e' ∙ ap (λ m'. m' ∷ ms) first) calm in
          (w', rw received refl)

  has-append : (es fs : List EpEvent) → has 1 fs ≡ true → has 1 (es ++ fs) ≡ true
  has-append [] fs h = h
  has-append (e ∷ es) fs h = let rest = has-append es fs h in ground arith

  -- With an empty inbox only the sender is reported.
  only_sender :
      (es : List EpEvent) (w : W)
      → inbox w ≡ []
      → All (λ e. (e.u64 ≡ 0) ⊎ ((e.u64 ≡ 1) × (inbox w ≢ []))) es
      → All (λ e. e.u64 ≡ 0) es
  only_sender [] w empty all = tt
  only_sender (e ∷ es) w empty (inl sender, all) = (sender, only_sender es w empty all)
  only_sender (e ∷ es) w empty (inr (_, some_left), all) = absurd (some_left empty)

  both_known :
      (es fs : List EpEvent) (w : W)
      → All (λ e. e.u64 ≡ 0) es
      → All (λ e. (e.u64 ≡ 0) ⊎ ((e.u64 ≡ 1) × (inbox w ≢ []))) fs
      → All (λ e. (e.u64 ≡ 0) ⊎ (e.u64 ≡ 1)) (es ++ fs)
  both_known [] [] w all all' = tt
  both_known [] (e ∷ es) w all (inl sender, all') = (inl sender, both_known [] es w all all')
  both_known [] (e ∷ es) w all (inr (echoer, _), all') = (inr echoer, both_known [] es w all all')
  both_known (e ∷ es) fs w (sender, all) all' = (inl sender, both_known es fs w all all')

  run-polled :
      (rounds : ℕ) (es : List EpEvent) (events : List Event) (w w' : W)
      → kernel.epoll_wait p.os_queue.selector.epfd events_cap none w ≡ (ok es, w')
      → run flags kernel udp (suc rounds) p events w
        ≡ and_then
            (handle_events flags kernel udp p (events ++ map (ep_event_to_event flags) es) w')
            (run flags kernel udp rounds p (events ++ map (ep_event_to_event flags) es))
  unfolding run
  run-polled rounds es events w w' e =
      ap
        (λ polled. elim polled.result as (λ x. Ends W) [
          | ok u ↦
              and_then (handle_events flags kernel udp p polled.sink polled.world)
                (run flags kernel udp rounds p polled.sink)
          | err e ↦ some (err e, polled.world)
        ])
        (poll_alone-append flags kernel p.os_queue es events w w' e)

  -- If the world is one after which no call of the echo program fails or is interrupted and no
  -- datagram is lost, the sockets are otherwise as documented, and nothing waits to be received at
  -- the start, then the program ends within two rounds of its loop: its loop and its handling of
  -- events neither panic nor go on, and it returns the message that it sends, whole, and the
  -- address of the sender.
  pub run-echoes :
      (rounds : ℕ) (w : W)
      → IsUndisturbed w
      → inbox w ≡ []
      → (w' : W) × (run flags kernel udp (suc (suc rounds)) p [] w ≡ some (ok (some message), w'))
  unfolding and_then
  run-echoes rounds w calm empty =
      let (es, w₁, waited, calm₁, kept, writable, _, known) =
        law.waits events_cap w calm (omega arith) in
      let senders = only_sender es w empty known in
      let (w₂, sent, calm₂, messages, more) =
        handle_events-senders es w₁ senders (subst Messages (sym (kept ∙ empty)) tt) calm₁ in
      let some_left = more (inr writable) in
      let (fs, w₃, waited', calm₃, kept', _, readable, known') =
        law.waits events_cap w₂ calm₂ (omega arith) in
      let (w', received) =
        handle_events-echoes (es ++ fs) w₃ (both_known es fs w₂ senders known')
          (has-append es fs (readable some_left)) (subst Messages (sym kept') messages)
          (λ e. some_left (sym kept' ∙ e)) calm₃ in
      (
        w',
        run-polled (suc rounds) es [] w w₁ waited
            ∙ rw sent (
                run-polled rounds fs (map (ep_event_to_event flags) es) w₂ w₃ waited'
                ∙ rw (← map-append (ep_event_to_event flags) es fs, received) refl),
      )
