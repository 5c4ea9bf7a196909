-- ===== src/Router/Exec/Transit.antt =====
-- Packets, pings and pongs on their way through a router (`Exec::sock_message` of router/exec.cpp).
use re203_projet_reseau.Libc.Decimal.{int_max}
use re203_projet_reseau.Prelude.{
  ℤ, str_eq, false, negsuc, ◌≢◌, pos, ℕ, ◌∙◌, deref, ap, ◌>>=◌, ◌≡◌, refl, some, none, Str, Outcome,
  ok, fault, uncaught, arith,
}
use re203_projet_reseau.Messages.Types.{Acceptance, get_and_dec_ttl, MessageType, Message}
use re203_projet_reseau.Net.Client.{Client}
use re203_projet_reseau.Net.Sockets.{Os}
use re203_projet_reseau.Net.Update.{World}
use re203_projet_reseau.Router.Table.{ClientPointer, find}
use re203_projet_reseau.Router.State.{Router, setting}
use re203_projet_reseau.Router.SockActions.{reverse, turned, forward}
use re203_projet_reseau.Router.Exec.{
  answer, is_for_us, receive_pong, is_ttlzero, receive_ping, receive_packet, receive, ping_expired,
  forward_or, transit, sock_message, packet_expired, not_caught,
}
use re203_projet_reseau.Router.Exec.Forward.{
  IsRouted, Route, sent, forward-Route, forward-unknown, older, GoesOn,
}

module _ (os : Os) (stack_id : Str) (now : ℕ) (w : World Router) (m : Message) where
  transit-GoesOn :
      (expired : World Router → Message → Outcome (World Router))
      → m.n_parameter ≢ negsuc int_max
      → GoesOn m
      → transit os stack_id now w m expired ≡ (forward os w (older m) >>= not_caught)
  unfolding transit forward_or get_and_dec_ttl
  transit-GoesOn expired n g = ground arith

  transit-expired :
      (expired : World Router → Message → Outcome (World Router))
      → m.n_parameter ≡ pos 0
      → is_ttlzero m.accept ≡ false
      → transit os stack_id now w m expired ≡ expired w (older m)
  unfolding transit forward_or get_and_dec_ttl
  transit-expired expired n g = ground arith

  -- What a router does that is not the destination.
  abbrev expired : MessageType → World Router → Message → Outcome (World Router)
  expired MessageType.packet = packet_expired os stack_id now
  expired MessageType.ping = ping_expired os stack_id now
  expired _ = λ w1 m1. ok w1

  is_for_us-other :
      (node : Str)
      → m.node2 ≡ some node
      → str_eq node w.state.name ≡ false
      → is_for_us os stack_id now w m ≡ ok false
  unfolding is_for_us
  is_for_us-other node e o = ap (λ p. deref p >>= λ n. ok (str_eq n w.state.name)) e ∙ ap ok o

  receive-passed :
      (t : ClientPointer) (k : MessageType)
      → IsRouted k
      → is_for_us os stack_id now w m ≡ ok false
      → receive os stack_id now w m t k ≡ transit os stack_id now w m (expired k)
  unfolding receive receive_packet receive_ping receive_pong
  receive-passed t MessageType.packet r e = rw e refl
  receive-passed t MessageType.ping r e = rw e refl
  receive-passed t MessageType.pong r e = rw e refl
  receive-passed t _ r e = absurd r

  sock_message-passed :
      (t : ClientPointer) (node : Str)
      → IsRouted m.type
      → m.node2 ≡ some node
      → str_eq node w.state.name ≡ false
      → sock_message os stack_id now w (some m) t ≡ transit os stack_id now w m (expired m.type)
  unfolding sock_message
  sock_message-passed t node r e o = receive-passed t m.type r (is_for_us-other node e o)

  -- What the handling of a packet, ping or pong on its way comes to: `sent`, which is a fault if the
  -- text does not fit its buffer, on the message with its time to live counted down.
  pub sock_message-forwarded :
      (t : ClientPointer) (node : Str) (c : Client)
      → IsRouted m.type
      → m.node2 ≡ some node
      → str_eq node w.state.name ≡ false
      → m.n_parameter ≢ negsuc int_max
      → GoesOn m
      → Route w node c
      → sock_message os stack_id now w (some m) t ≡ sent os w c (older m)
  sock_message-forwarded t node c r e o n g route =
      sock_message-passed t node r e o
      ∙ transit-GoesOn (expired m.type) n g
      ∙ forward-Route os w (older m) node c e route

  -- A packet, ping or pong on its way to a node that the table does not have ends the program by an
  -- exception that nothing catches, unless its time to live is 0.
  pub sock_message-unknown :
      (t : ClientPointer) (node : Str)
      → IsRouted m.type
      → m.node2 ≡ some node
      → str_eq node w.state.name ≡ false
      → m.n_parameter ≢ negsuc int_max
      → GoesOn m
      → find node w.state.table ≡ none
      → sock_message os stack_id now w (some m) t ≡ fault uncaught
  sock_message-unknown t node r e o n g u =
      sock_message-passed t node r e o
      ∙ transit-GoesOn (expired m.type) n g
      ∙ forward-unknown os w (older m) node e u

  answer-Route :
      (m1 : Message) (source : Str) (c : Client) (ttl : ℤ)
      → m1.node1 ≡ some source
      → w.state.config.default_ttl_value ≡ some ttl
      → Route w source c
      → answer os stack_id now w m1 ≡ sent os w c (turned os m1 ttl)
  unfolding answer reverse turned setting
  answer-Route m1 source c ttl e d route =
      ap (λ z. (setting z >>= λ ttl1. forward os w (turned os m1 ttl1)) >>= not_caught) d
      ∙ forward-Route os w (turned os m1 ttl) source c e route

  -- A message whose time to live is used up: a packet comes back to its source as too far, a ping as
  -- a pong of this router, and a pong is dropped.
  abbrev pub returned : Client → ℤ → MessageType → Outcome (World Router)
  returned c ttl MessageType.packet =
      sent os w c (record m {
        accept = Acceptance.toofar;
        node1 = m.node2;
        node2 = m.node1;
        n_parameter = ttl;
      })
  returned c ttl MessageType.ping = sent os w c (record m {
    type = MessageType.pong;
    accept = Acceptance.ttlzero;
    node1 = some w.state.name;
    node2 = m.node1;
    n_parameter = ttl;
  })
  returned c ttl _ = ok w

  expired-Route :
      (k : MessageType) (source : Str) (c : Client) (ttl : ℤ)
      → IsRouted k
      → m.node1 ≡ some source
      → w.state.config.default_ttl_value ≡ some ttl
      → Route w source c
      → expired k w (older m) ≡ returned c ttl k
  unfolding packet_expired ping_expired
  expired-Route MessageType.packet source c ttl r e d route =
      answer-Route (record (older m) { accept = Acceptance.toofar }) source c ttl e d route
      ∙ (unfold turned in refl)
  expired-Route MessageType.ping source c ttl r e d route =
      answer-Route
        (record (older m) {
          type = MessageType.pong;
          accept = Acceptance.ttlzero;
          node2 = some w.state.name;
        })
        source c ttl e d route
      ∙ (unfold turned in refl)
  expired-Route MessageType.pong source c ttl r e d route = refl
  expired-Route _ source c ttl r e d route = absurd r

  -- What the handling of a packet, ping or pong whose time to live is 0 comes to: `returned`, which is a
  -- fault if the text of the answer does not fit its buffer.
  pub sock_message-expired :
      (t : ClientPointer) (node source : Str) (c : Client) (ttl : ℤ)
      → IsRouted m.type
      → m.node2 ≡ some node
      → str_eq node w.state.name ≡ false
      → m.n_parameter ≡ pos 0
      → is_ttlzero m.accept ≡ false
      → m.node1 ≡ some source
      → w.state.config.default_ttl_value ≡ some ttl
      → Route w source c
      → sock_message os stack_id now w (some m) t ≡ returned c ttl m.type
  sock_message-expired t node source c ttl r e o n a s d route =
      sock_message-passed t node r e o
      ∙ transit-expired (expired m.type) n a
      ∙ expired-Route m.type source c ttl r s d route
