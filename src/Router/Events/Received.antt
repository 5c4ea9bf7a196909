-- ===== src/Router/Events/Received.antt =====
-- `Exec::sock_message` (router/exec.cpp) keeps every stable property.
use re203_projet_reseau.Prelude.{
  ℕ, refl, Bool, true, false, Option, none, some, Str, Outcome, ok, if◌then◌else◌, str_eq, deref,
  pos, not, ◌||◌, ◌==ℤ◌, ltb_ℤ,
}
use re203_projet_reseau.Messages.Types.{Message, MessageType, Acceptance, get_and_dec_ttl}
use re203_projet_reseau.Net.Sockets.{Os}
use re203_projet_reseau.Net.Update.{World}
use re203_projet_reseau.Router.Table.{ClientPointer, Entry, find}
use re203_projet_reseau.Router.State.{
  Router, Exec, Notice, with_table, with_exec, show, client_at, name_client, setting, increment,
}
use re203_projet_reseau.Router.Vector.{add_int, parse_vector}
use re203_projet_reseau.Router.Exec.{
  ping_counted, ping_checked, target_reached, add_link, read_vector, packet_as, is_ok, is_not,
  is_ttlzero, link_entry, time_seen, ping_duration, ping_finished, ping_answered, hop_answered,
  pong_for_us, forward_or, transit, answer, packet_for_us, packet_expired, ping_for_us,
  ping_expired, is_for_us, receive_packet, receive_ping, receive_pong, receive_link, receive_vector,
  greeted, receive, sock_message,
}
use re203_projet_reseau.Router.Events.Stable.{
  Stable, Keeps, Keeps-bind, Keeps-chain, Keeps-if, modify-Keeps, parse_vector-Keeps,
}
use re203_projet_reseau.Router.Events.Sending.{
  forward_caught-Keeps, reverse_caught-Keeps, link_ack-Keeps, vector_ack-Keeps, name_client-Keeps,
}
use re203_projet_reseau.Router.Events.Listed.{parse_neighborhood-Keeps}

module _ (P : World Router → Type 0) (stable : Stable P) (os : Os) (stack_id : Str) (now : ℕ) where
  show-Keeps : (w : World Router) (n : Notice) → P w → P (show w n)
  show-Keeps w n h = stable.on_state w _ refl h

  exec-Keeps : (w : World Router) (x : Exec) → P w → P (with_exec w x)
  exec-Keeps w x h = stable.on_state w _ refl h

  ping_finished-Keeps : (w : World Router) → P w → Keeps P (ping_finished w)
  unfolding ping_finished
  ping_finished-Keeps w h =
      Keeps-bind P (setting w.state.config.default_ping_packet_count) _
        (λ count e. stable.on_state w _ refl h)

  ping_checked-Keeps : (w : World Router) → P w → Keeps P (ping_checked w)
  unfolding ping_checked
  ping_checked-Keeps w h =
      Keeps-if P (w.state.exec.ping_count ==ℤ pos 0) (ping_finished w) (ok w)
        (ping_finished-Keeps w h) h

  ping_answered-Keeps : (w : World Router) (m : Message) → P w → Keeps P (ping_answered now w m)
  unfolding ping_answered
  ping_answered-Keeps w m h =
      let ms = ping_duration now w.state.exec m.seqnum in
      let x = time_seen ms w.state.exec in
      Keeps-bind P (deref m.node1) _ (λ node1 e. Keeps-bind P (deref m.node2) _ (λ node2 f.
        Keeps-bind P (increment x.ping_succ) _ (λ succ g.
          Keeps-bind P (add_int x.ping_avg ms) _ (λ avg k.
            ping_checked-Keeps
              (with_exec (show w (Notice.ping_echo node2 node1 ms)) (ping_counted x m succ avg))
              (stable.on_state w _ refl h)))))

  either-Keeps : (b : Bool) (w w1 : World Router) → P w → P w1 → P (if b then w1 else w)
  either-Keeps true w w1 h h1 = h1
  either-Keeps false w w1 h h1 = h

  hop_answered-Keeps : (w : World Router) (m : Message) → P w → Keeps P (hop_answered now w m)
  unfolding hop_answered target_reached
  hop_answered-Keeps w m h = Keeps-bind P (deref m.node1) _ (λ node1 e.
      Keeps-bind P (deref w.state.exec.route_dest) _ (λ dest f.
        Keeps-bind P (increment w.state.exec.route_count) _ (λ count g.
          either-Keeps (str_eq dest node1) _ _ (stable.on_state w _ refl h)
            (stable.on_state w _ refl h))))

  pong_for_us-Keeps : (w : World Router) (m : Message) → P w → Keeps P (pong_for_us now w m)
  unfolding pong_for_us
  pong_for_us-Keeps w m h =
      Keeps-if P (ltb_ℤ (pos 0) w.state.exec.ping_count) _ _ (ping_answered-Keeps w m h)
        (Keeps-if P w.state.exec.is_waiting_for_route _ _ (hop_answered-Keeps w m h) h)

  answer-Keeps : (w : World Router) (m : Message) → P w → Keeps P (answer os stack_id now w m)
  unfolding answer
  answer-Keeps w m h = reverse_caught-Keeps P stable os w m h

  forward_or-Keeps :
      (b : Bool) (w : World Router) (m : Message)
      (expired : World Router → Message → Outcome (World Router))
      → Keeps P (expired w m)
      → P w
      → Keeps P (forward_or os stack_id now b w m expired)
  unfolding forward_or
  forward_or-Keeps true w m expired k h = forward_caught-Keeps P stable os w m h
  forward_or-Keeps false w m expired k h = k

  transit-Keeps :
      (w : World Router) (m : Message) (expired : World Router → Message → Outcome (World Router))
      → ((m1 : Message) → Keeps P (expired w m1))
      → P w
      → Keeps P (transit os stack_id now w m expired)
  unfolding transit
  transit-Keeps w m expired k h = Keeps-bind P (get_and_dec_ttl (some m)) _ (λ r e.
      Keeps-bind P (deref r.1) _ (λ m1 f.
        forward_or-Keeps (not (r.0 ==ℤ pos 0) || is_ttlzero m1.accept) w m1 expired (k m1) h))

  packet_as-Keeps :
      (a : Acceptance) (w : World Router) (m : Message)
      → P w
      → Keeps P (packet_as os stack_id now w m a)
  unfolding packet_as
  packet_as-Keeps Acceptance.ok w m h = stable.on_state w _ refl h
  packet_as-Keeps Acceptance.toofar w m h = show-Keeps w Notice.err_unreachable h
  packet_as-Keeps _ w m h =
      Keeps-chain P P (answer os stack_id now w (record m { accept = Acceptance.ok })) _
        (answer-Keeps w _ h) (λ w1 q. show-Keeps w1 (Notice.mess_received m.s_parameter) q)

  packet_for_us-Keeps :
      (w : World Router) (m : Message) → P w → Keeps P (packet_for_us os stack_id now w m)
  unfolding packet_for_us
  packet_for_us-Keeps w m h = packet_as-Keeps m.accept w m h

  receive_packet-Keeps :
      (w : World Router) (m : Message) → P w → Keeps P (receive_packet os stack_id now w m)
  unfolding receive_packet packet_expired
  receive_packet-Keeps w m h = Keeps-bind P (is_for_us os stack_id now w m) _ (λ ours e.
      Keeps-if P ours _ _ (packet_for_us-Keeps w m h)
        (transit-Keeps w m (packet_expired os stack_id now) (λ m1. answer-Keeps w _ h) h))

  receive_ping-Keeps :
      (w : World Router) (m : Message) → P w → Keeps P (receive_ping os stack_id now w m)
  unfolding receive_ping ping_for_us ping_expired
  receive_ping-Keeps w m h = Keeps-bind P (is_for_us os stack_id now w m) _ (λ ours e.
      Keeps-if P ours _ _ (answer-Keeps w _ h)
        (transit-Keeps w m (ping_expired os stack_id now) (λ m1. answer-Keeps w _ h) h))

  receive_pong-Keeps :
      (w : World Router) (m : Message) → P w → Keeps P (receive_pong os stack_id now w m)
  unfolding receive_pong
  receive_pong-Keeps w m h = Keeps-bind P (is_for_us os stack_id now w m) _ (λ ours e.
      Keeps-if P ours _ _ (pong_for_us-Keeps w m h)
        (transit-Keeps w m (λ w1 m1. ok w1) (λ m1. h) h))

  add_link-Keeps :
      (o : Option Entry) (w : World Router) (s : Str) (t : ClientPointer)
      → P w
      → Keeps P (add_link os stack_id now w s t o)
  unfolding add_link
  add_link-Keeps (some e) w s t h = h
  add_link-Keeps none w s t h =
      Keeps-chain P P (name_client w t s) _ (name_client-Keeps P stable os w t s h)
        (λ w2 q. stable.on_put w2 s (link_entry s t) q)

  receive_link-Keeps :
      (w : World Router) (m : Message) (t : ClientPointer)
      → P w
      → Keeps P (receive_link os stack_id now w m t)
  unfolding receive_link
  receive_link-Keeps w m t h = Keeps-if P (is_ok m.accept) (ok w) _ h (
      Keeps-bind P (deref m.node1) _ (λ s e.
        Keeps-chain P P (add_link os stack_id now w s t (find s w.state.table)) _
          (add_link-Keeps (find s w.state.table) w s t h)
          (λ w1 q. link_ack-Keeps P stable os w1 t q)))

  read_vector-Keeps :
      (w : World Router) (m : Message) (id : Str)
      → P w
      → Keeps P (read_vector os stack_id now w m id)
  unfolding read_vector
  read_vector-Keeps w m id h = Keeps-if P (is_ok m.accept) (ok w) _ h (
      Keeps-chain (λ t. P (with_table w t)) P
        (parse_vector w.state.name w.state.table m.s_parameter id) _
        (parse_vector-Keeps (λ t. P (with_table w t))
          (λ t k e q. stable.on_put (with_table w t) k e q) w.state.table w.state.name m.s_parameter
          id h)
        (λ t q. vector_ack-Keeps P stable os (with_table w t) id q))

  receive_vector-Keeps :
      (w : World Router) (m : Message) (t : ClientPointer)
      → P w
      → Keeps P (receive_vector os stack_id now w m t)
  unfolding receive_vector
  receive_vector-Keeps w m t h = Keeps-bind P (client_at w t) _ (λ c e.
      Keeps-chain P P (read_vector os stack_id now w m c.id) _ (read_vector-Keeps w m c.id h)
        (λ w1 q.
          modify-Keeps (λ t1. P (with_table w1 t1))
            (λ t1 k e1 q1. stable.on_put (with_table w1 t1) k e1 q1) w1.state.table c.id _ q))

  greeted-Keeps : (w : World Router) (m : Message) → P w → Keeps P (greeted os stack_id now w m)
  unfolding greeted
  greeted-Keeps w m h = Keeps-bind P (deref m.node1) _ (λ name e. stable.on_state w _ refl h)

  receive-Keeps :
      (k : MessageType) (w : World Router) (m : Message) (t : ClientPointer)
      → P w
      → Keeps P (receive os stack_id now w m t k)
  unfolding receive
  receive-Keeps MessageType.none w m t h = h
  receive-Keeps MessageType.greeting w m t h = greeted-Keeps w m h
  receive-Keeps MessageType.neighborhood w m t h =
      Keeps-if P (is_not m.accept) _ _
        (parse_neighborhood-Keeps P stable os stack_id now w m.s_parameter h) h
  receive-Keeps MessageType.bye w m t h = stable.on_state w _ refl h
  receive-Keeps MessageType.link w m t h = receive_link-Keeps w m t h
  receive-Keeps MessageType.vector w m t h = receive_vector-Keeps w m t h
  receive-Keeps MessageType.packet w m t h = receive_packet-Keeps w m h
  receive-Keeps MessageType.ping w m t h = receive_ping-Keeps w m h
  receive-Keeps MessageType.pong w m t h = receive_pong-Keeps w m h
  receive-Keeps _ w m t h = show-Keeps w Notice.not_recognised h

  pub sock_message-Keeps :
      (w : World Router) (o : Option Message) (t : ClientPointer)
      → P w
      → Keeps P (sock_message os stack_id now w o t)
  unfolding sock_message
  sock_message-Keeps w none t h = h
  sock_message-Keeps w (some m) t h = receive-Keeps m.type w m t h
