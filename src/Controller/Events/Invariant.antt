-- ===== src/Controller/Events/Invariant.antt =====
-- The controller's event functions (controller/net_functions.c) and the invariant of the network.
use re203_projet_reseau.Prelude.{
  ℕ, ◌≡◌, Bool, List, [], ◌∷◌, Option, none, some, Str, get_elem?, length-set, ok, ℤ, ◌≤ℤ◌, arith,
  Bool-cases, Option-cases, inl, inr, codes, deref,
}
use re203_projet_reseau.Controller.Events.Keeping.{
  YieldsStep, Below-get, Below-set, client_set_id-sock, after, either, both, loop, parsed,
}
use re203_projet_reseau.Messages.Escape.{treat_input}
use re203_projet_reseau.Messages.Multiline.{multiline_parse}
use re203_projet_reseau.Messages.Parse.{parse}
use re203_projet_reseau.Messages.Print.{printed}
use re203_projet_reseau.Messages.Types.{MessageType, Message}
use re203_projet_reseau.Net.Client.{Client, SocketName, client_set_id, client_get_address}
use re203_projet_reseau.Net.Sockets.{Os}
use re203_projet_reseau.Net.Network.{network_disconnect, remove_client, get_client_id}
use re203_projet_reseau.Net.Network.Watched.{remove_at-IsWatched}
use re203_projet_reseau.Net.Update.{World, Poll, network_update}
use re203_projet_reseau.Net.Update.Invariant.{
  IsSound, Respects, Yields, YieldsBoth, network_update-IsSound, sound,
}
use re203_projet_reseau.Controller.Graph.{Library}
use re203_projet_reseau.Controller.Table.{HashTable}
use re203_projet_reseau.Controller.Sock.{Controller, sock_message}
use re203_projet_reseau.Controller.Events.{
  send_to, drop_client, client_at, put_client, greet, connect_message, connect_messages,
  connection_event, disconnection_event, reply, after_send, client_message, client_messages,
  message_event, controller_events, copied, is_none, is_bye, is_refused, up_to_last_star,
}

module _ {T H : Type 0} (lib : Library T) (hash : HashTable H) (trex_match : Str → Str → Bool)
    (getsockname : ℤ → Option SocketName) (os : Os) where
  drop_client-IsSound :
      (w : World (Controller T H)) (c : Client)
      → IsSound w
      → IsSound (drop_client lib hash trex_match getsockname os w c)
  unfolding drop_client network_disconnect remove_client
  drop_client-IsSound w c s = remove_at-IsWatched w.network (get_client_id w.network c) s.0 s.1

  put_client-IsSound :
      (w : World (Controller T H)) (i : ℕ) (c d : Client)
      → IsSound w
      → get_elem? w.network.clients i ≡ some c
      → d.sock ≡ c.sock
      → IsSound (put_client lib hash trex_match getsockname os w i d)
  unfolding put_client
  put_client-IsSound w i c d s e same =
      let below = Below-get w.network.max w.network.clients i c s.0.1 e in
      let le : d.sock ≤ℤ w.network.max = rw same below in
      (
        (s.0.0, Below-set w.network.max w.network.clients i d s.0.1 le),
        omega (arith, length-set w.network.clients i d, s.1),
      )

  client_at-some :
      (w : World (Controller T H)) (i : ℕ) (c : Client)
      → client_at lib hash trex_match getsockname os w i ≡ ok c
      → get_elem? w.network.clients i ≡ some c
  unfolding client_at
  client_at-some w i c e = elim (Option-cases (get_elem? w.network.clients i)) [
    | inl missing ↦ cc (rw (client_at, missing) at e)
    | inr (d, found) ↦ let same : d ≡ c = cc (rw (client_at, found) at e) in rw (← same) found
  ]

  greet-IsSound :
      (w : World (Controller T H)) (i : ℕ) (o : Option Message)
      → IsSound w
      → YieldsStep (greet lib hash trex_match getsockname os w i o)
  unfolding greet send_to
  greet-IsSound w i none s = after (client_at lib hash trex_match getsockname os w i) _ (λ c e. s)
  greet-IsSound w i (some m) s = after (client_at lib hash trex_match getsockname os w i) _ (λ c e.
      after (client_set_id c m.node1) _ (λ named f. after (printed (some m)) _ (λ text g.
        put_client-IsSound w i c named s (client_at-some w i c e)
          (client_set_id-sock c named m.node1 f))))

  connect_message-IsSound :
      (w : World (Controller T H)) (i : ℕ) (m : Message)
      → IsSound w
      → YieldsStep (connect_message lib hash trex_match getsockname os w i m)
  unfolding connect_message
  connect_message-IsSound w i m s =
      after (client_at lib hash trex_match getsockname os w i) _ (λ c e.
        either (is_none m.type) _ _ (drop_client-IsSound w c s) (
          after (client_get_address getsockname c) _ (λ address f.
            after
              (sock_message lib hash w.state
                (some (record m { s_parameter = copied m.s_parameter (some address) })))
              _ (λ r g. greet-IsSound (record w { state = r.0 }) i r.1 s))))

  connect_messages-Yields :
      (ms : List (Option Message)) (w : World (Controller T H)) (i : ℕ)
      → IsSound w
      → Yields (connect_messages lib hash trex_match getsockname os w i ms)
  unfolding connect_messages
  connect_messages-Yields [] w i s = sound s
  connect_messages-Yields (none ∷ ms) w i s = connect_messages-Yields ms w i s
  connect_messages-Yields (some m ∷ ms) w i s =
      loop (connect_message lib hash trex_match getsockname os w i m)
        (λ v. connect_messages lib hash trex_match getsockname os v i ms)
        (connect_message-IsSound w i m s) (λ v t. connect_messages-Yields ms v i t)

  connection_event-Yields :
      (w : World (Controller T H)) (i : ℕ) (text : Str)
      → IsSound w
      → Yields (connection_event lib hash trex_match getsockname os w i text)
  unfolding connection_event
  connection_event-Yields w i text s =
      parsed (multiline_parse trex_match (some (up_to_last_star text))) w
        (λ ms. connect_messages lib hash trex_match getsockname os w i ms) s
        (λ ms. connect_messages-Yields ms w i s)

  after_send-IsSound :
      (w : World (Controller T H)) (c : Client) (t : MessageType)
      → IsSound w
      → IsSound (after_send lib hash trex_match getsockname os w c t).0
  unfolding after_send
  after_send-IsSound w c t s = elim (Bool-cases (is_bye t)) [
    | inl bye ↦ rw (after_send, bye) (drop_client-IsSound w c s)
    | inr other ↦ rw (after_send, other) s
  ]

  reply-IsSound :
      (w : World (Controller T H)) (c : Client) (o : Option Message)
      → IsSound w
      → YieldsStep (reply lib hash trex_match getsockname os w c o)
  unfolding reply send_to
  reply-IsSound w c none s = s
  reply-IsSound w c (some m) s = after (printed (some m)) _ (λ text e.
      after_send-IsSound (send_to lib hash trex_match getsockname os w c text) c m.type s)

  client_message-IsSound :
      (w : World (Controller T H)) (c : Client) (m : Message)
      → IsSound w
      → YieldsStep (client_message lib hash trex_match getsockname os w c m)
  unfolding client_message
  client_message-IsSound w c m s = either (is_refused m.type) _ _ s (
      after (sock_message lib hash w.state (some (record m { node1 = copied m.node1 (some c.id) })))
        _ (λ r g. reply-IsSound (record w { state = r.0 }) c r.1 s))

  client_messages-Yields :
      (ms : List (Option Message)) (w : World (Controller T H)) (c : Client)
      → IsSound w
      → Yields (client_messages lib hash trex_match getsockname os w c ms)
  unfolding client_messages
  client_messages-Yields [] w c s = sound s
  client_messages-Yields (none ∷ ms) w c s = client_messages-Yields ms w c s
  client_messages-Yields (some m ∷ ms) w c s =
      loop (client_message lib hash trex_match getsockname os w c m)
        (λ v. client_messages lib hash trex_match getsockname os v c ms)
        (client_message-IsSound w c m s) (λ v t. client_messages-Yields ms v c t)

  message_event-Yields :
      (w : World (Controller T H)) (c : Client) (text : Str)
      → IsSound w
      → Yields (message_event lib hash trex_match getsockname os w c text)
  unfolding message_event
  message_event-Yields w c text s =
      parsed (multiline_parse trex_match (some (up_to_last_star text))) w
        (λ ms. client_messages lib hash trex_match getsockname os w c ms) s
        (λ ms. client_messages-Yields ms w c s)

  disconnection_event-Yields :
      (w : World (Controller T H)) (c : Client)
      → IsSound w
      → YieldsBoth (disconnection_event lib hash trex_match getsockname os w c)
  unfolding disconnection_event
  disconnection_event-Yields w c s = both (treat_input (some (codes "log out*"))) _ (λ text.
      both (parse trex_match text) _ (λ p. both (deref p) _ (λ m.
        both
          (sock_message lib hash w.state (some (record m { node1 = copied m.node1 (some c.id) }))) _
          (λ r. s))))

  pub controller_events-Respects : Respects (controller_events lib hash trex_match getsockname os)
  unfolding controller_events
  controller_events-Respects = record {
    on_input = λ w text s. sound s;
    on_connection = connection_event-Yields;
    on_disconnection = disconnection_event-Yields;
    on_message = message_event-Yields;
  }

  -- One turn of the controller's main loop keeps the invariant of its network, whatever the system
  -- answers and whatever the clients send: when the process goes on, `max` bounds the server's and
  -- every client's socket, and the array holds 100 clients at most.
  pub controller-IsSound :
      (host : Os) (poll : Poll) (w w' : World (Controller T H))
      → IsSound w
      → network_update (controller_events lib hash trex_match getsockname os) host poll w
        ≡ ok (some w')
      → IsSound w'
  controller-IsSound host poll w w' s e =
      network_update-IsSound (controller_events lib hash trex_match getsockname os)
        controller_events-Respects host poll w w' s e
