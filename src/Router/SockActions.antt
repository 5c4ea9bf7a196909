-- ===== src/Router/SockActions.antt =====
-- router/sock_actions.cpp: what the router sends. The flag of a result says that the function has
-- thrown `unknownDest`.
use re203_projet_reseau.Prelude.{
  Bool, true, false, ◌++◌, Option, none, some, Str, Pointer, ℤ, Outcome, ok, deref, ◌>>=◌,
}
use re203_projet_reseau.Util.{strcopy}
use re203_projet_reseau.Messages.Types.{Acceptance, MessageType, Message, init_message}
use re203_projet_reseau.Messages.Print.{printed}
use re203_projet_reseau.Net.Sockets.{Os}
use re203_projet_reseau.Net.Sending.{network_send}
use re203_projet_reseau.Net.Update.{World}
use re203_projet_reseau.Router.Table.{RouteTable, ClientPointer, next_client, at}
use re203_projet_reseau.Router.State.{Router, with_table, client_at, setting}

module _ (os : Os) where
  -- `network__send (c, mess__toString (m))`, and what it returns
  unfoldable pub send : World Router → ClientPointer → Message → Outcome (ℤ × World Router)
  send w p m = do
    text ← printed (some m)
    c ← client_at w p
    ok ((network_send os c text).0, record w { calls = w.calls ++ (network_send os c text).1 })

  unfoldable pub send_to : World Router → ClientPointer → Message → Outcome (World Router)
  send_to w p m = do r ← send w p m; ok r.1

  -- The message sent to the next hop that the table has found.
  unfoldable pub send_hop :
      World Router → Message → Option (ClientPointer × RouteTable) → Outcome (World Router × Bool)
  send_hop w m none = ok (w, true)
  send_hop w m (some (c, t)) = send_to (with_table w t) c m >>= (λ w'. ok (w', false))

  unfoldable pub forward : World Router → Message → Outcome (World Router × Bool)
  forward w m = do node2 ← deref m.node2; send_hop w m (next_client w.state.table node2)

  -- The two nodes change places, the time to live is set anew, and the message goes to its source.
  unfoldable pub turned : Message → ℤ → Message
  turned m ttl = record m { node1 = m.node2; node2 = m.node1; n_parameter = ttl }

  unfoldable pub reverse : World Router → Message → Outcome (World Router × Bool)
  reverse w m = do ttl ← setting w.state.config.default_ttl_value; forward w (turned m ttl)

  unfoldable pub login : World Router → ℤ → Pointer → Outcome (World Router)
  login w port id =
      send_to w w.state.controller
        (record init_message { type = MessageType.login; n_parameter = port; node1 = strcopy id })

  unfoldable pub poll : World Router → Outcome (World Router)
  poll w = send_to w w.state.controller (record init_message { type = MessageType.poll })

  unfoldable pub logout : World Router → Outcome (World Router)
  logout w = send_to w w.state.controller (record init_message { type = MessageType.logout })

  unfoldable pub link : World Router → ClientPointer → Outcome (World Router)
  link w p =
      send_to w p
        (record init_message { type = MessageType.link; node1 = strcopy (some w.state.name) })

  unfoldable pub link_ack : World Router → ClientPointer → Outcome (World Router)
  link_ack w p =
      send_to w p (record init_message { type = MessageType.link; accept = Acceptance.ok })

  -- `routeTable[id].client ()`
  unfoldable pub send_to_entry : World Router → Str → Message → Outcome (World Router)
  send_to_entry w id m =
      send_to (with_table w (at w.state.table id).1) (at w.state.table id).0.client m

  unfoldable pub vector : World Router → Str → Pointer → Outcome (World Router)
  vector w id vect =
      send_to_entry w id
        (record init_message { type = MessageType.vector; s_parameter = strcopy vect })

  unfoldable pub vector_ack : World Router → Str → Outcome (World Router)
  vector_ack w id =
      send_to_entry w id (record init_message { type = MessageType.vector; accept = Acceptance.ok })
