-- ===== src/Router/PromptActions.antt =====
-- router/prompt_actions.cpp: the packets and pings that the user asks for. The flag of a result says
-- that the function has thrown `unknownDest`. The pauses of a second between two pings are left out:
-- what arrives meanwhile is handled after the function.
use re203_projet_reseau.Prelude.{
  ℕ, zero, suc, ◌+◌, Bool, true, false, none, some, ℤ, pos, pos_part, Outcome, ok, deref, ◌>>=◌,
}
use re203_projet_reseau.Util.{strcopy}
use re203_projet_reseau.Messages.Types.{MessageType, Message, init_message}
use re203_projet_reseau.Net.Sockets.{Os}
use re203_projet_reseau.Net.Update.{World}
use re203_projet_reseau.Router.Table.{ClientPointer, next_client}
use re203_projet_reseau.Router.State.{Router, with_table, with_exec, setting, new_seqnum, store}
use re203_projet_reseau.Router.SockActions.{send_to}

-- `ll_ping` before its sequence number is set
unfoldable pub ping_message : World Router → Message → ℤ → Message
ping_message w mess ttl = record init_message {
  type = MessageType.ping;
  node1 = strcopy (some w.state.name);
  node2 = strcopy mess.node1;
  n_parameter = ttl;
}

module _ (os : Os) where
  -- A message to the next hop, when the table has one.
  unfoldable pub send_by_route :
      World Router
      → Message
      → (World Router → ClientPointer → Outcome (World Router))
      → Outcome (World Router × Bool)
  send_by_route w packet run = do
    node2 ← deref packet.node2
    elim (next_client w.state.table node2) [
      | none ↦ ok (w, true)
      | some (c, t) ↦ run (with_table w t) c >>= (λ w'. ok (w', false))
    ]

  -- `message`: the number is used and stored before the destination is looked up.
  unfoldable pub message : World Router → Message → Outcome (World Router × Bool)
  message w mess = do
    r ← new_seqnum w
    let w1 =
        with_exec r.1
          (record r.1.state.exec { message_times = store r.0 (pos 0) r.1.state.exec.message_times })
    ttl ← setting w.state.config.default_ttl_value
    let packet = record init_message {
      type = MessageType.packet;
      seqnum = r.0;
      node1 = strcopy (some w.state.name);
      node2 = strcopy mess.node1;
      n_parameter = ttl;
      s_parameter = strcopy mess.s_parameter;
    }
    send_by_route w1 packet (λ w2 c. send_to os w2 c packet)

  -- The loop of `ping`, with so many rounds to go; `now` answers the readings of the clock.
  unfoldable pub ping_rounds :
      (ℕ → ℕ) → ℕ → ℕ → Message → World Router → ClientPointer → Outcome (World Router)
  ping_rounds now zero i ll_ping w c = ok w
  ping_rounds now (suc k) i ll_ping w c = do
    r ← new_seqnum w
    let w1 = with_exec r.1 (record r.1.state.exec {
      ping_time_tables = store r.0 (now i) r.1.state.exec.ping_time_tables;
    })
    w2 ← send_to os w1 c (record ll_ping { seqnum = r.0 })
    ping_rounds now k (i + 1) ll_ping w2 c

  unfoldable pub ping : (ℕ → ℕ) → World Router → Message → Outcome (World Router × Bool)
  ping now w mess = do
    ttl ← setting w.state.config.default_ttl_value
    count ← setting w.state.config.default_ping_packet_count
    send_by_route w (ping_message w mess ttl)
        (ping_rounds now (pos_part count) 0 (ping_message w mess ttl))

  -- The loop of `route`: the time to live counts up from 0.
  unfoldable pub route_rounds :
      ℕ → ℕ → Message → World Router → ClientPointer → Outcome (World Router)
  route_rounds zero i ll_ping w c = ok w
  route_rounds (suc k) i ll_ping w c = do
    r ← new_seqnum w
    w1 ← send_to os r.1 c (record ll_ping { n_parameter = pos i; seqnum = r.0 })
    route_rounds k (i + 1) ll_ping w1 c

  unfoldable pub route : World Router → Message → Outcome (World Router × Bool)
  route w mess =
      send_by_route w (ping_message w mess (pos 0))
        (route_rounds 10 0 (ping_message w mess (pos 0)))
