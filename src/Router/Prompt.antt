-- ===== src/Router/Prompt.antt =====
-- router/exec.cpp: `Exec::prompt_message`, the commands of the user. `now` is the reading of the clock at
-- its start, `clock` the readings of the loop that sends pings.
use re203_projet_reseau.Prelude.{
  ℕ, Bool, true, false, ◌++◌, none, some, Option, pos, Outcome, ok, deref, ◌>>=◌,
}
use re203_projet_reseau.Util.{strcopy}
use re203_projet_reseau.Messages.Types.{MessageType, Message}
use re203_projet_reseau.Net.Sockets.{Os}
use re203_projet_reseau.Net.Network.{network_close, network_free}
use re203_projet_reseau.Net.Update.{World}
use re203_projet_reseau.Router.State.{Router, Notice, with_exec, show, setting}
use re203_projet_reseau.Router.SockActions
use re203_projet_reseau.Router.PromptActions

module _ (os : Os) (now : ℕ) (clock : ℕ → ℕ) where
  -- The handler of `UnknownDest` in the case `MESSAGE`.
  unfoldable pub message_sent : World Router × Bool → World Router
  message_sent (w, true) = show w Notice.err_unknown
  message_sent (w, false) = show w Notice.mess_sent

  unfoldable pub send_message : World Router → Message → Outcome (World Router)
  send_message w m = do
    r ← PromptActions.message os (with_exec w (record w.state.exec { message_time = now })) m
    ok (message_sent r)

  -- The handler in the case `PING`.
  unfoldable pub pings_sent : World Router × Bool → World Router
  pings_sent (w, true) =
      show (with_exec w (record w.state.exec { ping_count = pos 0 })) Notice.err_unknown
  pings_sent (w, false) = w

  unfoldable pub send_pings : World Router → Message → Outcome (World Router)
  send_pings w m = do
    count ← setting w.state.config.default_ping_packet_count
    r ← PromptActions.ping os clock (with_exec w (record w.state.exec { ping_count = count })) m
    ok (pings_sent r)

  -- The handler in the case `ROUTE`.
  unfoldable pub route_sent : World Router × Bool → World Router
  route_sent (w, true) =
      show (with_exec w (record w.state.exec { is_waiting_for_route = false })) Notice.err_unknown
  route_sent (w, false) = w

  unfoldable pub trace_route : World Router → Message → Outcome (World Router)
  trace_route w m = do
    node1 ← deref m.node1
    let x = record w.state.exec {
      route_time = now;
      route_count = pos 0;
      is_waiting_for_route = true;
      route_dest = strcopy m.node1;
    }
    r ← PromptActions.route os (show (with_exec w x) (Notice.route_init w.state.name node1)) m
    ok (route_sent r)

  -- The case `QUIT`: the log out, and what `network__close` and `network__free` close.
  unfoldable pub quit : World Router → Outcome (World Router)
  quit w = do
    w1 ← SockActions.logout os w
    ok (record w1 {
      network = (network_close w1.network).0;
      calls =
          (w1.calls ++ (network_close w1.network).1) ++ network_free (network_close w1.network).0;
    })

  -- The flag says that the process exits.
  abbrev pub goes_on : Outcome (World Router) → Outcome (World Router × Bool)
  goes_on r = r >>= λ w. ok (w, false)

  unfoldable pub command : World Router → Message → MessageType → Outcome (World Router × Bool)
  command w m MessageType.none = ok (w, false)
  command w m MessageType.poll = goes_on (SockActions.poll os w)
  command w m MessageType.message = goes_on (send_message w m)
  command w m MessageType.ping = goes_on (send_pings w m)
  command w m MessageType.route = goes_on (trace_route w m)
  command w m MessageType.routetable = ok (show w (Notice.routetable w.state.table), false)
  command w m MessageType.network_debug = ok (w, false)
  command w m MessageType.quit = quit w >>= λ w1. ok (w1, true)
  command w m _ = ok (show w Notice.not_recognised, false)

  -- `prompt_message`
  unfoldable pub prompt_message : World Router → Option Message → Outcome (World Router × Bool)
  prompt_message w none = ok (w, false)
  prompt_message w (some m) = command w m m.type
