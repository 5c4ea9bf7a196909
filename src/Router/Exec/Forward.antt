-- ===== src/Router/Exec/Forward.antt =====
-- Where a router sends a message next (`SockActions::forward` of router/sock_actions.cpp).
use re203_projet_reseau.Prelude.{
  true, ◌||◌, ◌==ℤ◌, ◌+ℤ◌, negsuc, pos, not, ◌∙◌, deref, ap, ◌>>=◌, ◌≡◌, refl, ◌++◌, some, none,
  Option, Str, Outcome, ok, fault, uncaught, arith,
}
use re203_projet_reseau.Messages.Types.{MessageType, Message}
use re203_projet_reseau.Messages.Print.{printed}
use re203_projet_reseau.Net.Client.{Client}
use re203_projet_reseau.Net.Sockets.{Os}
use re203_projet_reseau.Net.Sending.{network_send}
use re203_projet_reseau.Net.Update.{World}
use re203_projet_reseau.Router.Table.{RouteTable, ClientPointer, Entry, find, next_client}
use re203_projet_reseau.Router.Table.Laws.{at-found}
use re203_projet_reseau.Router.State.{Router, client_at}
use re203_projet_reseau.Router.SockActions.{send_hop, forward, send_to, send}
use re203_projet_reseau.Router.Exec.{is_ttlzero, not_caught}

-- The messages that routers pass on.
abbrev pub IsRouted : MessageType → Type 0
IsRouted MessageType.packet = Unit
IsRouted MessageType.ping = Unit
IsRouted MessageType.pong = Unit
IsRouted _ = ⊥

-- The table has a route to the node, and its next hop is a neighbour whose connection is `c`.
pub record Route (w : World Router) (node : Str) (c : Client) : Type 0 where
  pub entry : Entry
  pub hop : Entry
  pub found : find node w.state.table ≡ some entry
  pub next : find entry.next_hop w.state.table ≡ some hop
  pub connected : client_at w hop.client ≡ ok c

-- What the router has sent when it goes on.
abbrev pub sent : Os → World Router → Client → Message → Outcome (World Router)
sent os w c m = do
  text ← printed (some m)
  ok (record w { calls = w.calls ++ (network_send os c text).1 })

module _ (os : Os) (w : World Router) where
  pub next_client-Route :
      (node : Str) (c : Client) (r : Route w node c)
      → next_client w.state.table node ≡ some (r.hop.client, w.state.table)
  unfolding next_client
  next_client-Route node c r = ground (arith, at-found w.state.table r.entry.next_hop r.next)

  pub next_client-unknown :
      (node : Str) → find node w.state.table ≡ none → next_client w.state.table node ≡ none
  unfolding next_client
  next_client-unknown node u = ground arith

  forward-found :
      (m : Message) (node : Str) (h : Option (ClientPointer × RouteTable))
      → m.node2 ≡ some node
      → next_client w.state.table node ≡ h
      → forward os w m ≡ send_hop os w m h
  unfolding forward
  forward-found m node h e f =
      ap (λ p. deref p >>= λ n. send_hop os w m (next_client w.state.table n)) e
      ∙ ap (send_hop os w m) f

  pub send_hop-sent :
      (m : Message) (p : ClientPointer) (c : Client)
      → client_at w p ≡ ok c
      → (send_hop os w m (some (p, w.state.table)) >>= not_caught) ≡ sent os w c m
  unfolding send_hop send_to send not_caught
  send_hop-sent m p c h = ground arith

  -- A message goes to the next hop, and nothing else changes.
  pub forward-Route :
      (m : Message) (node : Str) (c : Client)
      → m.node2 ≡ some node
      → Route w node c
      → (forward os w m >>= not_caught) ≡ sent os w c m
  forward-Route m node c e r =
      ap (λ o. o >>= not_caught)
        (forward-found m node (some (r.hop.client, w.state.table)) e (next_client-Route node c r))
      ∙ send_hop-sent m r.hop.client c r.connected

  -- Without a route `nextClient` throws.
  pub forward-unknown :
      (m : Message) (node : Str)
      → m.node2 ≡ some node
      → find node w.state.table ≡ none
      → (forward os w m >>= not_caught) ≡ fault uncaught
  forward-unknown m node e u =
      ap (λ o. o >>= not_caught) (forward-found m node none e (next_client-unknown node u))
      ∙ (unfold send_hop not_caught in refl)

-- The message as the router passes it on.
abbrev pub older : Message → Message
older m = record m { n_parameter = m.n_parameter +ℤ negsuc 0 }

-- Neither the time to live nor its state ends the message's way here.
abbrev pub GoesOn : Message → Type 0
GoesOn m = (not (m.n_parameter ==ℤ pos 0) || is_ttlzero m.accept) ≡ true
