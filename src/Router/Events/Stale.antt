-- ===== src/Router/Events/Stale.antt =====
-- The table's pointers into the array of clients (router/routetable.hpp, common/net.c) after a
-- neighbour has gone.
use re203_projet_reseau.Prelude.{
  ℕ, ◌≡◌, refl, ap, ◌∙◌, true, false, List, [], ◌∷◌, ◌++◌, some, Str, Bool, ℤ, ok, ◌>>=◌, get_elem?,
  length, str_eq, arith,
}
use re203_projet_reseau.Messages.Types.{Message}
use re203_projet_reseau.Messages.Print.{to_string, Buffer}
use re203_projet_reseau.Messages.Wire.Printed.{printed-text}
use re203_projet_reseau.Router.Exec.Handed.{sent_text, sent-eq-text}
use re203_projet_reseau.Net.Client.{Client}
use re203_projet_reseau.Net.Sockets.{Os, Effect, read_client}
use re203_projet_reseau.Net.Network.Array.{Differs}
use re203_projet_reseau.Net.Update.{World, Poll, network_update}
use re203_projet_reseau.Net.Update.Served.{OnlyClients, Quiet, network_update-hangup}
use re203_projet_reseau.Router.Table.{ClientPointer, Entry, find}
use re203_projet_reseau.Router.State.{Router, client_at}
use re203_projet_reseau.Router.SockActions.{forward}
use re203_projet_reseau.Router.Exec.{not_caught}
use re203_projet_reseau.Router.Exec.Forward.{forward-Route}
use re203_projet_reseau.Router.Events.{controller_id, disconnect, router_events}

get_elem?-behind :
    {A : Type 0} (before : List A) (x : A) (after : List A)
    → get_elem? (before ++ x ∷ after) (length before) ≡ some x
get_elem?-behind [] x after = refl
get_elem?-behind (y ∷ before) x after = get_elem?-behind before x after

client_at-behind :
    (w : World Router) (before : List Client) (x : Client) (after : List Client)
    → w.network.clients ≡ before ++ x ∷ after
    → client_at w (ClientPointer.in_array (length before)) ≡ ok x
unfolding client_at
client_at-behind w before x after e = ground (arith, get_elem?-behind before x after)

disconnect-other :
    (w : World Router) (c : Client) → str_eq c.id controller_id ≡ false → disconnect w c ≡ ok (w, c)
unfolding disconnect
disconnect-other w c o = rw o refl

module _ (trex_match : Str → Str → Bool) (os : Os) (stack_id : Str) (now : ℕ) (poll : Poll) where
  -- When the connection of a neighbour has ended, the turn of network__update leaves the table as
  -- it is and moves the clients behind it in the array forward by one place, and from then on the
  -- router sends what it has for a node behind the neighbour to the client that stood next to it.
  -- Only clients may be ready, none of them in front of it, no client in front may have its name
  -- and socket, it must not have the controller's name, and the text must fit the buffer of
  -- mess__toString.
  pub forward-stale :
      (w : World Router) (ready : ℤ → Bool) (before : List Client) (c next : Client)
      (after : List Client) (node : Str) (entry hop : Entry) (m : Message) (text : Str)
      → poll.ready ≡ some ready
      → OnlyClients w.network ready
      → w.network.clients ≡ before ++ c ∷ (next ∷ after)
      → Quiet ready before
      → ready c.sock ≡ true
      → (read_client os c.sock).0 ≡ 0
      → Differs c before
      → str_eq c.id controller_id ≡ false
      → find node w.state.table ≡ some entry
      → find entry.next_hop w.state.table ≡ some hop
      → hop.client ≡ ClientPointer.in_array (length before)
      → m.node2 ≡ some node
      → to_string (some m) ≡ ok (Buffer.text text)
      → (w' : World Router) × (network_update (router_events trex_match os stack_id now) os poll w
          ≡ ok (some w'))
        × (w'.state.table ≡ w.state.table)
        × (w'.network.clients ≡ before ++ next ∷ after)
        × ((forward os w' m >>= not_caught) ≡ ok (sent_text os w' next text))
  unfolding router_events
  forward-stale w ready before c next after node entry hop m text p o e q r z d other f g h n
        prints =
      let w' : World Router = record {
        state = w.state;
        network = record w.network { clients = before ++ next ∷ after };
        calls = w.calls ++ Effect.close c.sock ∷ [];
      } in
      (
        w',
        network_update-hangup (router_events trex_match os stack_id now) os poll w w ready before c
            (next ∷ after) p o e q r z d (disconnect-other w c other) refl,
        refl,
        refl,
        forward-Route os w' m node next n (record {
          entry = entry;
          hop = hop;
          found = f;
          next = g;
          connected = ap (client_at w') h ∙ client_at-behind w' before next after refl;
        })
            ∙ sent-eq-text os w' next m text (printed-text (some m) text prints),
      )
