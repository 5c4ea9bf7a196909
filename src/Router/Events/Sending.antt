-- ===== src/Router/Events/Sending.antt =====
-- What the router sends (router/sock_actions.cpp) and the connections it makes (router/router.cpp) keep
-- every stable property.
use re203_projet_reseau.Prelude.{
  ◌==ℤ◌, length, Option, ℕ, Bool, true, false, none, some, Str, ok, ◌>>=◌, deref,
}
use re203_projet_reseau.Messages.Types.{Message}
use re203_projet_reseau.Messages.Print.{printed}
use re203_projet_reseau.Net.Client.{client_set_id}
use re203_projet_reseau.Net.Sockets.{connection_error, init_client_connection, Os}
use re203_projet_reseau.Net.Network.{Network, network_connect, add_client}
use re203_projet_reseau.Net.Update.{World}
use re203_projet_reseau.Controller.Events.Keeping.{client_set_id-sock}
use re203_projet_reseau.Router.Table.{ClientPointer, find, at, next_client}
use re203_projet_reseau.Router.State.{Router, with_table, client_at, name_client, setting}
use re203_projet_reseau.Router.SockActions.{
  send, send_to, send_hop, forward, reverse, turned, link, link_ack, send_to_entry, vector_ack,
}
use re203_projet_reseau.Router.Exec.{not_caught}
use re203_projet_reseau.Router.Events.Stable.{
  Stable, Keeps, Keeps-bind, Keeps-chain, Keeps-if, at-Keeps,
}

module _ (P : World Router → Type 0) (stable : Stable P) (os : Os) where
  send-Keeps :
      (w : World Router) (p : ClientPointer) (m : Message)
      → P w
      → Keeps (λ r. P r.1) (send os w p m)
  unfolding send
  send-Keeps w p m h =
      Keeps-bind (λ r. P r.1) (printed (some m)) _
        (λ text e. Keeps-bind (λ r. P r.1) (client_at w p) _ (λ c f. stable.on_calls w _ h))

  pub send_to-Keeps :
      (w : World Router) (p : ClientPointer) (m : Message) → P w → Keeps P (send_to os w p m)
  unfolding send_to
  send_to-Keeps w p m h =
      Keeps-chain (λ r. P r.1) P (send os w p m) (λ r. ok r.1) (send-Keeps w p m h) (λ r q. q)

  -- A table that the router may take.
  pub table-Keeps : (w : World Router) (k : Str) → P w → P (with_table w (at w.state.table k).1)
  table-Keeps w k h =
      at-Keeps (λ t. P (with_table w t)) (λ t k1 e q. stable.on_put (with_table w t) k1 e q)
        w.state.table k h

  send_hop-Keeps :
      (w : World Router) (m : Message) (node : Str)
      → P w
      → Keeps (λ r. P r.0) (send_hop os w m (next_client w.state.table node))
  unfolding next_client send_hop
  send_hop-Keeps w m node h =
      elim (find node w.state.table)
        as (λ o.
          Keeps (λ (r : World Router × Bool). P r.0)
            (send_hop os w m (elim o [
              | none ↦ none
              | some e ↦
                  some ((at w.state.table e.next_hop).0.client, (at w.state.table e.next_hop).1)
            ]))) [
              | none ↦ h
              | some e ↦
                  Keeps-chain P (λ r. P r.0)
                    (send_to os (with_table w (at w.state.table e.next_hop).1)
                      (at w.state.table e.next_hop).0.client m)
                    (λ w1. ok (w1, false))
                    (send_to-Keeps (with_table w (at w.state.table e.next_hop).1) _ m
                      (table-Keeps w e.next_hop h))
                    (λ w1 q. q)
            ]

  forward-Keeps : (w : World Router) (m : Message) → P w → Keeps (λ r. P r.0) (forward os w m)
  unfolding forward
  forward-Keeps w m h =
      Keeps-bind (λ r. P r.0) (deref m.node2) _ (λ node e. send_hop-Keeps w m node h)

  reverse-Keeps : (w : World Router) (m : Message) → P w → Keeps (λ r. P r.0) (reverse os w m)
  unfolding reverse
  reverse-Keeps w m h =
      Keeps-bind (λ r. P r.0) (setting w.state.config.default_ttl_value) _
        (λ ttl e. forward-Keeps w (turned os m ttl) h)

  not_caught-Keeps : (r : World Router × Bool) → P r.0 → Keeps P (not_caught r)
  unfolding not_caught
  not_caught-Keeps (w, true) h = tt
  not_caught-Keeps (w, false) h = h

  pub forward_caught-Keeps :
      (w : World Router) (m : Message) → P w → Keeps P (forward os w m >>= not_caught)
  forward_caught-Keeps w m h =
      Keeps-chain (λ r. P r.0) P (forward os w m) not_caught (forward-Keeps w m h) not_caught-Keeps

  pub reverse_caught-Keeps :
      (w : World Router) (m : Message) → P w → Keeps P (reverse os w m >>= not_caught)
  reverse_caught-Keeps w m h =
      Keeps-chain (λ r. P r.0) P (reverse os w m) not_caught (reverse-Keeps w m h) not_caught-Keeps

  pub link-Keeps : (w : World Router) (p : ClientPointer) → P w → Keeps P (link os w p)
  unfolding link
  link-Keeps w p h = send_to-Keeps w p _ h

  pub link_ack-Keeps : (w : World Router) (p : ClientPointer) → P w → Keeps P (link_ack os w p)
  unfolding link_ack
  link_ack-Keeps w p h = send_to-Keeps w p _ h

  pub vector_ack-Keeps : (w : World Router) (id : Str) → P w → Keeps P (vector_ack os w id)
  unfolding vector_ack send_to_entry
  vector_ack-Keeps w id h =
      send_to-Keeps (with_table w (at w.state.table id).1) _ _ (table-Keeps w id h)

  pub name_client-Keeps :
      (w : World Router) (p : ClientPointer) (id : Str) → P w → Keeps P (name_client w p id)
  unfolding name_client
  name_client-Keeps w p id h = Keeps-bind P (client_at w p) _ (λ c e.
      Keeps-bind P (client_set_id c (some id)) _
        (λ d f. stable.on_client w p c d e (client_set_id-sock c d (some id) f) h))

  pub network_connect-Keeps :
      (w : World Router) (address : Str) (port : ℕ) (id : Str)
      → P w
      → Keeps (λ r. P (record w { network = r.0 })) (network_connect os w.network address port id)
  unfolding network_connect
  network_connect-Keeps w address port id h =
      let sock = init_client_connection os address port in
      Keeps-if {A = Network × Option ℕ} (λ r. P (record w { network = r.0 }))
        (sock ==ℤ connection_error) (ok (w.network, none)) _ h
        (Keeps-bind (λ r. P (record w { network = r.0 }))
          (add_client w.network (record { sock = sock; id = id }))
          (λ net. ok (net, some (length w.network.clients)))
          (λ net e. stable.on_connect w net _ e h))
