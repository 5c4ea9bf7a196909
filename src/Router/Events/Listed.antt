-- ===== src/Router/Events/Listed.antt =====
-- `Router::parseNeighborhood` (router/router.cpp) keeps every stable property.
use re203_projet_reseau.Prelude.{
  ℕ, ◌≡◌, sym, List, [], ◌∷◌, ◌++◌, Option, none, some, Str, Pointer, codes, str_eq, deref, ℤ,
}
use mathlib.Core.Path.{subst}
use re203_projet_reseau.Libc.Tokens.{strtok}
use re203_projet_reseau.Messages.Reader.{atoi_pointer}
use re203_projet_reseau.Net.Sockets.{Os}
use re203_projet_reseau.Net.Network.{Network, network_connect}
use re203_projet_reseau.Net.Update.{World}
use re203_projet_reseau.Router.Table.{
  ClientPointer, Entry, RouteTable, put, find, new_entry, assigned,
}
use re203_projet_reseau.Router.State.{Router, with_table, name_client}
use re203_projet_reseau.Router.Vector.{strip_brackets, split}
use re203_projet_reseau.Router.Neighborhood.{
  to_unsigned, address_token, linked, connect_neighbor, add_neighbor, update_neighbor,
  place_neighbor, parse_neighbors, parse_list, parse_neighborhood, parse_stripped, drop_gone,
}
use re203_projet_reseau.Router.Events.Stable.{
  Stable, Keeps, Keeps-bind, Keeps-chain, Keeps-if, modify-Keeps, drop_gone-Keeps,
}
use re203_projet_reseau.Router.Events.Sending.{link-Keeps, name_client-Keeps, network_connect-Keeps}

module _ (P : World Router → Type 0) (stable : Stable P) (os : Os) (stack_id : Str) (now : ℕ) where
  put-Keeps :
      (w : World Router) (t : RouteTable) (k : Str) (e : Entry)
      → P (with_table w t)
      → P (with_table w (put k e t))
  put-Keeps w t k e h = stable.on_put (with_table w t) k e h

  connect_neighbor-Keeps :
      (w : World Router) (s ip : Str) (port : ℤ)
      → P w
      → Keeps P (connect_neighbor os stack_id w s ip port)
  unfolding connect_neighbor
  connect_neighbor-Keeps w s ip port h =
      Keeps-chain {A = Network × Option ℕ} (λ r. P (record w { network = r.0 })) P
        (network_connect os w.network ip (to_unsigned port) stack_id) _
        (network_connect-Keeps P stable os w ip (to_unsigned port) stack_id h)
        (λ r q. Keeps-bind P (deref r.1) _ (λ i e.
          Keeps-chain P P (name_client (record w { network = r.0 }) (ClientPointer.in_array i) s) _
            (name_client-Keeps P stable os (record w { network = r.0 }) (ClientPointer.in_array i) s
              q)
            (λ w1 q1. link-Keeps P stable os _ _ (
              modify-Keeps (λ t. P (with_table w1 t)) (put-Keeps w1) w1.state.table s
                (linked (ClientPointer.in_array i)) q1))))

  add_neighbor-Keeps :
      (w : World Router) (s rest : Str) → P w → Keeps P (add_neighbor os stack_id w s rest)
  unfolding add_neighbor
  add_neighbor-Keeps w s rest h =
      Keeps-bind P (atoi_pointer (strtok (codes ",") rest).0) _ (λ dist e.
        Keeps-bind P
          (atoi_pointer (strtok (codes ":") (address_token (strtok (codes ",") rest).1).1).0) _
          (λ port f.
            Keeps-bind P (deref (address_token (strtok (codes ",") rest).1).0) _ (λ address g.
              connect_neighbor-Keeps
                (with_table w (put s (assigned (new_entry s s dist)) w.state.table)) s address port
                (stable.on_put w s _ h))))

  update_neighbor-Keeps :
      (w : World Router) (s rest : Str) (e : Entry)
      → P w
      → Keeps P (update_neighbor os stack_id w s rest e)
  unfolding update_neighbor
  update_neighbor-Keeps w s rest e h =
      Keeps-bind P (atoi_pointer (strtok (codes ",") rest).0) _ (λ dist f. stable.on_put w s _ h)

  place_neighbor-Keeps :
      (w : World Router) (s rest : Str) → P w → Keeps P (place_neighbor os stack_id w s rest)
  unfolding place_neighbor
  place_neighbor-Keeps w s rest h =
      Keeps-if P (str_eq s w.state.name) _ _ h
        (elim (find s w.state.table)
          as (λ o. Keeps P (elim o [
            | none ↦ add_neighbor os stack_id w s rest
            | some e ↦ update_neighbor os stack_id w s rest e
          ])) [
            | none ↦ add_neighbor-Keeps w s rest h
            | some e ↦ update_neighbor-Keeps w s rest e h
          ])

  parse_neighbors-Keeps :
      (groups : List Str) (w : World Router) (names : List Str)
      → P w
      → Keeps (λ r. P r.0) (parse_neighbors os stack_id w names groups)
  unfolding parse_neighbors
  parse_neighbors-Keeps [] w names h = h
  parse_neighbors-Keeps (group ∷ groups) w names h =
      Keeps-bind (λ r. P r.0) (deref (strtok (codes ",") group).0) _
        (λ s e.
          Keeps-chain P (λ r. P r.0) (place_neighbor os stack_id w s (strtok (codes ",") group).1) _
            (place_neighbor-Keeps w s _ h)
            (λ w1 q. parse_neighbors-Keeps groups w1 (names ++ s ∷ []) q))

  parse_list-Keeps : (w : World Router) (str : Str) → P w → Keeps P (parse_list os stack_id w str)
  unfolding parse_list
  parse_list-Keeps w str h =
      Keeps-chain {A = World Router × List Str} (λ r. P r.0) P
        (parse_neighbors os stack_id w [] (split str)) _ (parse_neighbors-Keeps (split str) w [] h)
        (λ r q.
          Keeps-chain (λ t. t ≡ r.0.state.table) P (drop_gone r.1 r.0.state.table) _
            (drop_gone-Keeps r.0.state.table r.1)
            (λ t e. subst (λ (t1 : RouteTable). P (with_table r.0 t1)) (sym e) q))

  parse_stripped-Keeps :
      (str : Str) (w : World Router) → P w → Keeps P (parse_stripped os stack_id w str)
  unfolding parse_stripped
  parse_stripped-Keeps [] w h = stable.on_clear w h
  parse_stripped-Keeps (c ∷ str) w h = parse_list-Keeps w (c ∷ str) h

  pub parse_neighborhood-Keeps :
      (w : World Router) (p : Pointer) → P w → Keeps P (parse_neighborhood os stack_id w p)
  unfolding parse_neighborhood
  parse_neighborhood-Keeps w p h =
      Keeps-bind P (deref p) _
        (λ s e. Keeps-bind P (strip_brackets s) _ (λ str f. parse_stripped-Keeps str w h))
