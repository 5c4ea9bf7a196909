-- ===== src/Router/Start/Life.antt =====
-- The invariant of the network over the life of a router (router/router.cpp): from its start, over any
-- number of rounds of its main loop.
use re203_projet_reseau.Net.Network.Watched.{IsWatched, Fits}
use re203_projet_reseau.Router.Start.{log_in_if_reached, open_server, served}
use re203_projet_reseau.Prelude.{
  ℕ, ◌≡◌, List, [], ◌∷◌, Option, some, none, Str, Bool, ℤ, ok, arith, not,
}
use re203_projet_reseau.Config.{Configuration}
use re203_projet_reseau.Net.Sockets.{Os, init_server_connection}
use re203_projet_reseau.Net.Network.{
  Network, network_open, network_connect, network_is_opened, opened_on,
}
use re203_projet_reseau.Net.Update.{World, Poll, network_update}
use re203_projet_reseau.Net.Update.Invariant.{IsSound}
use re203_projet_reseau.Router.Table.{ClientPointer}
use re203_projet_reseau.Router.State.{Router, setting, name_client}
use re203_projet_reseau.Router.Neighborhood.{to_unsigned}
use re203_projet_reseau.Router.SockActions.{login}
use re203_projet_reseau.Router.Events.{controller_id, router_events}
use re203_projet_reseau.Router.Events.Stable.{Keeps, Keeps-bind, Keeps-chain, Keeps-if}
use re203_projet_reseau.Router.Events.Sending.{
  send_to-Keeps, name_client-Keeps, network_connect-Keeps,
}
use re203_projet_reseau.Router.Events.Invariant.{IsSound-Stable, router-IsSound, Keeps-ok}
use re203_projet_reseau.Router.Start.{
  new_router, address_of, reach_controller, log_in, start, main_loop,
}

-- If the process goes on, its network is sound.
abbrev IsAlive : Option (World Router) → Type 0
IsAlive none = Unit
IsAlive (some w) = IsSound w

module _ (trex_match : Str → Str → Bool) (stack_id : Str) where
  main_loop-IsAlive :
      (rounds : List (Os × Poll × ℕ)) (w : World Router)
      → IsSound w
      → Keeps IsAlive (main_loop trex_match stack_id rounds w)
  unfolding main_loop
  main_loop-IsAlive [] w h = h
  main_loop-IsAlive ((os, poll, now) ∷ rounds) w h =
      let turn = network_update (router_events trex_match os stack_id now) os poll w in
      Keeps-if IsAlive (not (network_is_opened w.network)) (ok (some w)) _ h (
        Keeps-bind IsAlive turn _ (λ r e.
          (elim r
              as (λ o.
                turn ≡ ok o
                → Keeps IsAlive (elim o [
                  | none ↦ ok none
                  | some w1 ↦ main_loop trex_match stack_id rounds w1
                ])) [
                  | none ↦ λ f. tt
                  | some w1 ↦ λ f.
                      main_loop-IsAlive rounds w1
                        (router-IsSound trex_match os stack_id now os poll w w1 h f)
                ])
            e))

  -- The network with the connection to the controller.
  abbrev IsReached : World Router → Option (Network × ℕ) → Type 0
  IsReached w none = Unit
  IsReached w (some (net, i)) = IsSound (record w { network = net })

  reach_controller-IsReached :
      (attempts : List Os) (w : World Router) (address : Str) (port : ℕ)
      → IsSound w
      → Keeps (IsReached w) (reach_controller stack_id address port attempts w.network)
  unfolding reach_controller
  reach_controller-IsReached [] w address port h = tt
  reach_controller-IsReached (os ∷ attempts) w address port h =
      Keeps-chain {A = Network × Option ℕ} (λ r. IsSound (record w { network = r.0 })) (IsReached w)
        (network_connect os w.network address port stack_id) _
        (network_connect-Keeps IsSound IsSound-Stable os w address port stack_id h)
        (λ r q.
          elim r.1
            as (λ o. Keeps (IsReached w) (elim o [
              | some i ↦ ok (some (r.0, i))
              | none ↦ reach_controller stack_id address port attempts r.0
            ])) [
              | some i ↦ q
              | none ↦
                  reach_controller-IsReached attempts (record w { network = r.0 }) address port q
            ])

  log_in-IsSound :
      (os : Os) (name : Str) (config : Configuration) (w : World Router) (i : ℕ)
      → IsSound w
      → Keeps IsSound (log_in os name config w.network i)
  unfolding log_in login
  log_in-IsSound os name config w i h =
      let w1 : World Router = record {
        state = record (new_router name config) { controller = ClientPointer.in_array i };
        network = w.network;
        calls = [];
      } in
      Keeps-chain IsSound IsSound (name_client w1 (ClientPointer.in_array i) controller_id) _
        (name_client-Keeps IsSound IsSound-Stable os w1 (ClientPointer.in_array i) controller_id h)
        (λ w2 q.
          Keeps-bind IsSound (setting config.router_port) _
            (λ port e. send_to-Keeps IsSound IsSound-Stable os w2 w2.state.controller _ q))

  log_in_if_reached-IsAlive :
      (os : Os) (name : Str) (config : Configuration) (w : World Router) (r : Option (Network × ℕ))
      → IsReached w r
      → Keeps IsAlive (log_in_if_reached os name config r)
  unfolding log_in_if_reached
  log_in_if_reached-IsAlive os name config w none h = tt
  log_in_if_reached-IsAlive os name config w (some (net, i)) h =
      Keeps-chain IsSound IsAlive (log_in os name config net i) _
        (log_in-IsSound os name config (record w { network = net }) i h) (λ w1 q. q)

  -- The network of a server's socket.
  abbrev IsNew : Network → Type 0
  IsNew net = IsWatched net × Fits net

  opened_on-IsNew : (server : ℤ) → IsNew (opened_on server)
  unfolding opened_on
  opened_on-IsNew server = (((omega arith), tt), omega arith)

  served-IsNew :
      (o : Option ℤ)
      → (let net : Option Network = elim o [
        | none ↦ none
        | some server ↦ some (opened_on server)
      ] in
          Keeps IsNew (served net))
  unfolding served
  served-IsNew none = tt
  served-IsNew (some server) = opened_on-IsNew server

  open_server-IsNew : (os : Os) (port : ℤ) → Keeps IsNew (open_server os port)
  unfolding open_server network_open
  open_server-IsNew os port = served-IsNew (init_server_connection os (to_unsigned port))

  start-IsAlive :
      (os : Os) (attempts : List Os) (name : Str) (config : Configuration)
      → Keeps IsAlive (start os stack_id attempts name config)
  unfolding start
  start-IsAlive os attempts name config =
      Keeps-bind IsAlive (setting config.router_port) _ (λ router_port e.
        Keeps-chain IsNew IsAlive (open_server os router_port) _ (open_server-IsNew os router_port)
          (λ net n. Keeps-bind IsAlive (address_of config) _ (λ address f.
            Keeps-bind IsAlive (setting config.controller_port) _ (λ port g.
              let w : World Router = record {
                state = new_router name config;
                network = net;
                calls = [];
              } in
              Keeps-chain (IsReached w) IsAlive
                (reach_controller stack_id address (to_unsigned port) attempts net) _
                (reach_controller-IsReached attempts w address (to_unsigned port) n)
                (λ r q. log_in_if_reached-IsAlive os name config w r q)))))

  -- From its start on, over any number of rounds of its main loop, whatever the system answers and
  -- whatever it is sent, the router's network is sound when the process goes on: max bounds the
  -- server's and every client's socket, and the array holds 100 clients at most.
  pub router_life-IsSound :
      (os : Os) (attempts : List Os) (name : Str) (config : Configuration)
      (rounds : List (Os × Poll × ℕ)) (w w' : World Router)
      → start os stack_id attempts name config ≡ ok (some w)
      → main_loop trex_match stack_id rounds w ≡ ok (some w')
      → IsSound w'
  router_life-IsSound os attempts name config rounds w w' s r =
      let begun : IsSound w =
        Keeps-ok IsAlive (start os stack_id attempts name config) (some w)
          (start-IsAlive os attempts name config) s in
      Keeps-ok IsAlive (main_loop trex_match stack_id rounds w) (some w')
        (main_loop-IsAlive rounds w begun) r
