-- ===== src/Controller/Main/Life.antt =====
-- The invariant of the network over the life of the controller (controller/main.c): from its start, over
-- any number of rounds of `network_loop`.
use mathlib.Core.Path.{subst}
use re203_projet_reseau.Prelude.{
  ◌≡◌, Bool, List, [], ◌∷◌, Option, none, some, Str, ok, ℤ, bind-eq-ok, Bool-cases, inl, inr, arith,
}
use re203_projet_reseau.Config.{Configuration}
use re203_projet_reseau.Net.Client.{SocketName}
use re203_projet_reseau.Net.Sockets.{Os, init_server_connection}
use re203_projet_reseau.Net.Network.{Network, network_open, network_is_opened, opened_on}
use re203_projet_reseau.Net.Network.Watched.{IsWatched, Fits}
use re203_projet_reseau.Net.Update.{World, Poll, network_update}
use re203_projet_reseau.Net.Update.Invariant.{IsSound}
use re203_projet_reseau.Controller.Graph.{Library}
use re203_projet_reseau.Controller.Table.{HashTable}
use re203_projet_reseau.Controller.Sock.{Controller}
use re203_projet_reseau.Controller.Events.{controller_events}
use re203_projet_reseau.Controller.Events.Invariant.{controller-IsSound}
use re203_projet_reseau.Controller.Main.{controller_port, opened_or_exit, exec_init, network_loop}

opened_or_exit-IsNew :
    (o : Option ℤ) (net : Network)
    → (let opened : Option Network = elim o [
      | none ↦ none
      | some server ↦ some (opened_on server)
    ] in
        opened_or_exit opened ≡ ok net)
    → IsWatched net × Fits net
unfolding opened_or_exit opened_on
opened_or_exit-IsNew none net e = cc e
opened_or_exit-IsNew (some server) net e =
    let same : opened_on server ≡ net = cc e in
    subst (λ (n : Network). IsWatched n × Fits n) same (((omega arith), tt), omega arith)

exec_init-IsNew :
    (os : Os) (config : Configuration) (net : Network)
    → exec_init os config ≡ ok net
    → IsWatched net × Fits net
unfolding exec_init network_open
exec_init-IsNew os config net e =
    let (port, p, q) = bind-eq-ok (controller_port config.controller_port) _ e in
    opened_or_exit-IsNew (init_server_connection os port) net q

module _ {T H : Type 0} (lib : Library T) (hash : HashTable H) (trex_match : Str → Str → Bool)
    (getsockname : ℤ → Option SocketName) where
  network_loop-IsSound :
      (rounds : List (Os × Poll)) (w w' : World (Controller T H))
      → IsSound w
      → network_loop lib hash trex_match getsockname rounds w ≡ ok (some w')
      → IsSound w'
  unfolding network_loop
  network_loop-IsSound [] w w' s e = let same : w ≡ w' = cc e in subst (λ v. IsSound v) same s
  network_loop-IsSound ((os, poll) ∷ rounds) w w' s e =
      let turn = network_update (controller_events lib hash trex_match getsockname os) os poll w in
      elim (Bool-cases (network_is_opened w.network)) [
        | inl o ↦
            let (r, t, q) = bind-eq-ok turn _ (rw o at e) in
            (elim r
                as (λ o.
                  turn ≡ ok o
                  → (elim o [
                    | none ↦ ok none
                    | some w1 ↦ network_loop lib hash trex_match getsockname rounds w1
                  ])
                    ≡ ok (some w')
                  → IsSound w') [
                    | none ↦ λ t q. cc q
                    | some w1 ↦ λ t q.
                        network_loop-IsSound rounds w1 w'
                          (controller-IsSound lib hash trex_match getsockname os os poll w w1 s t) q
                  ])
              t q
        | inr o ↦ let same : w ≡ w' = cc (rw o at e) in subst (λ v. IsSound v) same s
      ]

  -- From its start on, over any number of rounds of its main loop, whatever the system answers and
  -- whatever the clients send, the controller's network is sound when the process goes on: max
  -- bounds the server's and every client's socket, and the array holds 100 clients at most.
  pub controller_life-IsSound :
      (os : Os) (config : Configuration) (c : Controller T H) (rounds : List (Os × Poll))
      (net : Network) (w' : World (Controller T H))
      → exec_init os config ≡ ok net
      → network_loop lib hash trex_match getsockname rounds
          (record { state = c; network = net; calls = [] })
        ≡ ok (some w')
      → IsSound w'
  controller_life-IsSound os config c rounds net w' s r =
      network_loop-IsSound rounds (record { state = c; network = net; calls = [] }) w'
        (exec_init-IsNew os config net s) r
