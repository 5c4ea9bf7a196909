-- ===== src/Net/Update/Accepted.antt =====
-- The branches of `network__update` (common/net.c) for the keyboard and for a new connection.
use re203_projet_reseau.Prelude.{
  Option, ltb, ◌≡◌, refl, Bool, true, false, [], none, some, Str, length, if◌then◌else◌, ℤ, pos,
  ◌==ℤ◌, Outcome, ok, ◌>>=◌, ◌<◌, arith, ap, ◌∙◌,
}
use re203_projet_reseau.Net.Sockets.{Os, c_string, read_client, socket_error, nb_clients_max}
use re203_projet_reseau.Net.Network.{Status, Network, network_is_opened, add_client}
use re203_projet_reseau.Net.Network.Array.{grown}
use re203_projet_reseau.Net.Update.{
  World, Events, Poll, is_client_socket, is_set, handle_connection, handle_clients, handle_client,
  disconnect_in, dispatch, network_update,
}
use re203_projet_reseau.Net.Update.Served.{update-dispatch, is_set-false}

unwatched :
    (net : Network) (ready : ℤ → Bool)
    → is_client_socket (pos 0) net.clients ≡ false
    → (pos 0 ==ℤ net.server) ≡ false
    → is_set net ready (pos 0) ≡ false
unfolding is_set
unwatched net ready c s = simp (c, s)

watched :
    (net : Network) (ready : ℤ → Bool)
    → ready net.server ≡ true
    → is_set net ready net.server ≡ true
unfolding is_set
watched net ready r = ground arith

-- A turn, as a function of what it does once `select` has answered.
unfoldable turn :
    {S : Type 0} → Poll → World S → ((ℤ → Bool) → Outcome (World S)) → Outcome (Option (World S))
turn poll w d =
    if network_is_opened w.network
    then elim poll.ready [ none ↦ ok none | some ready ↦ d ready >>= (λ w'. ok (some w')) ]
    else ok (some w)

module _ {S : Type 0} (events : Events S) (os : Os) (poll : Poll) where
  dispatch-no_input :
      (w : World S) (input : World S → Str → Outcome (World S)) (ready : ℤ → Bool)
      → is_client_socket (pos 0) w.network.clients ≡ false
      → (pos 0 ==ℤ w.network.server) ≡ false
      → dispatch (record events { input_event = input }) os poll w (is_set w.network ready)
        ≡ dispatch events os poll w (is_set w.network ready)
  unfolding dispatch handle_connection handle_clients handle_client disconnect_in
  dispatch-no_input w input ready c s =
      let unset : is_set w.network ready (pos 0) ≡ false = unwatched w.network ready c s in
      rw unset refl

  -- The keyboard's descriptor, 0, is not among those that `select` watches: unless the server's or a
  -- client's socket is 0, the function that is set for the keyboard makes no difference to a turn.
  pub network_update-no_input :
      (w : World S) (input : World S → Str → Outcome (World S))
      → is_client_socket (pos 0) w.network.clients ≡ false
      → (pos 0 ==ℤ w.network.server) ≡ false
      → network_update (record events { input_event = input }) os poll w
        ≡ network_update events os poll w
  unfolding network_update turn
  network_update-no_input w input c s =
      ap (turn poll w) (λ i ready. dispatch-no_input w input ready c s i)

  read_client-none : (sock : ℤ) → os.recv sock 1023 ≡ none → read_client os sock ≡ (0, [])
  unfolding read_client
  read_client-none sock e =
      ap (λ o. elim o [ none ↦ (0, []) | some bytes ↦ (length bytes, c_string bytes) ]) e

  -- A new connection whose first `recv` fails is not dropped: while the network is open, the keyboard
  -- is not ready and the array has room, the client
  -- is added to it and its connection event is raised with the empty text.
  pub network_update-failed_recv :
      (w : World S) (ready : ℤ → Bool)
      → w.network.status ≡ Status.opened
      → poll.ready ≡ some ready
      → ready (pos 0) ≡ false
      → ready w.network.server ≡ true
      → (poll.accept ==ℤ socket_error) ≡ false
      → os.recv poll.accept 1023 ≡ none
      → length w.network.clients < nb_clients_max
      → network_update events os poll w ≡ (
          events.connection_event
            (record w {
              network = grown w.network (record { sock = poll.accept; id = poll.stack_id });
            })
            (length w.network.clients)
            []
          >>= λ w'. ok (some w'))
  unfolding dispatch is_set handle_connection add_client
  network_update-failed_recv w ready o p k s a f room =
      let t : ltb (length w.network.clients) nb_clients_max ≡ true = ground arith in
      let z : is_set w.network ready w.network.server ≡ true = watched w.network ready s in
      update-dispatch events os poll w ready o p
      ∙ rw (is_set-false w.network ready (pos 0) k, z, a, read_client-none poll.accept f, t) refl
