-- ===== src/Net/Update/Served.antt =====
-- What a turn of `network__update` (common/net.c) serves.
use re203_projet_reseau.Prelude.{
  ℕ, suc, ◌≡◌, refl, ◌∙◌, Bool, true, false, List, [], ◌∷◌, ◌++◌, none, some, length, ◌==◌, ℤ, pos,
  ok, ◌>>=◌, arith, ap,
}
use re203_projet_reseau.Net.Client.{Client}
use re203_projet_reseau.Net.Sockets.{Os, Effect, c_string, read_client}
use re203_projet_reseau.Net.Network.{
  Status, Network, network_is_opened, network_disconnect, remove_client,
}
use re203_projet_reseau.Net.Network.Array.{Differs, remove_client-first, same_client_refl}
use re203_projet_reseau.Net.Update.{
  World, Events, Poll, is_client_socket, is_set, first_ready, handle_client, handle_clients,
  disconnect_in, dispatch, network_update,
}

-- No client of the list is ready.
abbrev pub Quiet : (ℤ → Bool) → List Client → Type 0
Quiet ready [] = Unit
Quiet ready (c ∷ clients) = (ready c.sock ≡ false) × Quiet ready clients

-- The network answers, and nothing but clients is ready.
abbrev pub OnlyClients : Network → (ℤ → Bool) → Type 0
OnlyClients net ready =
    (net.status ≡ Status.opened) × (ready (pos 0) ≡ false) × (ready net.server ≡ false)

is_client_socket-member :
    (before : List Client) (c : Client) (after : List Client)
    → is_client_socket c.sock (before ++ c ∷ after) ≡ true
unfolding is_client_socket
is_client_socket-member [] c after = ground arith
is_client_socket-member (d ∷ before) c after =
    rw (is_client_socket-member before c after) (ground arith)

first_ready-Quiet :
    (net : Network) (ready : ℤ → Bool) (before : List Client) (c : Client) (after : List Client)
    → Quiet ready before
    → is_set net ready c.sock ≡ true
    → first_ready (is_set net ready) (before ++ c ∷ after) ≡ some c
unfolding first_ready is_set
first_ready-Quiet net ready [] c after q e = rw e refl
first_ready-Quiet net ready (d ∷ before) c after q e =
    rw (first_ready-Quiet net ready before c after q.1 e) (ground (arith, q.0))

pub is_set-false :
    (net : Network) (ready : ℤ → Bool) (fd : ℤ) → ready fd ≡ false → is_set net ready fd ≡ false
unfolding is_set
is_set-false net ready fd e = ground arith

is_set-client :
    (net : Network) (ready : ℤ → Bool) (before : List Client) (c : Client) (after : List Client)
    → net.clients ≡ before ++ c ∷ after
    → ready c.sock ≡ true
    → is_set net ready c.sock ≡ true
unfolding is_set
is_set-client net ready before c after e r =
    rw (e, r) (ground (arith, is_client_socket-member before c after))

read_client-some :
    (os : Os) (sock : ℤ) (b : ℕ) (bytes : List ℕ)
    → os.recv sock 1023 ≡ some (b ∷ bytes)
    → read_client os sock ≡ (suc (length bytes), c_string (b ∷ bytes))
unfolding read_client
read_client-some os sock b bytes e =
    ap (λ o. elim o [ none ↦ (0, []) | some bytes ↦ (length bytes, c_string bytes) ]) e

module _ {S : Type 0} (events : Events S) (os : Os) (poll : Poll) where
  pub update-dispatch :
      (w : World S) (ready : ℤ → Bool)
      → w.network.status ≡ Status.opened
      → poll.ready ≡ some ready
      → network_update events os poll w
        ≡ (dispatch events os poll w (is_set w.network ready) >>= λ w'. ok (some w'))
  unfolding network_update network_is_opened
  update-dispatch w ready o r =
      let e : network_is_opened w.network ≡ true =
        ap (λ s. elim s [ Status.opened ↦ true | Status.closed ↦ false ]) o in
      rw e (
        ap
          (λ p. elim p [
            | none ↦ ok none
            | some set ↦ dispatch events os poll w (is_set w.network set) >>= (λ w'. ok (some w'))
          ])
          r)

  dispatch-first :
      (w : World S) (ready : ℤ → Bool) (before : List Client) (c : Client) (after : List Client)
      → OnlyClients w.network ready
      → w.network.clients ≡ before ++ c ∷ after
      → Quiet ready before
      → ready c.sock ≡ true
      → dispatch events os poll w (is_set w.network ready) ≡ handle_client events os poll w c
  unfolding dispatch handle_clients
  dispatch-first w ready before c after o e q r =
      rw
        (
          is_set-false w.network ready (pos 0) o.1,
          is_set-false w.network ready w.network.server o.2,
        )
        (ap (handle_clients events os poll w) (
          ap (first_ready (is_set w.network ready)) e
          ∙ first_ready-Quiet w.network ready before c after q
              (is_set-client w.network ready before c after e r)))

  handle_client-hangup :
      (w w' : World S) (c : Client)
      → (read_client os c.sock).0 ≡ 0
      → events.disconnection_event w c ≡ ok (w', c)
      → handle_client events os poll w c
        ≡ ok (record w' {
          network = remove_client w'.network c;
          calls = w'.calls ++ Effect.close c.sock ∷ [];
        })
  unfolding handle_client disconnect_in network_disconnect
  handle_client-hangup w w' c z e = rw (z, e) refl

  handle_client-message :
      (w : World S) (c : Client) (b : ℕ) (bytes : List ℕ)
      → os.recv c.sock 1023 ≡ some (b ∷ bytes)
      → handle_client events os poll w c ≡ events.message_event w c (c_string (b ∷ bytes))
  unfolding handle_client
  handle_client-message w c b bytes e =
      let z : (suc (length bytes) == 0) ≡ false = ground arith in
      rw (read_client-some os c.sock b bytes e, z) refl

  update-first :
      (w : World S) (ready : ℤ → Bool) (before : List Client) (c : Client) (after : List Client)
      → poll.ready ≡ some ready
      → OnlyClients w.network ready
      → w.network.clients ≡ before ++ c ∷ after
      → Quiet ready before
      → ready c.sock ≡ true
      → network_update events os poll w ≡ (handle_client events os poll w c >>= λ w'. ok (some w'))
  update-first w ready before c after p o e q r =
      update-dispatch w ready o.0 p
      ∙ ap (λ m. m >>= λ w'. ok (some w')) (dispatch-first w ready before c after o e q r)

  -- If only clients are ready and the first of them in the array has hung up, or `recv` fails on it,
  -- one turn raises its disconnection event, closes its socket and takes it out of the array, the
  -- others in their order, provided the event leaves the client and the network as they are and no
  -- client in front has its name and socket.
  pub network_update-hangup :
      (w w' : World S) (ready : ℤ → Bool) (before : List Client) (c : Client) (after : List Client)
      → poll.ready ≡ some ready
      → OnlyClients w.network ready
      → w.network.clients ≡ before ++ c ∷ after
      → Quiet ready before
      → ready c.sock ≡ true
      → (read_client os c.sock).0 ≡ 0
      → Differs c before
      → events.disconnection_event w c ≡ ok (w', c)
      → w'.network ≡ w.network
      → network_update events os poll w
        ≡ ok (
            some (record {
              state = w'.state;
              network = record w.network { clients = before ++ after };
              calls = w'.calls ++ Effect.close c.sock ∷ [];
            }))
  network_update-hangup w w' ready before c after p o e q r z d f same =
      let removed : remove_client w'.network c ≡ record w.network { clients = before ++ after } =
        rw same (remove_client-first w.network c c before after e d (same_client_refl c)) in
      update-first w ready before c after p o e q r
      ∙ ap (λ m. m >>= λ w'. ok (some w')) (handle_client-hangup w w' c z f)
      ∙ ap
          (λ n. ok (some (record w' { network = n; calls = w'.calls ++ Effect.close c.sock ∷ [] })))
          removed

  -- If only clients are ready and the first of them in the array has sent something, one turn raises
  -- its message event, and no other, on the text up to the first zero byte.
  pub network_update-message :
      (w : World S) (ready : ℤ → Bool) (before : List Client) (c : Client) (after : List Client)
      (b : ℕ) (bytes : List ℕ)
      → poll.ready ≡ some ready
      → OnlyClients w.network ready
      → w.network.clients ≡ before ++ c ∷ after
      → Quiet ready before
      → ready c.sock ≡ true
      → os.recv c.sock 1023 ≡ some (b ∷ bytes)
      → network_update events os poll w
        ≡ (events.message_event w c (c_string (b ∷ bytes)) >>= λ w'. ok (some w'))
  network_update-message w ready before c after b bytes p o e q r f =
      update-first w ready before c after p o e q r
      ∙ ap (λ m. m >>= λ w'. ok (some w')) (handle_client-message w c b bytes f)
