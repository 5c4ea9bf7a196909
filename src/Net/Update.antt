-- ===== src/Net/Update.antt =====
-- common/net.c: `network__update`, one turn of the main loop. The event functions are a parameter: a
-- record of handlers over a state of their own, which read and change the network object.
pub mod Accepted
pub mod Invariant
pub mod Served
use re203_projet_reseau.Prelude.{
  ℕ, ◌+◌, Bool, true, false, ◌&&◌, ◌||◌, List, [], ◌∷◌, ◌++◌, Option, none, some, Str, length, leb,
  if◌then◌else◌, ◌==◌, ℤ, pos, ◌==ℤ◌, Outcome, ok, fault, out_of_bounds, ◌>>=◌,
}
use re203_projet_reseau.Net.Client.{Client, buf_size}
use re203_projet_reseau.Net.Sockets.{Os, Effect, read_client, socket_error}
use re203_projet_reseau.Net.Network.{Network, network_is_opened, add_client, network_disconnect}

-- The state of the program, the network and the calls so far.
pub record World (S : Type 0) : Type 0 where
  pub state : S
  pub network : Network
  pub calls : List Effect

-- `connection_event` has the index of its client in the array. The other two get a copy of the
-- client, which `disconnection_event` may change before `network__update` uses it again.
pub record Events (S : Type 0) : Type 0 where
  pub input_event : World S → Str → Outcome (World S)
  pub connection_event : World S → ℕ → Str → Outcome (World S)
  pub disconnection_event : World S → Client → Outcome (World S × Client)
  pub message_event : World S → Client → Str → Outcome (World S)

-- What `select` answers for each descriptor that it watches, none for an error; what `accept`
-- answers; the line that `getchar` reads; the bytes of the stack in a new client's name.
pub record Poll : Type 0 where
  pub ready : Option (ℤ → Bool)
  pub accept : ℤ
  pub typed : Str
  pub stack_id : Str

unfoldable pub is_client_socket : ℤ → List Client → Bool
is_client_socket fd [] = false
is_client_socket fd (c ∷ clients) = (fd ==ℤ c.sock) || is_client_socket fd clients

-- `FD_ISSET` after `select`: the descriptor was put in the set, and it is ready.
unfoldable pub is_set : Network → (ℤ → Bool) → ℤ → Bool
is_set net ready fd = ((fd ==ℤ net.server) || is_client_socket fd net.clients) && ready fd

-- The first client that is ready.
unfoldable pub first_ready : (ℤ → Bool) → List Client → Option Client
first_ready set [] = none
first_ready set (c ∷ clients) =
    let rest = first_ready set clients in if set c.sock then some c else rest

module _ {S : Type 0} (events : Events S) (os : Os) (poll : Poll) where
  -- The line is written to the buffer of `BUF_SIZE` bytes with no test of its length.
  unfoldable pub handle_input : World S → Outcome (World S)
  handle_input w =
      if leb (length poll.typed + 1) buf_size
      then events.input_event w poll.typed
      else fault out_of_bounds

  -- `read_client` answers 0 for an error, never -1, so the test behind it is false.
  unfoldable pub handle_connection : World S → Outcome (World S)
  handle_connection w =
      let (n, buffer) = read_client os poll.accept in
      if poll.accept ==ℤ socket_error then ok w else if pos n ==ℤ socket_error then ok w else do
        net ← add_client w.network (record { sock = poll.accept; id = poll.stack_id })
        events.connection_event (record w { network = net }) (length w.network.clients) buffer

  unfoldable pub disconnect_in : World S × Client → World S
  disconnect_in (w, c) = record w {
    network = (network_disconnect w.network c).0;
    calls = w.calls ++ (network_disconnect w.network c).1;
  }

  unfoldable pub handle_client : World S → Client → Outcome (World S)
  handle_client w c =
      let (n, buffer) = read_client os c.sock in
      if n == 0
      then events.disconnection_event w c >>= (λ r. ok (disconnect_in r))
      else events.message_event w c buffer

  unfoldable pub handle_clients : World S → Option Client → Outcome (World S)
  handle_clients w none = ok w
  handle_clients w (some c) = handle_client w c

  -- What happens once `select` has answered.
  unfoldable pub dispatch : World S → (ℤ → Bool) → Outcome (World S)
  dispatch w set =
      if set (pos 0)
      then handle_input w
      else if set w.network.server
      then handle_connection w
      else handle_clients w (first_ready set w.network.clients)

  -- `network__update` on a network that is not NULL; none when the process exits.
  unfoldable pub network_update : World S → Outcome (Option (World S))
  network_update w =
      if network_is_opened w.network
      then elim poll.ready [
        | none ↦ ok none
        | some ready ↦ dispatch w (is_set w.network ready) >>= (λ w'. ok (some w'))
      ]
      else ok (some w)
