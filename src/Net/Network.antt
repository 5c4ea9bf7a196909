-- ===== src/Net/Network.antt =====
-- common/net.h and common/net.c: the network object and its array of clients.
pub mod Array
pub mod Watched
use re203_projet_reseau.Prelude.{
  Str, ℕ, suc, ◌+◌, ◌-◌, Bool, true, false, List, [], ◌∷◌, ◌++◌, map, Option, none, some, length,
  take, drop, ltb, if◌then◌else◌, ℤ, ◌==ℤ◌, ltb_ℤ, Outcome, ok, fault, out_of_bounds, ◌>>=◌,
}
use re203_projet_reseau.Net.Sockets.{
  Os, Effect, init_server_connection, init_client_connection, connection_error, nb_clients_max,
}
use re203_projet_reseau.Net.Client.{Client, same_client}

pub data Status : Type 0 where
  opened closed : Status

-- `clients` is the used part of the array, so its length is `nb_clients`. The event functions are
-- parameters of the functions that call them.
pub record Network : Type 0 where
  pub status : Status
  pub server : ℤ
  pub max : ℤ
  pub clients : List Client

-- The object that `network__open` builds on a server's socket.
unfoldable pub opened_on : ℤ → Network
opened_on server = record { status = Status.opened; server = server; max = server; clients = [] }

-- `network__open`: none when the process exits.
unfoldable pub network_open : Os → ℕ → Option Network
network_open os port = elim (init_server_connection os port) [
  | none ↦ none
  | some server ↦ some (opened_on server)
]

unfoldable pub network_is_opened : Network → Bool
network_is_opened net = elim net.status [ Status.opened ↦ true | Status.closed ↦ false ]

unfoldable pub network_close : Network → Network × List Effect
network_close net = (
  record net { status = Status.closed },
  Effect.close net.server ∷ map (λ c. Effect.close c.sock) net.clients,
)

-- `network__free`: what it asks of the system before it frees the object.
unfoldable pub network_free : Network → List Effect
unfolding network_is_opened network_close
network_free net = if network_is_opened net then (network_close net).1 else []

-- `get_client_id`: the index of the first entry that equals the client, none for -1.
unfoldable pub index_from : ℕ → Client → List Client → Option ℕ
index_from i c [] = none
index_from i c (d ∷ clients) =
    let rest = index_from (suc i) c clients in if same_client c d then some i else rest

unfoldable pub get_client_id : Network → Client → Option ℕ
get_client_id net c = index_from 0 c net.clients

-- `add_client`: there is no test that the array has room.
unfoldable pub add_client : Network → Client → Outcome Network
add_client net c =
    if ltb (length net.clients) nb_clients_max
    then ok (record net {
      max = if ltb_ℤ net.max c.sock then c.sock else net.max;
      clients = net.clients ++ c ∷ [];
    })
    else fault out_of_bounds

-- `memmove` closes the gap at the index.
unfoldable pub remove_at : Option ℕ → Network → Network
remove_at none net = net
remove_at (some i) net = record net { clients = take i net.clients ++ drop (i + 1) net.clients }

unfoldable pub remove_client : Network → Client → Network
remove_client net c = remove_at (get_client_id net c) net

unfoldable pub network_disconnect : Network → Client → Network × List Effect
network_disconnect net c = (remove_client net c, Effect.close c.sock ∷ [])

-- `network__connect`; `id` is what the stack holds in the new client's name.
unfoldable pub network_connect : Os → Network → Str → ℕ → Str → Outcome (Network × Option ℕ)
network_connect os net address port id =
    let sock = init_client_connection os address port in
    if sock ==ℤ connection_error then ok (net, none) else do
      net' ← add_client net (record { sock = sock; id = id })
      ok (net', some (length net.clients))
