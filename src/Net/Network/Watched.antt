-- ===== src/Net/Network/Watched.antt =====
-- The field `max` (common/net.c), up to which `select (max + 1, …)` watches the sockets.
use re203_projet_reseau.Net.Network.Array.{grown, add_client-eq-ok}
use re203_projet_reseau.Prelude.{
  length, length-append, length-drop, length-take, bind-eq-ok, ◌≤◌, ℕ, zero, suc, ◌+◌, ◌≡◌, List,
  [], ◌∷◌, ◌++◌, ok, some, none, Option, arith, take, drop, ℤ, ◌≤ℤ◌, ltb_ℤ, if◌then◌else◌, Str,
  Bool-cases, ◌==ℤ◌, inl, inr,
}
use re203_projet_reseau.Net.Sockets.{Os, init_client_connection, connection_error}
use re203_projet_reseau.Net.Network.{
  nb_clients_max, opened_on, Network, add_client, remove_client, remove_at, get_client_id,
  network_close, network_connect, network_disconnect,
}
use re203_projet_reseau.Net.Client.{Client}

abbrev pub Below : ℤ → List Client → Type 0
Below m [] = Unit
Below m (c ∷ clients) = (c.sock ≤ℤ m) × Below m clients

-- The invariant: the server's socket and each client's are at most `max`.
abbrev pub IsWatched : Network → Type 0
IsWatched net = (net.server ≤ℤ net.max) × Below net.max net.clients

Below-mono : (m n : ℤ) (clients : List Client) → m ≤ℤ n → Below m clients → Below n clients
Below-mono m n [] le h = tt
Below-mono m n (c ∷ clients) le h = (omega arith, Below-mono m n clients le h.1)

Below-snoc :
    (m : ℤ) (clients : List Client) (c : Client)
    → Below m clients
    → c.sock ≤ℤ m
    → Below m (clients ++ c ∷ [])
Below-snoc m [] c h le = (le, tt)
Below-snoc m (d ∷ clients) c h le = (h.0, Below-snoc m clients c h.1 le)

Below-append : (m : ℤ) (xs ys : List Client) → Below m xs → Below m ys → Below m (xs ++ ys)
Below-append m [] ys h k = k
Below-append m (x ∷ xs) ys h k = (h.0, Below-append m xs ys h.1 k)

Below-take : (m : ℤ) (n : ℕ) (xs : List Client) → Below m xs → Below m (take n xs)
Below-take m zero xs h = tt
Below-take m (suc n) [] h = tt
Below-take m (suc n) (x ∷ xs) h = (h.0, Below-take m n xs h.1)

Below-drop : (m : ℤ) (n : ℕ) (xs : List Client) → Below m xs → Below m (drop n xs)
Below-drop m zero xs h = h
Below-drop m (suc n) [] h = tt
Below-drop m (suc n) (x ∷ xs) h = Below-drop m n xs h.1

max_grows : (m s : ℤ) → m ≤ℤ (if ltb_ℤ m s then s else m)
max_grows m s = ground arith

max_covers : (m s : ℤ) → s ≤ℤ (if ltb_ℤ m s then s else m)
max_covers m s = ground arith

-- The array has at most as many clients as entries.
abbrev pub Fits : Network → Type 0
Fits net = length net.clients ≤ nb_clients_max

grown-IsWatched : (net : Network) (c : Client) → IsWatched net → IsWatched (grown net c)
grown-IsWatched net c w =
    let m = if ltb_ℤ net.max c.sock then c.sock else net.max in
    let le = max_grows net.max c.sock in
    (
      omega (arith, le),
      Below-snoc m net.clients c (Below-mono net.max m net.clients le w.1)
          (max_covers net.max c.sock),
    )

pub add_client-IsWatched :
    (net net' : Network) (c : Client)
    → IsWatched net
    → add_client net c ≡ ok net'
    → IsWatched net' × Fits net'
add_client-IsWatched net net' c w e =
    let (room, same) = add_client-eq-ok net net' c e in
    rw same (grown-IsWatched net c w, omega (arith, length-append net.clients (c ∷ [])))

pub remove_at-IsWatched :
    (net : Network) (o : Option ℕ)
    → IsWatched net
    → Fits net
    → IsWatched (remove_at o net) × Fits (remove_at o net)
unfolding remove_at
remove_at-IsWatched net none w f = (w, f)
remove_at-IsWatched net (some i) w f = (
  (
    w.0,
    Below-append net.max (take i net.clients) (drop (i + 1) net.clients)
        (Below-take net.max i net.clients w.1) (Below-drop net.max (i + 1) net.clients w.1),
  ),
  omega (
    arith,
    length-append (take i net.clients) (drop (i + 1) net.clients),
    length-take i net.clients,
    length-drop (i + 1) net.clients,
  ),
)

-- What net.c does to the network object, in any order: incoming and outgoing connections,
-- disconnections and the end.
pub data Step (net : Network) : Network → Type 0 where
  accepted : (c : Client) {net' : Network} → add_client net c ≡ ok net' → Step net net'
  connected :
      (os : Os) (address : Str) (port : ℕ) (id : Str) {net' : Network} {r : Option ℕ}
      → network_connect os net address port id ≡ ok (net', r)
      → Step net net'
  disconnected : (c : Client) → Step net (network_disconnect net c).0
  closed : Step net (network_close net).0

pub data Reach (server : ℤ) : Network → Type 0 where
  start : Reach server (opened_on server)
  next : {net net' : Network} → Reach server net → Step net net' → Reach server net'

connect-IsWatched :
    (os : Os) (net : Network) (address : Str) (port : ℕ) (id : Str) {net' : Network} {r : Option ℕ}
    → IsWatched net × Fits net
    → network_connect os net address port id ≡ ok (net', r)
    → IsWatched net' × Fits net'
unfolding network_connect
connect-IsWatched os net address port id {net'} w e =
    let sock = init_client_connection os address port in
    elim (Bool-cases (sock ==ℤ connection_error)) [
      | inl fails ↦ let same : net ≡ net' = cc (rw fails at e) in rw (← same) w
      | inr works ↦
          let c : Client = record { sock = sock; id = id } in
          let (net₁, added, f) = bind-eq-ok (add_client net c) _ (rw works at e) in
          let same : net₁ ≡ net' = cc f in rw (← same) (add_client-IsWatched net net₁ c w.0 added)
    ]

pub Step-IsWatched :
    {net net' : Network} → Step net net' → IsWatched net × Fits net → IsWatched net' × Fits net'
unfolding network_disconnect network_close remove_client
Step-IsWatched {net} (accepted c {net'} e) w = add_client-IsWatched net net' c w.0 e
Step-IsWatched {net} (connected os address port id e) w =
    connect-IsWatched os net address port id w e
Step-IsWatched {net} (disconnected c) w = remove_at-IsWatched net (get_client_id net c) w.0 w.1
Step-IsWatched closed w = w

open-IsWatched : (server : ℤ) → IsWatched (opened_on server) × Fits (opened_on server)
unfolding opened_on
open-IsWatched server = omega arith

-- Whatever connections and disconnections have happened since `network__open`, `max` is at least
-- the server's socket and every client's, and the array holds 100 clients at most.
pub Reach-IsWatched : (server : ℤ) {net : Network} → Reach server net → IsWatched net × Fits net
Reach-IsWatched server start = open-IsWatched server
Reach-IsWatched server (next r s) = Step-IsWatched s (Reach-IsWatched server r)
