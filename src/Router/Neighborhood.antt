-- ===== src/Router/Neighborhood.antt =====
-- router/router.cpp: `Router::parseNeighborhood`, what a router does with the list of its neighbours
-- that the controller sends.
pub mod Left
pub mod Items
pub mod Listing
pub mod Polled
use re203_projet_reseau.Prelude.{
  ℕ, ◌+◌, ◌-◌, ◌%◌, ◌^◌, Bool, true, false, not, ◌&&◌, ◌||◌, List, [], ◌∷◌, ◌++◌, none, some, Str,
  Pointer, codes, str_eq, if◌then◌else◌, ℤ, pos_part, neg_part, Outcome, ok, fault, dangling, deref,
  ◌>>=◌,
}
use re203_projet_reseau.Libc.Tokens.{strtok}
use re203_projet_reseau.Messages.Reader.{atoi_pointer}
use re203_projet_reseau.Net.Sockets.{Os}
use re203_projet_reseau.Net.Network.{network_connect}
use re203_projet_reseau.Net.Update.{World}
use re203_projet_reseau.Router.Table.{
  ClientPointer, Entry, RouteTable, new_entry, assigned, find, put, modify,
}
use re203_projet_reseau.Router.State.{Router, with_table, name_client}
use re203_projet_reseau.Router.SockActions.{link}
use re203_projet_reseau.Router.Vector.{strip_brackets, split}

-- An `int` as an `unsigned int`.
abbrev pub to_unsigned : ℤ → ℕ
to_unsigned z = (pos_part z + (2 ^ 32 - neg_part z)) % 2 ^ 32

-- `strtok (strtok (NULL, ","), ":")`: a NULL makes the outer call go on where the inner one stopped.
unfoldable pub address_token : Str → Pointer × Str
address_token s = elim (strtok (codes ",") s).0 [
  | none ↦ strtok (codes ":") (strtok (codes ",") s).1
  | some field ↦ strtok (codes ":") field
]

-- The entry of a neighbour that the router has connected to.
unfoldable pub linked : ClientPointer → Entry → Entry
linked c e = record e { client = c; is_neighbor = true; is_complete = true }

-- `isNeighbor` and `isComplete` of an entry that a `link` has made
unfoldable pub completed : ℤ → Entry → Entry
completed dist e = record e { dist = dist; is_neighbor = true; is_complete = true }

unfoldable pub is_member : Str → List Str → Bool
is_member s [] = false
is_member s (n ∷ names) = str_eq s n || is_member s names

-- An entry that the last loop erases: a neighbour that is no longer in the list, or a route through one.
unfoldable pub is_gone : List Str → Str → Entry → Bool
is_gone names k e =
    (not (is_member k names) && e.is_neighbor)
    || (not (is_member e.next_hop names) && not e.is_neighbor)

-- The loop goes on from the iterator that it has erased.
unfoldable pub drop_gone : List Str → RouteTable → Outcome RouteTable
drop_gone names [] = ok []
drop_gone names ((k, e) ∷ t) =
    if is_gone names k e then fault dangling else do rest ← drop_gone names t; ok ((k, e) ∷ rest)

module _ (os : Os) (stack_id : Str) where
  -- `network__connect`, the new client's name, and the `link` to it.
  unfoldable pub connect_neighbor : World Router → Str → Str → ℤ → Outcome (World Router)
  connect_neighbor w s ip port = do
    r ← network_connect os w.network ip (to_unsigned port) stack_id
    i ← deref r.1
    let c = ClientPointer.in_array i
    w1 ← name_client (record w { network = r.0 }) c s
    link os (with_table w1 (modify s (linked c) w1.state.table)) c

  -- A neighbour that the table does not have; `rest` is what follows its name.
  unfoldable pub add_neighbor : World Router → Str → Str → Outcome (World Router)
  add_neighbor w s rest = do
    let weight = strtok (codes ",") rest
    dist ← atoi_pointer weight.0
    let ip = address_token weight.1
    port ← atoi_pointer (strtok (codes ":") ip.1).0
    address ← deref ip.0
    connect_neighbor (with_table w (put s (assigned (new_entry s s dist)) w.state.table)) s address
        port

  unfoldable pub update_neighbor : World Router → Str → Str → Entry → Outcome (World Router)
  update_neighbor w s rest e = do
    dist ← atoi_pointer (strtok (codes ",") rest).0
    ok (
        with_table w (
          put s (if e.is_complete then record e { dist = dist } else completed dist e)
            w.state.table))

  unfoldable pub place_neighbor : World Router → Str → Str → Outcome (World Router)
  place_neighbor w s rest = if str_eq s w.state.name then ok w else elim (find s w.state.table) [
    | none ↦ add_neighbor w s rest
    | some e ↦ update_neighbor w s rest e
  ]

  -- The loop over the groups `id,weight,ip:port`, and the names in them.
  unfoldable pub parse_neighbors :
      World Router → List Str → List Str → Outcome (World Router × List Str)
  parse_neighbors w names [] = ok (w, names)
  parse_neighbors w names (group ∷ groups) = do
    let first = strtok (codes ",") group
    s ← deref first.0
    w1 ← place_neighbor w s first.1
    parse_neighbors w1 (names ++ s ∷ []) groups

  unfoldable pub parse_list : World Router → Str → Outcome (World Router)
  parse_list w str = do
    r ← parse_neighbors w [] (split str)
    t ← drop_gone r.1 r.0.state.table
    ok (with_table r.0 t)

  -- The empty list clears the table.
  unfoldable pub parse_stripped : World Router → Str → Outcome (World Router)
  parse_stripped w [] = ok (with_table w [])
  parse_stripped w (c ∷ str) = parse_list w (c ∷ str)

  unfoldable pub parse_neighborhood : World Router → Pointer → Outcome (World Router)
  parse_neighborhood w str_orig = do
    s ← deref str_orig
    str ← strip_brackets s
    parse_stripped w str
