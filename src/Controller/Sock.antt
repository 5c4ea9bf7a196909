-- ===== src/Controller/Sock.antt =====
-- controller/exec.c: `exec__sock_message`, what the controller does with a router's message.
pub mod Answer
pub mod Login
pub mod Logout
pub mod Poll
pub mod Steps
use re203_projet_reseau.Prelude.{
  ◌-◌, true, false, not, List, [], ◌∷◌, ◌++◌, Option, none, some, Str, Pointer, codes, length,
  get_or, take, ◌==◌, if◌then◌else◌, Outcome, ok, deref, ◌>>=◌,
}
use re203_projet_reseau.Libc.Decimal.{show_int}
use re203_projet_reseau.Messages.Types.{Acceptance, MessageType, Message}
use re203_projet_reseau.Messages.Print.{write_buffer}
use re203_projet_reseau.Controller.Graph.{
  Edge, Library, Marks, set_connected, set_up_to_date, neighbour, node_named, graph_get_weight,
}
use re203_projet_reseau.Controller.Table.{
  HashTable, table_add_info, table_delete_info, table_get_info,
}

-- `graph`, the nodes' marks, and the table.
pub record Controller (T H : Type 0) : Type 0 where
  pub graph : Option T
  pub marks : Marks
  pub table : H

-- The loop over the nodes that are connected: the first one that is not.
unfoldable pub first_free : Marks → List Str → Option Str
first_free k [] = none
first_free k (n ∷ nodes) =
    let rest = first_free k nodes in if k.is_connected n then rest else some n

-- The loop over the edges of a node that sets `n2->u.is_up_to_date = 0`.
unfoldable pub stale_neighbours : Str → List Edge → Marks → Marks
unfolding neighbour
stale_neighbours n [] k = k
stale_neighbours n (e ∷ edges) k = stale_neighbours n edges (set_up_to_date (neighbour n e) false k)

-- `strcat` to the 1000 bytes of `voisinage`.
unfoldable pub strcat : Str → Str → Outcome Str
strcat voisinage s = write_buffer 1000 (voisinage ++ s)

-- The last byte: `;` turns into `]`, and behind a lone `[` comes a `]`.
unfoldable pub close_list : Str → Outcome Str
close_list voisinage =
    let l = length voisinage - 1 in
    let last = get_or voisinage l 0 in
    if last == b';'
    then ok (take l voisinage ++ b']' ∷ [])
    else if last == b'['
    then strcat voisinage (codes "]")
    else ok voisinage

module _ {T H : Type 0} (lib : Library T) (hash : HashTable H) where
  -- `node1` is free, or else the first node that is.
  unfoldable pub choose_node : T → Marks → Pointer → Option Str
  choose_node g k none = first_free k (lib.nodes g)
  choose_node g k (some id) = elim (node_named lib g id) [
    | none ↦ first_free k (lib.nodes g)
    | some n ↦ if k.is_connected n then first_free k (lib.nodes g) else some n
  ]

  -- The rest of the case `LOGIN`, for the node that is chosen.
  unfoldable pub log_in : T → Controller T H → Message → Option Str → Controller T H × Message
  log_in g w m none = (w, record m { type = MessageType.none; node1 = some [] })
  log_in g w m (some n) = (
    record w {
      table =
          table_add_info hash w.table n (record { address = m.s_parameter; port = m.n_parameter });
      marks =
          set_up_to_date n false
            (set_connected n true (stale_neighbours n (lib.edges g n) w.marks));
    },
    record m { type = MessageType.greeting; node1 = some n },
  )

  -- One neighbour: its name, the weight, and where it listens.
  unfoldable pub add_neighbour : Controller T H → Str → Edge → Str → Outcome Str
  add_neighbour w n e voisinage =
      if not (w.marks.is_connected (neighbour n e)) then ok voisinage else do
        v1 ← strcat voisinage (neighbour n e)
        v2 ← strcat v1 (codes ",")
        weight ← graph_get_weight lib e
        v3 ← strcat v2 (show_int weight ++ codes ",")
        info ← deref (table_get_info hash w.table (neighbour n e))
        address ← deref info.address
        aux ← write_buffer 100 address
        v4 ← strcat v3 aux
        v5 ← strcat v4 (codes ":")
        v6 ← strcat v5 (show_int info.port)
        strcat v6 (codes ";")

  unfoldable pub add_neighbours : Controller T H → Str → List Edge → Str → Outcome Str
  add_neighbours w n [] voisinage = ok voisinage
  add_neighbours w n (e ∷ edges) voisinage =
      add_neighbour w n e voisinage >>= add_neighbours w n edges

  unfoldable pub neighbourhood : T → Controller T H → Str → Outcome Str
  neighbourhood g w n = add_neighbours w n (lib.edges g n) (codes "[") >>= close_list

  -- `neighborhood ok`
  unfoldable pub nothing_new : Message → Message
  nothing_new m = record m { type = MessageType.neighborhood; accept = Acceptance.ok }

  -- The list goes into the message, and the node is up to date.
  unfoldable pub send_list : T → Controller T H → Message → Str → Outcome (Controller T H × Message)
  send_list g w m n = do
    list ← neighbourhood g w n
    ok (
      record w { marks = set_up_to_date n true w.marks },
      record m { type = MessageType.neighborhood; s_parameter = some list },
    )

  -- The case `POLL`.
  unfoldable pub answer_poll : T → Controller T H → Message → Outcome (Controller T H × Message)
  answer_poll g w m = do
    id ← deref m.node1
    elim (node_named lib g id) [
      | none ↦ ok (w, nothing_new m)
      | some n ↦ if w.marks.is_up_to_date n then ok (w, nothing_new m) else send_list g w m n
    ]

  -- The case `LOGOUT`.
  unfoldable pub log_out : T → Controller T H → Message → Outcome (Controller T H × Message)
  log_out g w m = do
    id ← deref m.node1
    n ← deref (node_named lib g id)
    ok (
      record w {
        marks = stale_neighbours n (lib.edges g n) (set_connected n false w.marks);
        table = table_delete_info hash w.table id;
      },
      record m { type = MessageType.bye },
    )

  unfoldable pub execute :
      T → Controller T H → Message → MessageType → Outcome (Controller T H × Message)
  execute g w m MessageType.login = ok (log_in g w m (choose_node g w.marks m.node1))
  execute g w m MessageType.poll = answer_poll g w m
  execute g w m MessageType.logout = log_out g w m
  execute g w m _ = ok (w, m)

  unfoldable pub execute_on :
      Option T → Controller T H → Option Message → Outcome (Controller T H × Option Message)
  execute_on none w m = ok (w, none)
  execute_on (some g) w none = ok (w, none)
  execute_on (some g) w (some m) = do r ← execute g w m m.type; ok (r.0, some r.1)

  -- `exec__sock_message`
  unfoldable pub sock_message :
      Controller T H → Option Message → Outcome (Controller T H × Option Message)
  sock_message w m = execute_on w.graph w m
