-- ===== src/Controller/Sock/Logout.antt =====
-- The case `LOGOUT` of `exec__sock_message` (controller/exec.c).
use re203_projet_reseau.Prelude.{
  ◌≡◌, refl, true, false, not, ◌&&◌, Option, some, Str, str_eq, Outcome, ok, fault, null_pointer,
  deref, ◌>>=◌, ap, ◌∙◌, arith,
}
use re203_projet_reseau.Messages.Types.{MessageType, Message}
use re203_projet_reseau.Controller.Graph.{Library, set_connected, node_named}
use re203_projet_reseau.Controller.Table.{HashTable, table_delete_info}
use re203_projet_reseau.Controller.Sock.{
  Controller, stale_neighbours, log_out, execute, sock_message,
}
use re203_projet_reseau.Controller.Sock.Login.{
  is_neighbour, stale_neighbours-up_to_date, stale_neighbours-connected,
}
use re203_projet_reseau.Controller.Sock.Steps.{sock_message-execute}

module _ {T H : Type 0} (lib : Library T) (hash : HashTable H) where
  -- The case, for what `node1` points to.
  abbrev log_out_named :
      T → Controller T H → Message → Option Str → Outcome (Controller T H × Message)
  log_out_named g w m p = do
    id ← deref p
    n ← deref (node_named lib g id)
    ok (
      record w {
        marks = stale_neighbours n (lib.edges g n) (set_connected n false w.marks);
        table = table_delete_info hash w.table id;
      },
      record m { type = MessageType.bye },
    )

  log_out-named :
      (w : Controller T H) (g : T) (m : Message) (n : Str)
      → m.node1 ≡ some n
      → log_out lib hash g w m ≡ log_out_named g w m (some n)
  unfolding log_out
  log_out-named w g m n en = ap (log_out_named g w m) en

  log_out-known :
      (w : Controller T H) (g : T) (m : Message) (n : Str)
      → m.node1 ≡ some n
      → lib.find_node g n ≡ true
      → log_out lib hash g w m
        ≡ ok (
          record w {
            marks = stale_neighbours n (lib.edges g n) (set_connected n false w.marks);
            table = table_delete_info hash w.table n;
          },
          record m { type = MessageType.bye },
        )
  unfolding node_named
  log_out-known w g m n en found = log_out-named w g m n en ∙ rw (node_named, found) refl

  log_out-unknown :
      (w : Controller T H) (g : T) (m : Message) (n : Str)
      → m.node1 ≡ some n
      → lib.find_node g n ≡ false
      → log_out lib hash g w m ≡ fault null_pointer
  unfolding node_named
  log_out-unknown w g m n en missing = log_out-named w g m n en ∙ rw (node_named, missing) refl

  -- Once a topology is loaded, a logout of a node of the topology is answered with `bye`. The node is not connected from then
  -- on and no other changes in that; its entry leaves the table; exactly the nodes at the other ends
  -- of its edges lose the mark of being up to date.
  pub sock_message-logout :
      (w : Controller T H) (g : T) (m : Message) (n : Str)
      → w.graph ≡ some g
      → m.type ≡ MessageType.logout
      → m.node1 ≡ some n
      → lib.find_node g n ≡ true
      → (w' : Controller T H) × (sock_message lib hash w (some m)
          ≡ ok (w', some (record m { type = MessageType.bye })))
        × ((x : Str) → w'.marks.is_connected x ≡ (w.marks.is_connected x && not (str_eq x n)))
        × ((x : Str)
            → w'.marks.is_up_to_date x
              ≡ (w.marks.is_up_to_date x && not (is_neighbour n (lib.edges g n) x)))
        × (w'.table ≡ table_delete_info hash w.table n)
  unfolding execute
  sock_message-logout w g m n eg et en found = (
    record w {
      marks = stale_neighbours n (lib.edges g n) (set_connected n false w.marks);
      table = table_delete_info hash w.table n;
    },
    sock_message-execute lib hash w g m MessageType.logout eg et
        ∙ ap (λ o. o >>= λ r. ok (r.0, some r.1)) (log_out-known w g m n en found),
    λ x.
        rw (stale_neighbours-connected n (lib.edges g n) (set_connected n false w.marks))
          (ground arith),
    λ x. stale_neighbours-up_to_date n (lib.edges g n) (set_connected n false w.marks) x,
    refl,
  )

  -- Once a topology is loaded, a logout under a name that the topology does not have reads a NULL node.
  pub sock_message-logout_unknown :
      (w : Controller T H) (g : T) (m : Message) (n : Str)
      → w.graph ≡ some g
      → m.type ≡ MessageType.logout
      → m.node1 ≡ some n
      → lib.find_node g n ≡ false
      → sock_message lib hash w (some m) ≡ fault null_pointer
  unfolding execute
  sock_message-logout_unknown w g m n eg et en missing =
      sock_message-execute lib hash w g m MessageType.logout eg et
      ∙ ap (λ o. o >>= λ r. ok (r.0, some r.1)) (log_out-unknown w g m n en missing)
