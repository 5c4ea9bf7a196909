-- ===== src/Controller/Sock/Answer.antt =====
-- What `exec__sock_message` (controller/exec.c) answers to a poll.
use re203_projet_reseau.Prelude.{
  ◌≡◌, ◌<◌, refl, true, false, List, Option, none, some, Str, length, if◌then◌else◌, Outcome, ok,
  deref, ◌>>=◌, ap, ◌∙◌,
}
use re203_projet_reseau.Messages.Types.{Acceptance, MessageType, Message}
use re203_projet_reseau.Controller.Graph.{Library, node_named, set_up_to_date}
use re203_projet_reseau.Controller.Table.{HashTable}
use re203_projet_reseau.Controller.Sock.{
  Controller, nothing_new, send_list, answer_poll, execute, sock_message,
}
use re203_projet_reseau.Controller.Sock.Poll.{Shown, listing, neighbourhood-listing}
use re203_projet_reseau.Controller.Sock.Steps.{sock_message-execute}

module _ {T H : Type 0} (lib : Library T) (hash : HashTable H) where
  -- The case, for what `node1` points to.
  abbrev answer_poll_named :
      T → Controller T H → Message → Option Str → Outcome (Controller T H × Message)
  answer_poll_named g w m p = deref p >>= λ id. elim (node_named lib g id) [
    | none ↦ ok (w, nothing_new lib hash m)
    | some n ↦
        if w.marks.is_up_to_date n
        then ok (w, nothing_new lib hash m)
        else send_list lib hash g w m n
  ]

  node_named-found : (g : T) (n : Str) → lib.find_node g n ≡ true → node_named lib g n ≡ some n
  unfolding node_named
  node_named-found g n found = rw found refl

  answer_poll-named :
      (g : T) (w : Controller T H) (m : Message) (n : Str)
      → m.node1 ≡ some n
      → lib.find_node g n ≡ true
      → answer_poll lib hash g w m ≡ (
          if w.marks.is_up_to_date n
          then ok (w, nothing_new lib hash m)
          else send_list lib hash g w m n)
  unfolding answer_poll
  answer_poll-named g w m n en found =
      ap (answer_poll_named g w m) en
      ∙ ap
          (λ o. elim o [
            | none ↦ ok (w, nothing_new lib hash m)
            | some x ↦
                if w.marks.is_up_to_date x
                then ok (w, nothing_new lib hash m)
                else send_list lib hash g w m x
          ])
          (node_named-found g n found)

  send_list-listing :
      (w : Controller T H) (g : T) (m : Message) (n : Str) (items : List Str)
      → Shown lib hash w n (lib.edges g n) items
      → length (listing items) < 1000
      → send_list lib hash g w m n
        ≡ ok (
          record w { marks = set_up_to_date n true w.marks },
          record m { type = MessageType.neighborhood; s_parameter = some (listing items) },
        )
  unfolding send_list
  send_list-listing w g m n items s fits =
      rw (neighbourhood-listing lib hash g w n items s fits) refl

  sock_message-named :
      (w : Controller T H) (g : T) (m : Message) (n : Str)
      → w.graph ≡ some g
      → m.type ≡ MessageType.poll
      → m.node1 ≡ some n
      → lib.find_node g n ≡ true
      → sock_message lib hash w (some m) ≡ (
          (if w.marks.is_up_to_date n
            then ok (w, nothing_new lib hash m)
            else send_list lib hash g w m n)
          >>= λ r. ok (r.0, some r.1))
  unfolding execute
  sock_message-named w g m n eg et en found =
      sock_message-execute lib hash w g m MessageType.poll eg et
      ∙ ap (λ o. o >>= λ r. ok (r.0, some r.1)) (answer_poll-named g w m n en found)

  -- Once a topology is loaded, a poll of a node of it that is not up to date is answered with the list `[a;b;c]` of its neighbours: an item for
  -- each edge to a connected neighbour, in the order of the edges, and `[]` if there is none. The
  -- node is up to date from then on and nothing else changes. The list must fit the 1000 bytes of
  -- the buffer, the links' labels be numbers and each such neighbour have an entry in the table,
  -- with an address of fewer than 100 bytes.
  pub sock_message-poll :
      (w : Controller T H) (g : T) (m : Message) (n : Str) (items : List Str)
      → w.graph ≡ some g
      → m.type ≡ MessageType.poll
      → m.node1 ≡ some n
      → lib.find_node g n ≡ true
      → w.marks.is_up_to_date n ≡ false
      → Shown lib hash w n (lib.edges g n) items
      → length (listing items) < 1000
      → sock_message lib hash w (some m)
        ≡ ok (
          record w { marks = set_up_to_date n true w.marks },
          some (record m { type = MessageType.neighborhood; s_parameter = some (listing items) }),
        )
  sock_message-poll w g m n items eg et en found stale s fits =
      sock_message-named w g m n eg et en found
      ∙ rw (stale, send_list-listing w g m n items s fits) refl

  -- Once a topology is loaded, a poll of a node of it that is up to date is answered with
  -- `neighborhood ok`, and nothing changes.
  pub sock_message-poll_again :
      (w : Controller T H) (g : T) (m : Message) (n : Str)
      → w.graph ≡ some g
      → m.type ≡ MessageType.poll
      → m.node1 ≡ some n
      → lib.find_node g n ≡ true
      → w.marks.is_up_to_date n ≡ true
      → sock_message lib hash w (some m)
        ≡ ok (w, some (record m { type = MessageType.neighborhood; accept = Acceptance.ok }))
  unfolding nothing_new
  sock_message-poll_again w g m n eg et en found fresh =
      sock_message-named w g m n eg et en found ∙ rw fresh refl
