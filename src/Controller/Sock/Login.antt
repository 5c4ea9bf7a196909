-- ===== src/Controller/Sock/Login.antt =====
-- The case `LOGIN` of `exec__sock_message` (controller/exec.c).
use mathlib.Core.Path.{subst}
use re203_projet_reseau.Controller.Sock.Steps.{sock_message-execute}
use re203_projet_reseau.Prelude.{
  ◌≡◌, refl, Bool, true, false, not, ◌&&◌, ◌||◌, List, [], ◌∷◌, none, some, Str, Pointer, str_eq,
  ok, Bool-cases, inl, inr, ap, ◌∙◌, arith,
}
use re203_projet_reseau.Messages.Types.{MessageType, Message}
use re203_projet_reseau.Controller.Graph.{Edge, Library, Marks, neighbour, node_named}
use re203_projet_reseau.Controller.Table.{HashTable}
use re203_projet_reseau.Controller.Sock.{
  Controller, first_free, stale_neighbours, choose_node, log_in, execute, sock_message,
}

-- The name is at the other end of one of the node's edges.
abbrev pub is_neighbour : Str → List Edge → Str → Bool
is_neighbour n [] x = false
is_neighbour n (e ∷ edges) x = str_eq x (neighbour n e) || is_neighbour n edges x

pub stale_neighbours-up_to_date :
    (n : Str) (edges : List Edge) (k : Marks) (x : Str)
    → (stale_neighbours n edges k).is_up_to_date x
      ≡ (k.is_up_to_date x && not (is_neighbour n edges x))
unfolding stale_neighbours
stale_neighbours-up_to_date n [] k x = ground arith
stale_neighbours-up_to_date n (e ∷ edges) k x =
    stale_neighbours-up_to_date n edges _ x ∙ ground arith

pub stale_neighbours-connected :
    (n : Str) (edges : List Edge) (k : Marks)
    → (stale_neighbours n edges k).is_connected ≡ k.is_connected
unfolding stale_neighbours
stale_neighbours-connected n [] k = refl
stale_neighbours-connected n (e ∷ edges) k = stale_neighbours-connected n edges _

first_free-free :
    (k : Marks) (nodes : List Str) (n : Str)
    → first_free k nodes ≡ some n
    → k.is_connected n ≡ false
unfolding first_free
first_free-free k [] n e = cc
first_free-free k (x ∷ nodes) n e = elim (Bool-cases (k.is_connected x)) [
  | inl taken ↦ first_free-free k nodes n (rw taken at e)
  | inr free ↦
      let same : x ≡ n = cc (rw free at e) in subst (λ y. k.is_connected y ≡ false) same free
]

-- Every node of the list is connected.
abbrev pub AllConnected : Marks → List Str → Type 0
AllConnected k [] = Unit
AllConnected k (n ∷ nodes) = (k.is_connected n ≡ true) × AllConnected k nodes

first_free-none : (k : Marks) (nodes : List Str) → AllConnected k nodes → first_free k nodes ≡ none
unfolding first_free
first_free-none k [] h = refl
first_free-none k (n ∷ nodes) h = rw (h.0, first_free-none k nodes h.1) refl

module _ {T H : Type 0} (lib : Library T) (hash : HashTable H) where
  choose_node-free :
      (g : T) (k : Marks) (p : Pointer) (n : Str)
      → choose_node lib hash g k p ≡ some n
      → k.is_connected n ≡ false
  unfolding choose_node node_named
  choose_node-free g k none n e = first_free-free k (lib.nodes g) n e
  choose_node-free g k (some id) n e = elim (Bool-cases (lib.find_node g id)) [
    | inr missing ↦ first_free-free k (lib.nodes g) n (rw (choose_node, node_named, missing) at e)
    | inl found ↦ elim (Bool-cases (k.is_connected id)) [
      | inl taken ↦
          first_free-free k (lib.nodes g) n (rw (choose_node, node_named, found, taken) at e)
      | inr free ↦
          let same : id ≡ n = cc (rw (choose_node, node_named, found, free) at e) in
          subst (λ y. k.is_connected y ≡ false) same free
    ]
  ]

  choose_node-none :
      (g : T) (k : Marks) (id : Str)
      → AllConnected k (lib.nodes g)
      → (lib.find_node g id && not (k.is_connected id)) ≡ false
      → choose_node lib hash g k (some id) ≡ none
  unfolding choose_node node_named
  choose_node-none g k id full taken = elim (Bool-cases (lib.find_node g id)) [
    | inr missing ↦ rw (choose_node, node_named, missing) (first_free-none k (lib.nodes g) full)
    | inl found ↦
        let used : k.is_connected id ≡ true = ground arith in
        rw (choose_node, node_named, found, used) (first_free-none k (lib.nodes g) full)
  ]

  -- Once a topology is loaded, a login is answered with a greeting to the node that is chosen for it, which no client had
  -- until then. The node is connected from then on and no other changes in that; exactly the node
  -- and those at the other ends of its edges lose the mark of being up to date.
  pub sock_message-login :
      (w : Controller T H) (g : T) (m : Message) (n : Str)
      → w.graph ≡ some g
      → m.type ≡ MessageType.login
      → choose_node lib hash g w.marks m.node1 ≡ some n
      → (w' : Controller T H) × (sock_message lib hash w (some m)
          ≡ ok (w', some (record m { type = MessageType.greeting; node1 = some n })))
        × (w.marks.is_connected n ≡ false)
        × ((x : Str) → w'.marks.is_connected x ≡ (str_eq x n || w.marks.is_connected x))
        × ((x : Str)
            → w'.marks.is_up_to_date x
              ≡ (w.marks.is_up_to_date x && not (str_eq x n || is_neighbour n (lib.edges g n) x)))
  unfolding execute log_in
  sock_message-login w g m n eg et en = (
    (log_in lib hash g w m (some n)).0,
    sock_message-execute lib hash w g m MessageType.login eg et
        ∙ ap (λ o. ok ((log_in lib hash g w m o).0, some (log_in lib hash g w m o).1)) en,
    choose_node-free g w.marks m.node1 n en,
    λ x. rw (stale_neighbours-connected n (lib.edges g n) w.marks) (ground arith),
    λ x. ground (arith, stale_neighbours-up_to_date n (lib.edges g n) w.marks x),
  )

  -- Once a topology is loaded, with no free node, and the node that the router asks for taken or
  -- unknown, the answer is a message of type `NONE` and nothing else changes.
  pub sock_message-login_full :
      (w : Controller T H) (g : T) (m : Message) (id : Str)
      → w.graph ≡ some g
      → m.type ≡ MessageType.login
      → m.node1 ≡ some id
      → AllConnected w.marks (lib.nodes g)
      → (lib.find_node g id && not (w.marks.is_connected id)) ≡ false
      → sock_message lib hash w (some m)
        ≡ ok (w, some (record m { type = MessageType.none; node1 = some [] }))
  unfolding execute log_in
  sock_message-login_full w g m id eg et ei full taken =
      let none_free : choose_node lib hash g w.marks m.node1 ≡ none =
        ap (choose_node lib hash g w.marks) ei ∙ choose_node-none g w.marks id full taken in
      sock_message-execute lib hash w g m MessageType.login eg et
      ∙ ap (λ o. ok ((log_in lib hash g w m o).0, some (log_in lib hash g w m o).1)) none_free
