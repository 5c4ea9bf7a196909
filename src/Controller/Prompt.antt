-- ===== src/Controller/Prompt.antt =====
-- controller/exec.c: `exec__prompt_message`, what the controller does with a command of its user.
-- What it prints is not modelled.
pub mod Edges
use re203_projet_reseau.Prelude.{
  null_pointer, fault, ◌++◌, ℕ, zero, suc, false, List, [], ◌∷◌, Option, none, some, Str, Pointer,
  length, str_eq, if◌then◌else◌, ℤ, pos, negsuc, Outcome, ok, deref, ◌>>=◌,
}
use re203_projet_reseau.Messages.Escape.{unescape}
use re203_projet_reseau.Messages.Types.{MessageType, Message, get_weight}
use re203_projet_reseau.Net.Sockets.{Effect}
use re203_projet_reseau.Net.Network.{Network, network_close}
use re203_projet_reseau.Controller.Graph.{
  Edge, Library, Marks, store, set_up_to_date, node_named, graph_add_edge, graph_set_weight,
  graph_remove_edge,
}
use re203_projet_reseau.Controller.Sock.{Controller}

-- `GRAPH__UNLOADED_ERROR`, which is also the result of a `load` that fails, and `QUIT_SIGNAL`.
abbrev pub unloaded_error : ℤ
unloaded_error = negsuc 0

abbrev pub quit_signal : ℤ
quit_signal = pos 1

-- `if (e->head != n1) … else …`
unfoldable pub far_end : Str → Edge → Str
unfolding str_eq
far_end n e = if str_eq e.head n then e.tail else e.head

-- The controller, the network and the calls that a command makes.
pub record Console (T H : Type 0) : Type 0 where
  pub controller : Controller T H
  pub network : Network
  pub calls : List Effect

module _ {T : Type 0} (lib : Library T) where
  -- The loop over the nodes of a new graph.
  unfoldable pub reset_marks : List Str → Marks → Marks
  reset_marks [] k = k
  reset_marks (n ∷ nodes) k = reset_marks nodes (record {
    is_connected = store k.is_connected n false;
    is_up_to_date = store k.is_up_to_date n false;
  })

  -- The loop of `DISCONNECT`, which deletes the first edge until there is none, on fuel.
  unfoldable pub disconnect_node : ℕ → T → Str → Marks → T × Marks
  disconnect_node zero g n k = (g, k)
  disconnect_node (suc fuel) g n k = elim (lib.edges g n) [
    | [] ↦ (g, k)
    | e ∷ _ ↦ disconnect_node fuel (lib.delete_edge g e) n (set_up_to_date (far_end n e) false k)
  ]

  -- `agfindnode` reads the name that it is given.
  unfoldable pub name_of : T → Pointer → Outcome (Option Str)
  name_of g none = fault null_pointer
  name_of g (some id) = ok (node_named lib g id)

  -- `agfindedge` between the nodes that the message names.
  unfoldable pub named_edge : T → Message → Outcome (Option Edge)
  named_edge g m = do n1 ← name_of g m.node1; n2 ← name_of g m.node2; ok (lib.find_edge g n1 n2)

  -- Every case gives the graph and the marks that it leaves.
  unfoldable pub new_link : T → Marks → Message → Outcome (T × Marks)
  new_link g k m = do
    p1 ← name_of g m.node1
    p2 ← name_of g m.node2
    n1 ← deref p1
    n2 ← deref p2
    g' ← graph_add_edge lib g n1 n2 (get_weight (some m))
    ok (g', set_up_to_date n2 false (set_up_to_date n1 false k))

  unfoldable pub add_link : T → Marks → Message → Outcome (T × Marks)
  add_link g k m = named_edge g m >>= λ o. elim o [ some e ↦ ok (g, k) | none ↦ new_link g k m ]

  unfoldable pub update_link : T → Marks → Message → Outcome (T × Marks)
  update_link g k m = named_edge g m >>= λ o. elim o [
    | none ↦ ok (g, k)
    | some e ↦ graph_set_weight lib g k e (get_weight (some m))
  ]

  unfoldable pub delete_link : T → Marks → Message → Outcome (T × Marks)
  delete_link g k m = named_edge g m >>= λ o. elim o [
    | none ↦ ok (g, k)
    | some e ↦ ok (graph_remove_edge lib g k e)
  ]

  unfoldable pub disconnect : T → Marks → Message → Outcome (T × Marks)
  disconnect g k m = name_of g m.node1 >>= λ o. elim o [
    | none ↦ ok (g, k)
    | some n ↦ ok (disconnect_node (length (lib.edges g n)) g n (set_up_to_date n false k))
  ]

  -- The cases that change a graph that is loaded; the others leave it as it is.
  unfoldable pub edit : MessageType → T → Marks → Message → Outcome (T × Marks)
  edit MessageType.addlink g k m = add_link g k m
  edit MessageType.updatelink g k m = update_link g k m
  edit MessageType.dellink g k m = delete_link g k m
  edit MessageType.disconnect g k m = disconnect g k m
  edit _ g k m = ok (g, k)

module _ {T H : Type 0} (lib : Library T) where
  -- `CHECK_GRAPH`, then the case.
  unfoldable pub on_graph : Console T H → Message → Option T → Outcome (Console T H × ℤ)
  on_graph s m none = ok (s, unloaded_error)
  on_graph s m (some g) = do
    r ← edit lib m.type g s.controller.marks m
    ok (record s { controller = record s.controller { graph = some r.0; marks = r.1 } }, pos 0)

  -- The graph that fails to load replaces the old one, too.
  unfoldable pub load_graph : Console T H → Option T → Console T H × ℤ
  load_graph s none =
      (record s { controller = record s.controller { graph = none } }, unloaded_error)
  load_graph s (some g) = (
    record s {
      controller = record s.controller {
        graph = some g;
        marks = reset_marks lib (lib.nodes g) s.controller.marks;
      };
    },
    pos 0,
  )

  unfoldable pub quit : Console T H → Console T H × ℤ
  quit s = (
    record s {
      network = (network_close s.network).0;
      calls = s.calls ++ (network_close s.network).1;
    },
    quit_signal,
  )

  unfoldable pub command : MessageType → Console T H → Message → Outcome (Console T H × ℤ)
  command MessageType.load s m = ok (load_graph s (lib.open_file (unescape m.s_parameter)))
  command MessageType.save s m = on_graph s m s.controller.graph
  command MessageType.show s m = on_graph s m s.controller.graph
  command MessageType.addlink s m = on_graph s m s.controller.graph
  command MessageType.updatelink s m = on_graph s m s.controller.graph
  command MessageType.dellink s m = on_graph s m s.controller.graph
  command MessageType.disconnect s m = on_graph s m s.controller.graph
  command MessageType.quit s m = ok (quit s)
  command _ s m = ok (s, pos 0)

  -- `exec__prompt_message`
  unfoldable pub prompt_message : Console T H → Option Message → Outcome (Console T H × ℤ)
  prompt_message s none = ok (s, pos 0)
  prompt_message s (some m) = command m.type s m
