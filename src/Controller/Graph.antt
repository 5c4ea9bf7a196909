-- ===== src/Controller/Graph.antt =====
-- controller/graphlib.h and controller/graphlib.c: the topology. The graphviz library is a parameter,
-- the record `Library`; a node stands for its name, which is `graph__getId` of it.
use re203_projet_reseau.Prelude.{
  Bool, false, List, Option, none, some, Str, Pointer, str_eq, if◌then◌else◌, ℤ, Outcome, ok, ◌>>=◌,
}
use re203_projet_reseau.Libc.Decimal.{show_int}
use re203_projet_reseau.Messages.Print.{write_buffer}
use re203_projet_reseau.Messages.Reader.{atoi_pointer}

-- An edge: its ends, and what `agget (edge, "label")` answers.
pub record Edge : Type 0 where
  pub tail : Str
  pub head : Str
  pub label : Pointer

-- `agread` of a file that is opened, none for NULL; `agfstnode` and `agnxtnode`; `agfindnode`;
-- `agfstedge` and `agnxtedge`; `agfindedge`, `agedge`, `agset` of the label, `agdelete` of an edge.
pub record Library (T : Type 0) : Type 0 where
  pub open_file : Pointer → Option T
  pub nodes : T → List Str
  pub find_node : T → Str → Bool
  pub edges : T → Str → List Edge
  pub find_edge : T → Option Str → Option Str → Option Edge
  pub new_edge : T → Str → Str → Str → T
  pub set_label : T → Edge → Str → T
  pub delete_edge : T → Edge → T

-- `Agnodeinfo_t` of every node: `is_connected` and `is_up_to_date`.
pub record Marks : Type 0 where
  pub is_connected : Str → Bool
  pub is_up_to_date : Str → Bool

-- A store to one entry of a map.
abbrev pub store : (Str → Bool) → Str → Bool → Str → Bool
store f n b x = if str_eq x n then b else f x

abbrev pub set_connected : Str → Bool → Marks → Marks
set_connected n b k = record k { is_connected = store k.is_connected n b }

abbrev pub set_up_to_date : Str → Bool → Marks → Marks
set_up_to_date n b k = record k { is_up_to_date = store k.is_up_to_date n b }

-- `if (e->tail != n1) n2 = e->tail; else n2 = e->head;`
unfoldable pub neighbour : Str → Edge → Str
unfolding str_eq
neighbour n e = if str_eq e.tail n then e.head else e.tail

-- Both ends are not up to date.
abbrev pub stale_ends : Edge → Marks → Marks
stale_ends e k = set_up_to_date e.tail false (set_up_to_date e.head false k)

module _ {T : Type 0} (lib : Library T) where
  -- `agfindnode` of a name, none for NULL.
  unfoldable pub node_named : T → Str → Option Str
  node_named g n = if lib.find_node g n then some n else none

  -- `graph__getWeight`
  unfoldable pub graph_get_weight : Edge → Outcome ℤ
  graph_get_weight e = atoi_pointer e.label

  -- `graph__addEdge`; the weight is printed to ten bytes.
  unfoldable pub graph_add_edge : T → Str → Str → ℤ → Outcome T
  graph_add_edge g n1 n2 weight = do
    aux ← write_buffer 10 (show_int weight)
    ok (lib.new_edge g n1 n2 aux)

  -- `graph__setWeight`
  unfoldable pub graph_set_weight : T → Marks → Edge → ℤ → Outcome (T × Marks)
  graph_set_weight g k e weight = do
    aux ← write_buffer 10 (show_int weight)
    ok (lib.set_label g e aux, stale_ends e k)

  -- `graph__removeEdge`
  unfoldable pub graph_remove_edge : T → Marks → Edge → T × Marks
  graph_remove_edge g k e = (lib.delete_edge g e, stale_ends e k)
