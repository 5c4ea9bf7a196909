-- ===== src/Controller/Prompt/Edges.antt =====
-- The cases `DISCONNECT` and `ADDLINK` of `exec__prompt_message` (controller/exec.c).
use re203_projet_reseau.Prelude.{
  ok, ◌≡◌, refl, Bool, false, not, ◌&&◌, ◌||◌, List, [], ◌∷◌, some, Str, str_eq, length, ◌∙◌, arith,
}
use re203_projet_reseau.Messages.Types.{Message}
use re203_projet_reseau.Controller.Graph.{Edge, Library, Marks, set_up_to_date}
use re203_projet_reseau.Controller.Prompt.{far_end, disconnect_node, disconnect, name_of}

-- What `agdelete` promises: the first edge of a node leaves the others as they are.
abbrev pub DeletesFirst : {T : Type 0} → Library T → Type 0
DeletesFirst {T} lib =
    (g : T) (n : Str) (e : Edge) (edges : List Edge)
    → lib.edges g n ≡ e ∷ edges
    → lib.edges (lib.delete_edge g e) n ≡ edges

-- The name is at the far end of one of the edges.
abbrev pub is_far_end : Str → List Edge → Str → Bool
is_far_end n [] x = false
is_far_end n (e ∷ edges) x = str_eq x (far_end n e) || is_far_end n edges x

module _ {T : Type 0} (lib : Library T) (deletes : DeletesFirst lib) where
  disconnect_node-edges :
      (edges : List Edge) (g : T) (n : Str) (k : Marks)
      → lib.edges g n ≡ edges
      → lib.edges (disconnect_node lib (length edges) g n k).0 n ≡ []
  unfolding disconnect_node
  disconnect_node-edges [] g n k e = e
  disconnect_node-edges (x ∷ edges) g n k e =
      rw (disconnect_node, e)
        (disconnect_node-edges edges (lib.delete_edge g x) n _ (deletes g n x edges e))

  disconnect_node-marks :
      (edges : List Edge) (g : T) (n : Str) (k : Marks) (x : Str)
      → lib.edges g n ≡ edges
      → (disconnect_node lib (length edges) g n k).1.is_up_to_date x
        ≡ (k.is_up_to_date x && not (is_far_end n edges x))
  unfolding disconnect_node
  disconnect_node-marks [] g n k x e = ground arith
  disconnect_node-marks (y ∷ edges) g n k x e =
      rw (disconnect_node, e)
        (disconnect_node-marks edges (lib.delete_edge g y) n _ x (deletes g n y edges e)
          ∙ ground arith)

  -- `disconnect` of a node of the topology ends, and leaves the node without edges: as many rounds
  -- of its loop as the node has edges are enough. Exactly the node and those at the far ends of its
  -- edges lose the mark of being up to date.
  pub disconnect-edges :
      (g : T) (k : Marks) (m : Message) (n : Str)
      → name_of lib g m.node1 ≡ ok (some n)
      → (g' : T) × (k' : Marks) × (disconnect lib g k m ≡ ok (g', k'))
        × (lib.edges g' n ≡ [])
        × ((x : Str)
            → k'.is_up_to_date x
              ≡ (k.is_up_to_date x && not (str_eq x n || is_far_end n (lib.edges g n) x)))
  unfolding disconnect
  disconnect-edges g k m n e =
      let r = disconnect_node lib (length (lib.edges g n)) g n (set_up_to_date n false k) in
      (
        r.0,
        r.1,
        rw (disconnect, e) refl,
        disconnect_node-edges (lib.edges g n) g n (set_up_to_date n false k) refl,
        λ x.
            disconnect_node-marks (lib.edges g n) g n (set_up_to_date n false k) x refl
            ∙ ground arith,
      )
