-- ===== src/Router/Neighborhood/Listing.antt =====
-- The list of neighbours that the controller prints (controller/exec.c) as `Router::parseNeighborhood`
-- (router/router.cpp) reads it.
use mathlib.Core.List.{append_assoc}
use mathlib.Core.List.{append-nil}
use re203_projet_reseau.Router.Neighborhood.{parse_stripped}
use re203_projet_reseau.Prelude.{Pointer, deref}
use re203_projet_reseau.Router.Neighborhood.Left.{
  AllLeft, drop_gone-AllLeft, AllLeft-find, AllLeft-put,
}
use re203_projet_reseau.Prelude.{
  ℕ, ◌≡◌, refl, sym, ap, ◌∙◌, true, false, List, [], ◌∷◌, ◌++◌, map, Option, some, none, Str, codes,
  str_eq, str_eq_iff, arith, ℤ, Bool-cases, inl, inr, ok, Outcome, ◌>>=◌, if◌then◌else◌,
}
use re203_projet_reseau.Libc.Decimal.{IsInt, show_int}
use re203_projet_reseau.Libc.Decimal.RoundTrip.{atoi-show_int, show_int-IsField}
use re203_projet_reseau.Libc.Tokens.Separated.{IsField, strtok-field}
use re203_projet_reseau.Messages.Reader.{atoi_pointer}
use re203_projet_reseau.Net.Sockets.{Os}
use re203_projet_reseau.Net.Update.{World}
use re203_projet_reseau.Controller.Sock.Poll.{listing}
use re203_projet_reseau.Router.Table.{Entry, RouteTable, find, put}
use re203_projet_reseau.Router.Table.Laws.{find-put}
use re203_projet_reseau.Router.State.{Router, with_table}
use re203_projet_reseau.Router.Vector.{strip_brackets, split}
use re203_projet_reseau.Router.Vector.Text.{tails, joined, strip_brackets-between, split-joined}
use re203_projet_reseau.Router.Neighborhood.{
  drop_gone, update_neighbor, place_neighbor, parse_neighbors, parse_list, parse_neighborhood,
}
use re203_projet_reseau.Router.Neighborhood.Items.{
  Listed, text_of, AreReadable, listing-joined, item-IsField, items-AreFields, strtok-item,
}

module _ (os : Os) (stack_id : Str) where
  -- A neighbour that the table has, complete, gets the weight of the list.
  place_neighbor-known :
      (w : World Router) (l : Listed) (rest : Str) (e : Entry)
      → IsInt l.weight
      → str_eq l.name w.state.name ≡ false
      → find l.name w.state.table ≡ some e
      → e.is_complete ≡ true
      → place_neighbor os stack_id w l.name (show_int l.weight ++ b',' ∷ rest)
        ≡ ok (with_table w (put l.name (record e { dist = l.weight }) w.state.table))
  unfolding place_neighbor update_neighbor atoi_pointer
  place_neighbor-known w l rest e i o f c = ground (
    arith,
    strtok-field b',' (show_int l.weight) rest (show_int-IsField b',' l.weight refl (ground arith)),
    atoi-show_int l.weight i,
  )

-- Every item is a neighbour that the table has, complete; the router itself is not in the list.
abbrev pub AreKnown : Str → RouteTable → List Listed → Type 0
AreKnown own t [] = Unit
AreKnown own t (l ∷ ls) =
    ((str_eq l.name own ≡ false)
      × ((e : Entry) × (find l.name t ≡ some e) × (e.is_complete ≡ true)))
    × AreKnown own t ls

-- The weight that the list has for a node: the last one.
abbrev pub weight_of : Str → List Listed → Option ℤ
weight_of k [] = none
weight_of k (l ∷ ls) = elim (weight_of k ls) [
  | some z ↦ some z
  | none ↦ if str_eq l.name k then some l.weight else none
]

-- The entry with the weight of the list.
abbrev pub reweighed : Option ℤ → Option Entry → Option Entry
reweighed none o = o
reweighed (some z) none = none
reweighed (some z) (some e) = some (record e { dist = z })

AreKnown-put :
    (ls : List Listed) (own : Str) (t : RouteTable) (k : Str) (e : Entry)
    → e.is_complete ≡ true
    → AreKnown own t ls
    → AreKnown own (put k e t) ls
AreKnown-put [] own t k e c h = tt
AreKnown-put (l ∷ ls) own t k e c h = elim (Bool-cases (str_eq k l.name)) [
  | inl same ↦
      ((h.0.0, (e, rw (find-put t l.name k e, same) refl, c)), AreKnown-put ls own t k e c h.1)
  | inr other ↦ (
    (h.0.0, (h.0.1.0, rw (find-put t l.name k e, other) h.0.1.1, h.0.1.2)),
    AreKnown-put ls own t k e c h.1,
  )
]

-- What the loop over the items leaves of the table: the weights are those of the list.
abbrev pub Reweighs : RouteTable → List Listed → RouteTable → Type 0
Reweighs t ls t' = (k : Str) → find k t' ≡ reweighed (weight_of k ls) (find k t)

Reweighs-cons :
    (t t' : RouteTable) (l : Listed) (ls : List Listed) (e : Entry)
    → find l.name t ≡ some e
    → Reweighs (put l.name (record e { dist = l.weight }) t) ls t'
    → Reweighs t (l ∷ ls) t'
Reweighs-cons t t' l ls e f r k =
    ground (arith, r k, find-put t k l.name (record e { dist = l.weight }), str_eq_iff l.name k)

module _ (os : Os) (stack_id : Str) where
  parse_neighbors-known :
      (ls : List Listed) (w : World Router) (names : List Str)
      → AreReadable ls
      → AreKnown w.state.name w.state.table ls
      → (t' : RouteTable) × (parse_neighbors os stack_id w names (map text_of ls)
          ≡ ok (with_table w t', names ++ map (λ (l : Listed). l.name) ls))
        × Reweighs w.state.table ls t'
        × ((others : List Str) → AllLeft others w.state.table → AllLeft others t')
  unfolding parse_neighbors
  parse_neighbors-known [] w names h k =
      (w.state.table, ap (λ ns. ok (w, ns)) (sym (append-nil names)), λ k1. refl, λ others a. a)
  parse_neighbors-known (l ∷ ls) w names h k =
      let e : Entry = k.0.1.0 in
      let known = record e { dist = l.weight } in
      let t1 = put l.name known w.state.table in
      let (t', r, same, left) =
        parse_neighbors-known ls (with_table w t1) (names ++ l.name ∷ []) h.1
          (AreKnown-put ls w.state.name w.state.table l.name known k.0.1.2 k.1) in
      let rest = l.address ++ (codes ":" ++ show_int l.port) in
      (
        t',
        ap
              (λ (p : Pointer × Str). deref p.0 >>= λ s.
                place_neighbor os stack_id w s p.1 >>= λ w1.
                parse_neighbors os stack_id w1 (names ++ s ∷ []) (map text_of ls))
              (strtok-item l h.0.0)
            ∙ ap
                (λ o. o >>= λ w1.
                  parse_neighbors os stack_id w1 (names ++ l.name ∷ []) (map text_of ls))
                (place_neighbor-known os stack_id w l rest e h.0.1 k.0.0 k.0.1.1 k.0.1.2)
            ∙ r
            ∙ ap (λ ns. ok (with_table w t', ns))
                (append_assoc names (l.name ∷ []) (map (λ (x : Listed). x.name) ls)),
        Reweighs-cons w.state.table t' l ls e k.0.1.1 same,
        λ others a. left others (
            AllLeft-put w.state.table others l.name known a
              (AllLeft-find w.state.table others l.name e a k.0.1.1)),
      )

  parse_list-loop :
      (w : World Router) (s : Str) (t' : RouteTable) (names : List Str)
      → parse_neighbors os stack_id w [] (split s) ≡ ok (with_table w t', names)
      → parse_list os stack_id w s ≡ (drop_gone names t' >>= λ t. ok (with_table w t))
  unfolding parse_list
  parse_list-loop w s t' names e =
      ap
        (λ (o : Outcome (World Router × List Str)).
          o >>= λ r. drop_gone r.1 r.0.state.table >>= λ t. ok (with_table r.0 t))
        e

  parse_stripped-field :
      (w : World Router) (d : ℕ) (x rest : Str)
      → IsField d x
      → parse_stripped os stack_id w (x ++ rest) ≡ parse_list os stack_id w (x ++ rest)
  unfolding parse_stripped
  parse_stripped-field w d [] rest h = absurd h
  parse_stripped-field w d (c ∷ x) rest h = refl

  parse_neighborhood-text :
      (w : World Router) (l : Listed) (ls : List Listed)
      → AreReadable (l ∷ ls)
      → parse_neighborhood os stack_id w (some (listing (map text_of (l ∷ ls))))
        ≡ parse_list os stack_id w (joined (map text_of (l ∷ ls)))
  unfolding parse_neighborhood
  parse_neighborhood-text w l ls h =
      ap (λ s. strip_brackets s >>= parse_stripped os stack_id w)
        (listing-joined (text_of l) (map text_of ls))
      ∙ ap (λ o. o >>= parse_stripped os stack_id w)
          (strip_brackets-between (joined (map text_of (l ∷ ls))))
      ∙ parse_stripped-field w b';' (text_of l) (tails (map text_of ls))
          (item-IsField l h.0.0 h.0.2)

  -- When a router reads the list of neighbours in the form that the controller prints, and its
  -- table has all of them, completely, and no other neighbour and no route through one,
  -- parseNeighborhood succeeds and changes exactly the distances of the listed neighbours, which
  -- are the weights of the list. The names must hold neither a comma nor a semicolon, the addresses
  -- no semicolon, and the weights be ints.
  pub parse_neighborhood-listing :
      (w : World Router) (l : Listed) (ls : List Listed)
      → AreReadable (l ∷ ls)
      → AreKnown w.state.name w.state.table (l ∷ ls)
      → AllLeft (map (λ (x : Listed). x.name) (l ∷ ls)) w.state.table
      → (t' : RouteTable) × (parse_neighborhood os stack_id w
            (some (listing (map text_of (l ∷ ls))))
          ≡ ok (with_table w t'))
        × Reweighs w.state.table (l ∷ ls) t'
  parse_neighborhood-listing w l ls h k a =
      let (t', r, same, left) = parse_neighbors-known (l ∷ ls) w [] h k in
      let text = split-joined (map text_of (l ∷ ls)) (items-AreFields (l ∷ ls) h) in
      (
        t',
        parse_neighborhood-text w l ls h
            ∙ parse_list-loop w (joined (map text_of (l ∷ ls))) t'
                (map (λ (x : Listed). x.name) (l ∷ ls)) (rw text r)
            ∙ rw (drop_gone-AllLeft t' (map (λ (x : Listed). x.name) (l ∷ ls)) (left _ a)) refl,
        same,
      )
