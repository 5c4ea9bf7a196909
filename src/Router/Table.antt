-- ===== src/Router/Table.antt =====
-- router/entry.hpp, router/entry.cpp, router/routetable.hpp and router/routetable.cpp: the table of
-- routes. A `std::map` is the list of its pairs in the order of its iterators, by increasing key.
pub mod Laws
use re203_projet_reseau.Prelude.{
  ℕ, Bool, true, false, not, ◌&&◌, ◌||◌, List, [], ◌∷◌, ◌++◌, Option, none, some, Str, str_eq,
  codes, ltb, ◌==◌, if◌then◌else◌, ℤ, pos, negsuc,
}
use re203_projet_reseau.Libc.Decimal.{show_int}

-- A `Client *` of the router: NULL, an entry of the array of the network object, by its index, or the
-- variable `client` of `network__update`, which is gone when that function returns.
pub data ClientPointer : Type 0 where
  null : ClientPointer
  in_array : ℕ → ClientPointer
  local : ClientPointer

pub record Entry : Type 0 where
  pub name : Str
  pub next_hop : Str
  pub dist : ℤ
  pub is_neighbor : Bool
  pub client : ClientPointer
  pub is_complete : Bool
  pub seconds_inactive : ℤ

-- `Entry (name, nextHop, dist)`
unfoldable pub new_entry : Str → Str → ℤ → Entry
new_entry name next_hop dist = record {
  name = name;
  next_hop = next_hop;
  dist = dist;
  is_neighbor = false;
  client = ClientPointer.null;
  is_complete = false;
  seconds_inactive = pos 0;
}

-- `Entry ()`
unfoldable pub default_entry : Entry
unfolding new_entry
default_entry = new_entry [] [] (negsuc 0)

-- What `operator=` leaves in the entry on its left: the flag goes into the counter too.
unfoldable pub assigned : Entry → Entry
assigned e = record e { seconds_inactive = if e.is_complete then pos 1 else pos 0 }

abbrev pub RouteTable : Type 0
RouteTable = List (Str × Entry)

-- `a < b` for two `std::string`s.
unfoldable pub str_ltb : Str → Str → Bool
str_ltb [] [] = false
str_ltb [] (d ∷ b) = true
str_ltb (c ∷ a) [] = false
str_ltb (c ∷ a) (d ∷ b) = ltb c d || ((c == d) && str_ltb a b)

unfoldable pub find : Str → RouteTable → Option Entry
find k [] = none
find k ((j, e) ∷ t) = let rest = find k t in if str_eq j k then some e else rest

-- A write to the value of a key, which is inserted at its place if it is new.
unfoldable pub put : Str → Entry → RouteTable → RouteTable
put k e [] = (k, e) ∷ []
put k e ((j, d) ∷ t) =
    let rest = put k e t in
    if str_eq j k then (k, e) ∷ t else if str_ltb k j then (k, e) ∷ (j, d) ∷ t else (j, d) ∷ rest

-- `t[k]` inserts an entry for a key that is not there.
unfoldable pub at : RouteTable → Str → Entry × RouteTable
at t k = elim (find k t) [ none ↦ (default_entry, put k default_entry t) | some e ↦ (e, t) ]

-- A write to a field of `t[k]`.
unfoldable pub modify : Str → (Entry → Entry) → RouteTable → RouteTable
modify k f t = put k (f (at t k).0) (at t k).1

-- `nextClient`: none where it throws `unknownDest`.
unfoldable pub next_client : RouteTable → Str → Option (ClientPointer × RouteTable)
next_client t k = elim (find k t) [
  | none ↦ none
  | some e ↦ some ((at t e.next_hop).0.client, (at t e.next_hop).1)
]

-- The loop of `vector`: the text so far and whether an entry has been added.
unfoldable pub vector_items : Str → Bool → RouteTable → Str
vector_items client added [] = []
vector_items client added ((k, e) ∷ t) =
    let skipped = vector_items client added t in
    let rest = vector_items client true t in
    if str_eq client k
    then skipped
    else (if added then codes ";" else []) ++ (k ++ (codes "," ++ (show_int e.dist ++ rest)))

-- The text that `vector` builds. What it returns is a pointer into a temporary.
unfoldable pub vector_text : RouteTable → Str → Str
vector_text t client = codes "[" ++ (vector_items client false t ++ codes "]")
