-- ===== src/Router/Vector.antt =====
-- router/router.cpp: `Router::parseVector`, what a router does with the distances of a neighbour.
pub mod Text
pub mod Fuel
pub mod Revised
pub mod Shortest
pub mod Served
pub mod Received
use re203_projet_reseau.Prelude.{
  ℕ, zero, suc, ◌-◌, Bool, true, false, not, ◌&&◌, ◌||◌, List, [], ◌∷◌, Option, none, some, Str,
  Pointer, codes, str_eq, length, take, if◌then◌else◌, ℤ, pos, ◌+ℤ◌, ltb_ℤ, ◌==ℤ◌, Outcome, ok,
  fault, out_of_bounds, overflow, dangling, deref, ◌>>=◌,
}
use re203_projet_reseau.Libc.Decimal.{is_int}
use re203_projet_reseau.Libc.Tokens.{strtok}
use re203_projet_reseau.Messages.Reader.{atoi_pointer}
use re203_projet_reseau.Router.Table.{Entry, RouteTable, new_entry, assigned, find, put, at}

-- `str_orig + 1`, and the last byte of the copy cut off.
unfoldable pub strip_brackets : Str → Outcome Str
strip_brackets [] = fault out_of_bounds
strip_brackets (c ∷ []) = fault out_of_bounds
strip_brackets (c ∷ d ∷ s) = ok (take (length s) (d ∷ s))

-- The calls of `strtok` up to the first that returns NULL. Every one but the last takes a byte at
-- least, so the fuel that `split` gives is enough.
unfoldable pub tokens : ℕ → Str → Str → List Str
tokens zero delimiters s = []
tokens (suc k) delimiters s = elim (strtok delimiters s).0 [
  | none ↦ []
  | some r ↦ r ∷ tokens k delimiters (strtok delimiters s).1
]

unfoldable pub split : Str → List Str
split s = tokens (suc (length s)) (codes ";") s

-- A sum of two `int`s.
unfoldable pub add_int : ℤ → ℤ → Outcome ℤ
add_int a b = if is_int (a +ℤ b) then ok (a +ℤ b) else fault overflow

-- An entry that the first loop erases: the route to another node goes through the neighbour.
unfoldable pub is_learnt : Str → Entry → Bool
is_learnt source e = not (str_eq e.name e.next_hop) && str_eq e.next_hop source

-- The loop goes on from the iterator that it has erased.
unfoldable pub drop_learnt : Str → RouteTable → Outcome RouteTable
drop_learnt source [] = ok []
drop_learnt source ((k, e) ∷ t) =
    if is_learnt source e
    then fault dangling
    else do rest ← drop_learnt source t; ok ((k, e) ∷ rest)

-- The condition for a node that is in the table; `sum` is the distance through the neighbour, which is
-- not looked at for a neighbour.
unfoldable pub is_improved : Str → Entry → ℤ → ℤ → Bool
is_improved source e dist sum =
    (e.is_neighbor && ltb_ℤ dist e.dist)
    || ((not e.is_neighbor && ltb_ℤ sum e.dist)
        || ((not e.is_neighbor && (str_eq e.next_hop source && not (e.dist ==ℤ sum)))
            || ltb_ℤ e.dist (pos 0)))

-- The entry when the condition holds.
unfoldable pub improved : Str → Entry → ℤ → ℤ → Entry
improved source e dist sum = record e {
  next_hop = source;
  dist = if e.is_neighbor then dist else sum;
}

unfoldable pub improve : Str → Str → Entry → ℤ → ℤ → RouteTable → RouteTable
improve source s e dist sum t =
    if is_improved source e dist sum then put s (improved source e dist sum) t else t

-- `dist + routeTable[sourceNode].dist ()` is computed for a node that is not a neighbour only.
unfoldable pub update_known : RouteTable → Str → Str → Entry → ℤ → Outcome RouteTable
update_known t source s e dist = if e.is_neighbor then ok (improve source s e dist dist t) else do
  sum ← add_int dist (at t source).0.dist
  ok (improve source s e dist sum (at t source).1)

unfoldable pub add_unknown : RouteTable → Str → Str → ℤ → Outcome RouteTable
add_unknown t source s dist = do
  sum ← add_int dist (at t source).0.dist
  ok (put s (assigned (new_entry s source sum)) (at t source).1)

unfoldable pub update_route : RouteTable → Str → Str → ℤ → Outcome RouteTable
update_route t source s dist = elim (find s t) [
  | some e ↦ update_known t source s e dist
  | none ↦ add_unknown t source s dist
]

-- One group `id,dist`.
unfoldable pub parse_route : Str → Str → RouteTable → Str → Outcome RouteTable
parse_route name source t group = do
  let first = strtok (codes ",") group
  s ← deref first.0
  if str_eq s name
      then ok t
      else do dist ← atoi_pointer (strtok (codes ",") first.1).0; update_route t source s dist

unfoldable pub parse_routes : Str → Str → RouteTable → List Str → Outcome RouteTable
parse_routes name source t [] = ok t
parse_routes name source t (group ∷ groups) = do
  t' ← parse_route name source t group
  parse_routes name source t' groups

-- `parseVector` of the router `name` for a vector of the router `source`.
unfoldable pub parse_vector : Str → RouteTable → Pointer → Str → Outcome RouteTable
parse_vector name t str_orig source = do
  s ← deref str_orig
  str ← strip_brackets s
  kept ← drop_learnt source t
  parse_routes name source kept (split str)
