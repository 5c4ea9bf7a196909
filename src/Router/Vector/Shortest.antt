-- ===== src/Router/Vector/Shortest.antt =====
-- The distance-vector algorithm, and what `Router::parseVector` (router/router.cpp) makes of it: a node
-- that is no neighbour gets the shorter of two routes, and a neighbour a distance that is none.
use re203_projet_reseau.Prelude.{
  ap, ◌≡◌, refl, ◌∙◌, true, false, List, Option, none, some, Str, str_eq, if◌then◌else◌, arith, ℤ,
  pos, ◌+ℤ◌, ltb_ℤ, ok, Bool-cases, inl, inr,
}
use re203_projet_reseau.Router.Table.{Entry, RouteTable, find, vector_text}
use re203_projet_reseau.Router.Vector.{parse_vector}
use re203_projet_reseau.Router.Vector.Text.{routes, ArePrintable}
use re203_projet_reseau.Router.Vector.Revised.{IsVector, announced, revised, rewritten, through}
use re203_projet_reseau.Router.Vector.Served.{NoneLearnt, parse_vector-revised}

-- A route: its length and its first router.
abbrev pub RouteTo : Type 0
RouteTo = Option (ℤ × Str)

-- The route that an entry stands for; a negative distance stands for none.
abbrev pub route_of : Option Entry → RouteTo
route_of none = none
route_of (some e) = if ltb_ℤ e.dist (pos 0) then none else some (e.dist, e.next_hop)

-- One step of the algorithm: a neighbour at the distance `base` announces its distance from a node. The
-- route through it is taken if it is the shorter one.
abbrev pub shortest : Str → ℤ → Option ℤ → RouteTo → RouteTo
shortest source base none r = r
shortest source base (some dist) none = some (dist +ℤ base, source)
shortest source base (some dist) (some (n, hop)) =
    if ltb_ℤ (dist +ℤ base) n then some (dist +ℤ base, source) else some (n, hop)

-- The node is no neighbour, and its route does not go through `source`.
abbrev pub IsFar : Str → Option Entry → Type 0
IsFar source none = Unit
IsFar source (some e) = (e.is_neighbor ≡ false) × (str_eq e.next_hop source ≡ false)

-- The way through the neighbour has a length.
abbrev pub HasLength : ℤ → Option ℤ → Type 0
HasLength base none = Unit
HasLength base (some dist) = ltb_ℤ (dist +ℤ base) (pos 0) ≡ false

-- The entry behind the vector.
abbrev after : Str → ℤ → Str → Option ℤ → Option Entry → Option Entry
after source base k none o = o
after source base k (some dist) o = some (rewritten source base k dist o)

after-far :
    (source : Str) (base : ℤ) (k : Str) (dist : ℤ) (e : Entry)
    → IsFar source (some e)
    → rewritten source base k dist (some e) ≡ (
        if ltb_ℤ e.dist (pos 0)
        then through source (dist +ℤ base) e
        else if ltb_ℤ (dist +ℤ base) e.dist
        then through source (dist +ℤ base) e
        else e)
after-far source base k dist e far =
    rw (far.0, far.1)
      (elim (Bool-cases (ltb_ℤ e.dist (pos 0))) [
        | inl lost ↦ rw lost (ground arith)
        | inr old ↦ rw old (ground arith)
      ])

-- The entry that the route goes through has the sum as its length.
through-length :
    (source : Str) (sum : ℤ) (e : Entry)
    → ltb_ℤ sum (pos 0) ≡ false
    → route_of (some (through source sum e)) ≡ some (sum, source)
through-length source sum e h = rw h refl

route_of-after :
    (source : Str) (base : ℤ) (k : Str) (a : Option ℤ) (o : Option Entry)
    → IsFar source o
    → HasLength base a
    → route_of (after source base k a o) ≡ shortest source base a (route_of o)
route_of-after source base k none o far h = refl
route_of-after source base k (some dist) none far h = rw h refl
route_of-after source base k (some dist) (some e) far h =
    ap (λ x. route_of (some x)) (after-far source base k dist e far)
    ∙ elim (Bool-cases (ltb_ℤ e.dist (pos 0))) [
      | inl lost ↦ rw lost (rw h refl)
      | inr old ↦ elim (Bool-cases (ltb_ℤ (dist +ℤ base) e.dist)) [
        | inl less ↦ rw (old, less) (rw h refl)
        | inr more ↦ rw (old, more) (rw old refl)
      ]
    ]

pub revised-shortest :
    (name source : Str) (base : ℤ) (rs : List (Str × ℤ)) (t : RouteTable) (k : Str)
    → str_eq k name ≡ false
    → IsFar source (find k t)
    → HasLength base (announced k rs)
    → route_of (revised name source base rs t k)
      ≡ shortest source base (announced k rs) (route_of (find k t))
revised-shortest name source base rs t k other far h =
    ap
      (λ b. route_of (
        if b then find k t else elim (announced k rs) [
          | none ↦ find k t
          | some dist ↦ some (rewritten source base k dist (find k t))
        ]))
      other
    ∙ (elim (announced k rs)
          as (λ a.
            HasLength base a
            → route_of (elim a [
              | none ↦ find k t
              | some dist ↦ some (rewritten source base k dist (find k t))
            ])
              ≡ shortest source base a (route_of (find k t))) [
                | none ↦ λ h. refl
                | some dist ↦ λ h. route_of-after source base k (some dist) (find k t) far h
              ])
        h

-- When a router reads the vector that a neighbour has printed of its own table, parseVector
-- succeeds, and the route of each node that is no neighbour, nor the router itself, is that of a
-- step of the distance-vector algorithm: the old route, or the way through the neighbour if it is
-- the shorter one, whose length is the announced distance and the one to the neighbour. A negative
-- distance in the table stands for no route; the node's old route must not go through the neighbour
-- already, and the length of the new one not be negative. The neighbour must be in the reader's
-- table, no route to another node may go through it yet, the names must hold neither a comma nor a
-- semicolon, no name may be the neighbour's own or stand twice, and the distances and their sums
-- must be ints.
pub parse_vector-shortest :
    (name source : Str) (theirs t : RouteTable) (es : Entry) (k : Str)
    → find source t ≡ some es
    → NoneLearnt source t
    → ArePrintable (routes name theirs)
    → IsVector source es.dist (routes name theirs)
    → str_eq k name ≡ false
    → IsFar source (find k t)
    → HasLength es.dist (announced k (routes name theirs))
    → (t' : RouteTable) × (parse_vector name t (some (vector_text theirs name)) source ≡ ok t')
      × (route_of (find k t')
          ≡ shortest source es.dist (announced k (routes name theirs)) (route_of (find k t)))
parse_vector-shortest name source theirs t es k h n p v other far l =
    let (t', r, f) = parse_vector-revised name source theirs t es h n p v in
    (
      t',
      r,
      ap route_of (f k) ∙ revised-shortest name source es.dist (routes name theirs) t k other far l,
    )

revised-neighbor :
    (name source : Str) (base : ℤ) (rs : List (Str × ℤ)) (t : RouteTable) (k : Str) (e : Entry)
    (dist : ℤ)
    → str_eq k name ≡ false
    → find k t ≡ some e
    → e.is_neighbor ≡ true
    → announced k rs ≡ some dist
    → ltb_ℤ dist e.dist ≡ true
    → revised name source base rs t k ≡ some (through source dist e)
revised-neighbor name source base rs t k e dist other found n a less =
    rw (other, a, found, n, less) refl

-- For a node that is a neighbour itself, parseVector compares the distance that another neighbour
-- announces with the one in the table and, if it is less, stores it with the other neighbour as the
-- next hop, but without the distance to that neighbour: the entry falls short of the way it stands
-- for by that distance. The node must not be the router itself. The neighbour must be in the
-- reader's table, no route to another node may go through it yet, the names must hold neither a
-- comma nor a semicolon, no name may be the neighbour's own or stand twice, and the distances and
-- their sums must be ints.
pub parse_vector-neighbor :
    (name source : Str) (theirs t : RouteTable) (es e : Entry) (k : Str) (dist : ℤ)
    → find source t ≡ some es
    → NoneLearnt source t
    → ArePrintable (routes name theirs)
    → IsVector source es.dist (routes name theirs)
    → str_eq k name ≡ false
    → find k t ≡ some e
    → e.is_neighbor ≡ true
    → announced k (routes name theirs) ≡ some dist
    → ltb_ℤ dist e.dist ≡ true
    → (t' : RouteTable) × (parse_vector name t (some (vector_text theirs name)) source ≡ ok t')
      × (find k t' ≡ some (record e { next_hop = source; dist = dist }))
parse_vector-neighbor name source theirs t es e k dist h n p v other found near a less =
    let (t', r, f) = parse_vector-revised name source theirs t es h n p v in
    (
      t',
      r,
      f k
          ∙ revised-neighbor name source es.dist (routes name theirs) t k e dist other found near a
              less,
    )
