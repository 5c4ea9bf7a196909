-- ===== src/Router/Vector/Revised.antt =====
-- What `Router::parseVector` (router/router.cpp) does to the table, entry by entry: its conditions for
-- one node, put together over the whole vector.
use mathlib.Core.Path.{subst}
use re203_projet_reseau.Prelude.{
  ap, str_eq_refl, Option-cases, ◌≡◌, refl, ◌∙◌, true, false, ◌||◌, List, [], ◌∷◌, Option, none,
  some, Str, str_eq, str_eq_iff, if◌then◌else◌, arith, ℤ, pos, ◌+ℤ◌, ltb_ℤ, ◌==ℤ◌, ok, Bool-cases,
  inl, inr,
}
use re203_projet_reseau.Libc.Decimal.{IsInt}
use re203_projet_reseau.Router.Table.{
  Entry, RouteTable, ClientPointer, new_entry, assigned, find, put,
}
use re203_projet_reseau.Router.Table.Laws.{find-put, at-found}
use re203_projet_reseau.Router.Vector.{
  add_int, is_improved, improved, improve, update_known, add_unknown, update_route,
}
use re203_projet_reseau.Router.Vector.Text.{update_routes}

-- The entry with the route through the neighbour.
abbrev pub through : Str → ℤ → Entry → Entry
through source dist e = record e { next_hop = source; dist = dist }

-- The entry of a node that is announced at the distance `dist` by the neighbour, which is at the
-- distance `base`. For a node that is a neighbour itself the code compares and stores the announced
-- distance as it is, without `base`.
abbrev pub rewritten : Str → ℤ → Str → ℤ → Option Entry → Entry
rewritten source base k dist none = record {
  name = k;
  next_hop = source;
  dist = dist +ℤ base;
  is_neighbor = false;
  client = ClientPointer.null;
  is_complete = false;
  seconds_inactive = pos 0;
}
rewritten source base k dist (some e) =
    if e.is_neighbor
    then (if ltb_ℤ dist e.dist || ltb_ℤ e.dist (pos 0) then through source dist e else e)
    else if ltb_ℤ (dist +ℤ base) e.dist || (ltb_ℤ e.dist (pos 0) || str_eq e.next_hop source)
    then through source (dist +ℤ base) e
    else e

improve-find :
    (source s : Str) (e : Entry) (dist sum : ℤ) (t : RouteTable) (k : Str)
    → find s t ≡ some e
    → find k (improve source s e dist sum t) ≡ (
        if str_eq s k
        then some (if is_improved source e dist sum then improved source e dist sum else e)
        else find k t)
unfolding improve
improve-find source s e dist sum t k h = elim (Bool-cases (is_improved source e dist sum)) [
  | inl better ↦ rw better (find-put t k s (improved source e dist sum))
  | inr kept ↦ rw kept (ground (arith, str_eq_iff s k))
]

-- What the code makes of a neighbour's entry.
rewritten-neighbor :
    (source : Str) (e : Entry) (base dist : ℤ) (k : Str)
    → e.is_neighbor ≡ true
    → (if is_improved source e dist dist then improved source e dist dist else e)
      ≡ rewritten source base k dist (some e)
unfolding is_improved improved
rewritten-neighbor source e base dist k n = ground arith

same_route :
    (source : Str) (e : Entry) (sum : ℤ)
    → str_eq e.next_hop source ≡ true
    → (e.dist ==ℤ sum) ≡ true
    → through source sum e ≡ e
same_route source e sum h d =
    let p : e.next_hop ≡ source = (str_eq_iff e.next_hop source).0 h in ground (arith)

rewritten-other :
    (source : Str) (e : Entry) (base dist : ℤ) (k : Str)
    → e.is_neighbor ≡ false
    → (if is_improved source e dist (dist +ℤ base)
        then improved source e dist (dist +ℤ base)
        else e)
      ≡ rewritten source base k dist (some e)
unfolding is_improved improved
rewritten-other source e base dist k n = ground (arith, same_route source e (dist +ℤ base))

add_int-fits : (a b : ℤ) → IsInt (a +ℤ b) → add_int a b ≡ ok (a +ℤ b)
unfolding add_int
add_int-fits a b h = ground arith

module _ (source : Str) (t : RouteTable) (es : Entry) (known : find source t ≡ some es) where
  -- A node whose distance the neighbour announces has the rewritten route afterwards, and no other node's
  -- route changes.
  update_route-rewritten :
      (s : Str) (dist : ℤ)
      → IsInt (dist +ℤ es.dist)
      → (t' : RouteTable) × (update_route t source s dist ≡ ok t')
        × ((k : Str)
            → find k t' ≡ (
                if str_eq s k then some (rewritten source es.dist s dist (find s t)) else find k t))
  unfolding update_route add_unknown update_known assigned new_entry
  update_route-rewritten s dist fits = elim (Option-cases (find s t)) [
    | inl new ↦ (
      put s (rewritten source es.dist s dist none) t,
      ground (arith, at-found t source known, add_int-fits dist es.dist fits),
      λ k. rw new (find-put t k s (rewritten source es.dist s dist none)),
    )
    | inr (e, old) ↦ elim (Bool-cases e.is_neighbor) [
      | inl n ↦ (
        improve source s e dist dist t,
        ground arith,
        λ k.
            rw
              (
                improve-find source s e dist dist t k old,
                old,
                rewritten-neighbor source e es.dist dist s n,
              )
              refl,
      )
      | inr n ↦ (
        improve source s e dist (dist +ℤ es.dist) t,
        ground (arith, at-found t source known, add_int-fits dist es.dist fits),
        λ k.
            rw
              (
                improve-find source s e dist (dist +ℤ es.dist) t k old,
                old,
                rewritten-other source e es.dist dist s n,
              )
              refl,
      )
    ]
  ]

-- The distance that a vector has for a node.
abbrev pub announced : Str → List (Str × ℤ) → Option ℤ
announced k [] = none
announced k ((s, dist) ∷ rs) = let rest = announced k rs in if str_eq s k then some dist else rest

-- A vector of a router: it names no node twice and not the router itself, and the sums with the
-- distance `base` are `int`s.
abbrev pub IsVector : Str → ℤ → List (Str × ℤ) → Type 0
IsVector source base [] = Unit
IsVector source base ((s, dist) ∷ rs) =
    ((announced s rs ≡ none) × (str_eq s source ≡ false) × IsInt (dist +ℤ base))
    × IsVector source base rs

-- The entry of a node when the whole vector is read.
abbrev pub revised : Str → Str → ℤ → List (Str × ℤ) → RouteTable → Str → Option Entry
revised name source base rs t k = if str_eq k name then find k t else elim (announced k rs) [
  | none ↦ find k t
  | some dist ↦ some (rewritten source base k dist (find k t))
]

revised-own :
    (name source : Str) (base : ℤ) (s : Str) (dist : ℤ) (rs : List (Str × ℤ)) (t : RouteTable)
    (k : Str)
    → str_eq s name ≡ true
    → revised name source base rs t k ≡ revised name source base ((s, dist) ∷ rs) t k
revised-own name source base s dist rs t k own = elim (Bool-cases (str_eq k name)) [
  | inl e ↦ rw e refl
  | inr e ↦ elim (Bool-cases (str_eq s k)) [
    | inl q ↦ ground (arith, str_eq_iff s k, str_eq_iff s name, str_eq_iff k name)
    | inr q ↦ rw (e, q) refl
  ]
]

revised-first :
    (name source : Str) (base : ℤ) (s : Str) (dist : ℤ) (rs : List (Str × ℤ)) (t t1 : RouteTable)
    (k : Str)
    → str_eq s name ≡ false
    → announced s rs ≡ none
    → find k t1 ≡ (if str_eq s k then some (rewritten source base s dist (find s t)) else find k t)
    → revised name source base rs t1 k ≡ revised name source base ((s, dist) ∷ rs) t k
revised-first name source base s dist rs t t1 k other once f = elim (Bool-cases (str_eq s k)) [
  | inl q ↦
      subst
        (λ (x : Str).
          find x t1
            ≡ (if str_eq s x then some (rewritten source base s dist (find s t)) else find x t)
          → revised name source base rs t1 x ≡ revised name source base ((s, dist) ∷ rs) t x)
        ((str_eq_iff s k).0 q)
        (λ f0.
          let g : find s t1 ≡ some (rewritten source base s dist (find s t)) =
            rw (str_eq_refl s) at f0 in
          rw (other, once, str_eq_refl s) (ap (λ (o : Option Entry). o) g))
        f
  | inr q ↦
      let g : find k t1 ≡ find k t = rw q at f in
      rw q (
        ap
          (λ (o : Option Entry).
            if str_eq k name
            then o
            else elim (announced k rs) [ none ↦ o | some d ↦ some (rewritten source base k d o) ])
          g)
]

pub update_routes-revised :
    (rs : List (Str × ℤ)) (name source : Str) (es : Entry) (t : RouteTable)
    → find source t ≡ some es
    → IsVector source es.dist rs
    → (t' : RouteTable) × (update_routes name source t rs ≡ ok t')
      × ((k : Str) → find k t' ≡ revised name source es.dist rs t k)
unfolding update_routes
update_routes-revised [] name source es t h v = (t, refl, λ k. ground arith)
update_routes-revised ((s, dist) ∷ rs) name source es t h v = elim (Bool-cases (str_eq s name)) [
  | inl own ↦
      let (t', r, f) = update_routes-revised rs name source es t h v.1 in
      (t', rw (own) r, λ k. f k ∙ revised-own name source es.dist s dist rs t k own)
  | inr other ↦
      let (t1, r1, f1) = update_route-rewritten source t es h s dist v.0.2 in
      let (t', r, f) = update_routes-revised rs name source es t1 (f1 source ∙ rw v.0.1 h) v.1 in
      (
        t',
        rw (other, r1) r,
        λ k. f k ∙ revised-first name source es.dist s dist rs t t1 k other v.0.0 (f1 k),
      )
]
