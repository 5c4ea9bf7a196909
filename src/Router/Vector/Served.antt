-- ===== src/Router/Vector/Served.antt =====
-- `Router::parseVector` (router/router.cpp) on the vector of another router, and on a second one.
use re203_projet_reseau.Prelude.{
  ◌⊎◌, ◌≡◌, refl, ◌∙◌, true, false, [], ◌∷◌, ◌++◌, some, Str, ok, fault, dangling, Bool-cases, inl,
  inr,
}
use re203_projet_reseau.Router.Table.{Entry, RouteTable, vector_text, find}
use re203_projet_reseau.Router.Vector.{is_learnt, drop_learnt, parse_vector}
use re203_projet_reseau.Router.Vector.Text.{
  strip_brackets-between, ArePrintable, routes, parse_vector-text,
}
use re203_projet_reseau.Router.Vector.Revised.{IsVector, revised, update_routes-revised}

-- No route to another node goes through the neighbour.
abbrev pub NoneLearnt : Str → RouteTable → Type 0
NoneLearnt source [] = Unit
NoneLearnt source ((k, e) ∷ t) = (is_learnt source e ≡ false) × NoneLearnt source t

drop_learnt-none :
    (t : RouteTable) (source : Str) → NoneLearnt source t → drop_learnt source t ≡ ok t
unfolding drop_learnt
drop_learnt-none [] source h = refl
drop_learnt-none ((k, e) ∷ t) source h = rw (h.0, drop_learnt-none t source h.1) refl

-- The vector of a neighbour's own table, when no route to another node goes through it yet.
pub parse_vector-revised :
    (name source : Str) (theirs t : RouteTable) (es : Entry)
    → find source t ≡ some es
    → NoneLearnt source t
    → ArePrintable (routes name theirs)
    → IsVector source es.dist (routes name theirs)
    → (t' : RouteTable) × (parse_vector name t (some (vector_text theirs name)) source ≡ ok t')
      × ((k : Str) → find k t' ≡ revised name source es.dist (routes name theirs) t k)
parse_vector-revised name source theirs t es h n p v =
    let (t', r, f) = update_routes-revised (routes name theirs) name source es t h v in
    (t', parse_vector-text name source name theirs t p ∙ rw (drop_learnt-none t source n) r, f)

-- The table has a route to another node through the neighbour.
abbrev pub HasLearnt : Str → RouteTable → Type 0
HasLearnt source [] = ⊥
HasLearnt source ((k, e) ∷ t) = (is_learnt source e ≡ true) ⊎ HasLearnt source t

drop_learnt-some :
    (t : RouteTable) (source : Str) → HasLearnt source t → drop_learnt source t ≡ fault dangling
unfolding drop_learnt
drop_learnt-some [] source h = absurd h
drop_learnt-some ((k, e) ∷ t) source (inl h) = rw h refl
drop_learnt-some ((k, e) ∷ t) source (inr h) = elim (Bool-cases (is_learnt source e)) [
  | inl l ↦ rw l refl
  | inr l ↦ rw (l, drop_learnt-some t source h) refl
]

-- A vector in brackets of a neighbour through which the table has learnt a route to another node
-- makes parseVector go on from the iterator that it has erased.
pub parse_vector-learnt :
    (name source : Str) (t : RouteTable) (s : Str)
    → HasLearnt source t
    → parse_vector name t (some (b'[' ∷ (s ++ b']' ∷ []))) source ≡ fault dangling
unfolding parse_vector
parse_vector-learnt name source t s h =
    rw (strip_brackets-between s, drop_learnt-some t source h) refl
