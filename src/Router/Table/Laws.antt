-- ===== src/Router/Table/Laws.antt =====
-- The table of routes as a map: what a write changes (router/routetable.hpp).
use re203_projet_reseau.Prelude.{
  ◌≡◌, refl, some, [], ◌∷◌, Str, str_eq, str_eq_iff, str_eq_refl, if◌then◌else◌, arith,
}
use re203_projet_reseau.Router.Table.{Entry, RouteTable, find, put, at}

pub find-put :
    (t : RouteTable) (k j : Str) (e : Entry)
    → find k (put j e t) ≡ (if str_eq j k then some e else find k t)
unfolding find put
find-put [] k j e = refl
find-put ((i, d) ∷ t) k j e =
    ground (arith, str_eq_iff i j, str_eq_iff j k, str_eq_iff i k, find-put t k j e)

pub find-put_self : (t : RouteTable) (k : Str) (e : Entry) → find k (put k e t) ≡ some e
find-put_self t k e = rw (find-put t k k e, str_eq_refl k) refl

pub at-found : (t : RouteTable) (k : Str) {e : Entry} → find k t ≡ some e → at t k ≡ (e, t)
unfolding at
at-found t k h = rw (at, h) refl
