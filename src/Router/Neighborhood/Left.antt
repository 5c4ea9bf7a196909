-- ===== src/Router/Neighborhood/Left.antt =====
-- The last loop of `Router::parseNeighborhood` (router/router.cpp): which entries it erases.
use mathlib.Core.Path.{subst}
use re203_projet_reseau.Prelude.{
  sym, ◌≡◌, refl, true, false, [], ◌∷◌, List, some, Str, ok, fault, dangling, str_eq, str_eq_iff,
  arith, Bool-cases, inl, inr, if◌then◌else◌,
}
use re203_projet_reseau.Router.Table.{Entry, RouteTable, find, put, str_ltb}
use re203_projet_reseau.Router.Neighborhood.{is_member, is_gone, drop_gone}

-- An entry that the list leaves in the table: a neighbour that is listed, or a route through one.
abbrev pub IsLeft : List Str → Str → Entry → Type 0
IsLeft names k e = is_member (if e.is_neighbor then k else e.next_hop) names ≡ true

abbrev pub AllLeft : List Str → RouteTable → Type 0
AllLeft names [] = Unit
AllLeft names ((k, e) ∷ t) = IsLeft names k e × AllLeft names t

IsLeft-not_gone :
    (names : List Str) (k : Str) (e : Entry) → IsLeft names k e → is_gone names k e ≡ false
unfolding is_gone
IsLeft-not_gone names k e h = ground arith

pub drop_gone-AllLeft :
    (t : RouteTable) (names : List Str) → AllLeft names t → drop_gone names t ≡ ok t
unfolding drop_gone
drop_gone-AllLeft [] names h = refl
drop_gone-AllLeft ((k, e) ∷ t) names h =
    rw (IsLeft-not_gone names k e h.0, drop_gone-AllLeft t names h.1) refl

pub AllLeft-find :
    (t : RouteTable) (names : List Str) (k : Str) (e : Entry)
    → AllLeft names t
    → find k t ≡ some e
    → IsLeft names k e
unfolding find
AllLeft-find [] names k e h f = cc
AllLeft-find ((j, d) ∷ t) names k e h f = elim (Bool-cases (str_eq j k)) [
  | inl same ↦
      let d_e : d ≡ e = cc (rw (find, same) at f) in
      subst (λ x. IsLeft names x e) ((str_eq_iff j k).0 same)
        (subst (λ x. IsLeft names j x) d_e h.0)
  | inr other ↦ AllLeft-find t names k e h.1 (rw (find, other) at f)
]

pub AllLeft-put :
    (t : RouteTable) (names : List Str) (k : Str) (e : Entry)
    → AllLeft names t
    → IsLeft names k e
    → AllLeft names (put k e t)
unfolding put
AllLeft-put [] names k e h l = (l, tt)
AllLeft-put ((j, d) ∷ t) names k e h l = elim (Bool-cases (str_eq j k)) [
  | inl same ↦ rw (put, same) (l, h.1)
  | inr other ↦ elim (Bool-cases (str_ltb k j)) [
    | inl before ↦ rw (put, other, before) (l, h)
    | inr behind ↦ rw (put, other, behind) (h.0, AllLeft-put t names k e h.1 l)
  ]
]

IsLeft-gone :
    (names : List Str) (k : Str) (e : Entry)
    → is_member (if e.is_neighbor then k else e.next_hop) names ≡ false
    → is_gone names k e ≡ true
unfolding is_gone
IsLeft-gone names k e h = ground arith

-- The loop does not get past an entry that it erases.
pub drop_gone-found :
    (t : RouteTable) (names : List Str) (k : Str) (e : Entry)
    → find k t ≡ some e
    → is_member (if e.is_neighbor then k else e.next_hop) names ≡ false
    → drop_gone names t ≡ fault dangling
unfolding drop_gone find
drop_gone-found [] names k e f h = cc
drop_gone-found ((j, d) ∷ t) names k e f h = elim (Bool-cases (is_gone names j d)) [
  | inl gone ↦ rw (drop_gone, gone) refl
  | inr left ↦ elim (Bool-cases (str_eq j k)) [
    | inl same ↦
        let d_e : d ≡ e = cc (rw (find, same) at f) in
        let gone : is_gone names j d ≡ true =
          subst (λ x. is_gone names j x ≡ true) (sym d_e)
            (subst (λ x. is_gone names x e ≡ true) (sym ((str_eq_iff j k).0 same))
              (IsLeft-gone names k e h)) in
        cc
    | inr other ↦ rw (drop_gone, left, drop_gone-found t names k e (rw (find, other) at f) h) refl
  ]
]
