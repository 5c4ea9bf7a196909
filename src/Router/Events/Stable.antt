-- ===== src/Router/Events/Stable.antt =====
-- Properties of the router's state that its functions (router/) keep: they are kept if the writes that
-- the functions are made of keep them.
use re203_projet_reseau.Prelude.{
  ℤ, codes, ap, Pointer, ◌≡◌, refl, Bool, true, false, List, [], ◌∷◌, none, some, Str, Outcome, ok,
  fault, ◌>>=◌, if◌then◌else◌, str_eq, Bool-cases, inl, inr, deref, sym, Option-cases,
}
use re203_projet_reseau.Net.Client.{Client}
use re203_projet_reseau.Net.Sockets.{Effect}
use re203_projet_reseau.Net.Network.{Network, add_client}
use re203_projet_reseau.Net.Update.{World}
use re203_projet_reseau.Router.Table.{ClientPointer, Entry, RouteTable, put, find, at, modify}
use re203_projet_reseau.Router.State.{Router, with_table, client_at, put_client}
use mathlib.Core.Path.{subst}
use re203_projet_reseau.Libc.Tokens.{strtok}
use re203_projet_reseau.Messages.Reader.{atoi_pointer}
use re203_projet_reseau.Router.Neighborhood.{drop_gone, is_gone}
use re203_projet_reseau.Router.Vector.{
  strip_brackets, split, parse_vector, drop_learnt, drop_learnt, is_learnt, improve, is_improved,
  update_known, add_unknown, update_route, parse_route, parse_routes, parse_vector, add_int,
  strip_brackets, split,
}

-- What one write leaves of a property.
pub record Stable (P : World Router → Type 0) : Type 0 where
  pub on_state :
      (w : World Router) (s : Router) → s.table ≡ w.state.table → P w → P (record w { state = s })
  pub on_calls : (w : World Router) (calls : List Effect) → P w → P (record w { calls = calls })
  pub on_put :
      (w : World Router) (k : Str) (e : Entry) → P w → P (with_table w (put k e w.state.table))
  pub on_clear : (w : World Router) → P w → P (with_table w [])
  pub on_client :
      (w : World Router) (p : ClientPointer) (c d : Client)
      → client_at w p ≡ ok c
      → d.sock ≡ c.sock
      → P w
      → P (put_client w p d)
  pub on_connect :
      (w : World Router) (net : Network) (c : Client)
      → add_client w.network c ≡ ok net
      → P w
      → P (record w { network = net })

-- A result, if there is one, has the property.
abbrev pub Keeps : {A : Type 0} → (A → Type 0) → Outcome A → Type 0
Keeps P (ok a) = P a
Keeps P (fault e) = Unit

pub Keeps-bind :
    {A B : Type 0} (P : B → Type 0) (m : Outcome A) (f : A → Outcome B)
    → ((a : A) → m ≡ ok a → Keeps P (f a))
    → Keeps P (m >>= f)
Keeps-bind P (ok a) f h = h a refl
Keeps-bind P (fault e) f h = tt

pub Keeps-chain :
    {A B : Type 0} (Q : A → Type 0) (P : B → Type 0) (m : Outcome A) (f : A → Outcome B)
    → Keeps Q m
    → ((a : A) → Q a → Keeps P (f a))
    → Keeps P (m >>= f)
Keeps-chain Q P (ok a) f q h = h a q
Keeps-chain Q P (fault e) f q h = tt

pub Keeps-if :
    {A : Type 0} (P : A → Type 0) (b : Bool) (x y : Outcome A)
    → Keeps P x
    → Keeps P y
    → Keeps P (if b then x else y)
Keeps-if P true x y p q = p
Keeps-if P false x y p q = q

-- The loops that stop at the first entry that they erase leave the table as it is.
kept_entry :
    (k : Str) (e : Entry) (t : RouteTable) (m : Outcome RouteTable)
    → Keeps (λ t1. t1 ≡ t) m
    → Keeps (λ t1. t1 ≡ (k, e) ∷ t) (m >>= λ rest. ok ((k, e) ∷ rest))
kept_entry k e t (ok t1) h = ap (λ rest. (k, e) ∷ rest) h
kept_entry k e t (fault f) h = tt

drop_learnt-Keeps : (t : RouteTable) (source : Str) → Keeps (λ t1. t1 ≡ t) (drop_learnt source t)
unfolding drop_learnt
drop_learnt-Keeps [] source = refl
drop_learnt-Keeps ((k, e) ∷ t) source =
    Keeps-if (λ t1. t1 ≡ (k, e) ∷ t) (is_learnt source e) _ _ tt
      (kept_entry k e t (drop_learnt source t) (drop_learnt-Keeps t source))

pub drop_gone-Keeps : (t : RouteTable) (names : List Str) → Keeps (λ t1. t1 ≡ t) (drop_gone names t)
unfolding drop_gone
drop_gone-Keeps [] names = refl
drop_gone-Keeps ((k, e) ∷ t) names =
    Keeps-if (λ t1. t1 ≡ (k, e) ∷ t) (is_gone names k e) _ _ tt
      (kept_entry k e t (drop_gone names t) (drop_gone-Keeps t names))

-- A property of tables that a write keeps.
module _ (Q : RouteTable → Type 0)
    (on_put : (t : RouteTable) (k : Str) (e : Entry) → Q t → Q (put k e t)) where
  pub at-Keeps : (t : RouteTable) (k : Str) → Q t → Q (at t k).1
  unfolding at
  at-Keeps t k q = elim (Option-cases (find k t)) [
    | inl new ↦ rw (at, new) (on_put t k _ q)
    | inr (e, old) ↦ rw (at, old) q
  ]

  pub modify-Keeps : (t : RouteTable) (k : Str) (f : Entry → Entry) → Q t → Q (modify k f t)
  unfolding modify
  modify-Keeps t k f q = on_put (at t k).1 k _ (at-Keeps t k q)

  improve-Keeps :
      (source s : Str) (e : Entry) (d sum : _) (t : RouteTable)
      → Q t
      → Q (improve source s e d sum t)
  unfolding improve
  improve-Keeps source s e d sum t q = elim (Bool-cases (is_improved source e d sum)) [
    | inl better ↦ rw (improve, better) (on_put t s _ q)
    | inr kept ↦ rw (improve, kept) q
  ]

  update_known-Keeps :
      (t : RouteTable) (source s : Str) (e : Entry) (d : ℤ)
      → Q t
      → Keeps Q (update_known t source s e d)
  unfolding update_known
  update_known-Keeps t source s e d q =
      Keeps-if Q e.is_neighbor _ _ (improve-Keeps source s e d d t q) (
        Keeps-bind Q (add_int d (at t source).0.dist) _
          (λ sum r. improve-Keeps source s e d sum (at t source).1 (at-Keeps t source q)))

  add_unknown-Keeps :
      (t : RouteTable) (source s : Str) (d : ℤ) → Q t → Keeps Q (add_unknown t source s d)
  unfolding add_unknown
  add_unknown-Keeps t source s d q =
      Keeps-bind Q (add_int d (at t source).0.dist) _
        (λ sum r. on_put (at t source).1 s _ (at-Keeps t source q))

  update_route-Keeps :
      (t : RouteTable) (source s : Str) (d : ℤ) → Q t → Keeps Q (update_route t source s d)
  unfolding update_route
  update_route-Keeps t source s d q =
      elim (find s t)
        as (λ o.
          Keeps Q
            (elim o [ some e ↦ update_known t source s e d | none ↦ add_unknown t source s d ])) [
              | none ↦ add_unknown-Keeps t source s d q
              | some e ↦ update_known-Keeps t source s e d q
            ]

  parse_route-Keeps :
      (t : RouteTable) (name source group : Str) → Q t → Keeps Q (parse_route name source t group)
  unfolding parse_route
  parse_route-Keeps t name source group q =
      Keeps-bind Q (deref (strtok (codes ",") group).0) _ (λ s r. Keeps-if Q (str_eq s name) _ _ q (
        Keeps-bind Q (atoi_pointer (strtok (codes ",") (strtok (codes ",") group).1).0) _
          (λ d r1. update_route-Keeps t source s d q)))

  parse_routes-Keeps :
      (groups : List Str) (t : RouteTable) (name source : Str)
      → Q t
      → Keeps Q (parse_routes name source t groups)
  unfolding parse_routes
  parse_routes-Keeps [] t name source q = q
  parse_routes-Keeps (group ∷ groups) t name source q =
      Keeps-chain Q Q (parse_route name source t group) _ (parse_route-Keeps t name source group q)
        (λ t1 q1. parse_routes-Keeps groups t1 name source q1)

  pub parse_vector-Keeps :
      (t : RouteTable) (name : Str) (v : Pointer) (source : Str)
      → Q t
      → Keeps Q (parse_vector name t v source)
  unfolding parse_vector
  parse_vector-Keeps t name v source q = Keeps-bind Q (deref v) _ (λ s r.
      Keeps-bind Q (strip_brackets s) _ (λ str r1.
        Keeps-chain (λ t1. t1 ≡ t) Q (drop_learnt source t) _ (drop_learnt-Keeps t source)
          (λ t1 e. parse_routes-Keeps (split str) t1 name source (subst Q (sym e) q))))
