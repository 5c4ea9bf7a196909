-- ===== src/Router/Vector/Text.antt =====
-- The vector that a router prints (router/routetable.cpp) is what another one reads
-- (router/router.cpp): `parseVector` takes it apart into the nodes and their distances.
use re203_projet_reseau.Prelude.{
  Pointer, some, none, ◌∙◌, bind_congr, Outcome, sym, ℕ, zero, suc, ◌<◌, ◌≡◌, refl, ap, true, false,
  List, [], ◌∷◌, ◌++◌, map, Str, codes, str_eq, length, length-append, take-length-append, arith, ℤ,
  Bool-cases, inl, inr, ok, ◌>>=◌, if◌then◌else◌,
}
use mathlib.Core.List.{append_assoc, append-nil}
use re203_projet_reseau.Libc.Decimal.{IsInt, show_int}
use re203_projet_reseau.Libc.Decimal.RoundTrip.{atoi-show_int, show_int-IsField}
use re203_projet_reseau.Libc.Tokens.{skip_delimiters, first_token, strtok}
use re203_projet_reseau.Libc.Tokens.Separated.{
  IsField, strtok-field, strtok-last, IsField-append, IsField-Without,
}
use re203_projet_reseau.Messages.Reader.{atoi_pointer}
use re203_projet_reseau.Router.Table.{vector_text, RouteTable, vector_items}
use re203_projet_reseau.Router.Vector.{
  drop_learnt, parse_vector, strip_brackets, tokens, split, parse_route, parse_routes, update_route,
}

-- The nodes of a table and their distances, but for the client.
abbrev pub routes : Str → RouteTable → List (Str × ℤ)
routes client [] = []
routes client ((k, e) ∷ t) =
    let rest = routes client t in if str_eq client k then rest else (k, e.dist) ∷ rest

-- `id,dist`
abbrev pub group : Str × ℤ → Str
group (k, z) = k ++ b',' ∷ show_int z

-- Texts behind a semicolon each, and with semicolons between.
abbrev pub tails : List Str → Str
tails [] = []
tails (g ∷ gs) = b';' ∷ (g ++ tails gs)

abbrev pub joined : List Str → Str
joined [] = []
joined (g ∷ gs) = g ++ tails gs

-- A name that the text can hold: not empty, and with neither a comma nor a semicolon.
abbrev pub IsName : Str → Type 0
IsName s = IsField b',' s × IsField b';' s

-- The names and distances are printed in full.
abbrev pub ArePrintable : List (Str × ℤ) → Type 0
ArePrintable [] = Unit
ArePrintable ((k, z) ∷ rs) = (IsName k × IsInt z) × ArePrintable rs

vector_items-tails :
    (t : RouteTable) (client : Str)
    → vector_items client true t ≡ tails (map group (routes client t))
unfolding vector_items
vector_items-tails [] client = refl
vector_items-tails ((k, e) ∷ t) client = elim (Bool-cases (str_eq client k)) [
  | inl same ↦ rw (same, vector_items-tails t client) refl
  | inr other ↦
      rw (other, vector_items-tails t client)
        (ap (λ (s : Str). b';' ∷ s) (sym (append_assoc k (b',' ∷ show_int e.dist) _)))
]

vector_items-joined :
    (t : RouteTable) (client : Str)
    → vector_items client false t ≡ joined (map group (routes client t))
unfolding vector_items
vector_items-joined [] client = refl
vector_items-joined ((k, e) ∷ t) client = elim (Bool-cases (str_eq client k)) [
  | inl same ↦ rw (same, vector_items-joined t client) refl
  | inr other ↦
      rw (other, vector_items-tails t client) (sym (append_assoc k (b',' ∷ show_int e.dist) _))
]

pub strip_brackets-between : (s : Str) → strip_brackets (codes "[" ++ (s ++ codes "]")) ≡ ok s
unfolding strip_brackets
strip_brackets-between [] = refl
strip_brackets-between (d ∷ s) =
    let n : length (s ++ codes "]") ≡ length (d ∷ s) = omega (arith, length-append s (codes "]")) in
    rw n (ap ok (take-length-append (d ∷ s) (codes "]")))

-- Each text is a token between semicolons.
abbrev pub AreFields : List Str → Type 0
AreFields [] = Unit
AreFields (g ∷ gs) = IsField b';' g × AreFields gs

tokens-nil : (k : ℕ) → tokens k (codes ";") [] ≡ []
unfolding tokens strtok first_token skip_delimiters
tokens-nil zero = refl
tokens-nil (suc k) = refl

tokens-some :
    (k : ℕ) (s r rest : Str)
    → strtok (codes ";") s ≡ (some r, rest)
    → tokens (suc k) (codes ";") s ≡ r ∷ tokens k (codes ";") rest
unfolding tokens
tokens-some k s r rest e =
    ap (λ (p : Pointer × Str). elim p.0 [ none ↦ [] | some x ↦ x ∷ tokens k (codes ";") p.1 ]) e

tokens-joined :
    (gs : List Str) (k : ℕ)
    → AreFields gs
    → length (joined gs) < k
    → tokens k (codes ";") (joined gs) ≡ gs
tokens-joined gs zero h lt = absurd (omega arith)
tokens-joined [] (suc k) h lt = tokens-nil (suc k)
tokens-joined (g ∷ []) (suc k) h lt =
    ap (tokens (suc k) (codes ";")) (append-nil g)
    ∙ (tokens-some k g g [] (strtok-last b';' g h.0) ∙ ap (λ gs. g ∷ gs) (tokens-nil k))
tokens-joined (g ∷ x ∷ gs) (suc k) h lt =
    tokens-some k (joined (g ∷ x ∷ gs)) g (joined (x ∷ gs))
      (strtok-field b';' g (joined (x ∷ gs)) h.0)
    ∙ ap (λ gs. g ∷ gs)
        (tokens-joined (x ∷ gs) k h.1 (omega (arith, length-append g (tails (x ∷ gs)))))

pub split-joined : (gs : List Str) → AreFields gs → split (joined gs) ≡ gs
unfolding split
split-joined gs h = tokens-joined gs (suc (length (joined gs))) h (omega arith)

group-AreFields : (rs : List (Str × ℤ)) → ArePrintable rs → AreFields (map group rs)
group-AreFields [] h = tt
group-AreFields ((k, z) ∷ rs) h = (
  IsField-append b';' k (b',' ∷ show_int z) h.0.0.1 (
    ground arith,
    IsField-Without b';' (show_int z) (show_int-IsField b';' z refl (ground arith)),
  ),
  group-AreFields rs h.1,
)

module _ (name source : Str) where
  -- The loop over the nodes of a vector and their distances.
  unfoldable pub update_routes : RouteTable → List (Str × ℤ) → Outcome RouteTable
  update_routes t [] = ok t
  update_routes t ((s, dist) ∷ rs) = do
    t1 ← if str_eq s name then ok t else update_route t source s dist
    update_routes t1 rs

  parse_route-group :
      (t : RouteTable) (k : Str) (z : ℤ)
      → IsName k
      → IsInt z
      → parse_route name source t (group (k, z))
        ≡ (if str_eq k name then ok t else update_route t source k z)
  unfolding parse_route atoi_pointer
  parse_route-group t k z h i =
      rw
        (
          strtok-field b',' k (show_int z) h.0,
          strtok-last b',' (show_int z) (show_int-IsField b',' z refl (ground arith)),
          atoi-show_int z i,
        )
        refl

  parse_routes-groups :
      (rs : List (Str × ℤ)) (t : RouteTable)
      → ArePrintable rs
      → parse_routes name source t (map group rs) ≡ update_routes t rs
  unfolding parse_routes update_routes
  parse_routes-groups [] t h = refl
  parse_routes-groups ((k, z) ∷ rs) t h =
      rw (parse_route-group t k z h.0.0 h.0.1)
        (bind_congr _ _ _ (λ t1. parse_routes-groups rs t1 h.1))

-- parseVector reads in the vector that another router has printed exactly the nodes of its table,
-- but for the one it is printed for, with their distances, in their order. The names must hold
-- neither a comma nor a semicolon and the distances be ints.
pub parse_vector-text :
    (name source client : Str) (theirs t : RouteTable)
    → ArePrintable (routes client theirs)
    → parse_vector name t (some (vector_text theirs client)) source
      ≡ (drop_learnt source t >>= λ kept. update_routes name source kept (routes client theirs))
unfolding parse_vector vector_text
parse_vector-text name source client theirs t h = rw (vector_items-joined theirs client) (
    rw (strip_brackets-between (joined (map group (routes client theirs)))) (
      rw
        (split-joined (map group (routes client theirs)) (group-AreFields (routes client theirs) h))
        (bind_congr (drop_learnt source t) _ _
          (λ kept. parse_routes-groups name source (routes client theirs) kept h))))
