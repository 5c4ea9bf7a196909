-- ===== src/Router/Vector/Fuel.antt =====
-- The calls of `strtok` in `Router::parseVector` and `Router::parseNeighborhood` (router/router.cpp) come
-- to an end.
use re203_projet_reseau.Prelude.{
  ℕ, zero, suc, ◌≡◌, refl, ap, [], ◌∷◌, none, some, Str, List, Pointer, arith, length, ◌≤◌, ◌+◌,
  ◌∙◌, codes,
}
use re203_projet_reseau.Libc.Tokens.{skip_delimiters, token, first_token, strtok}
use re203_projet_reseau.Router.Vector.{tokens, split}

skip-shorter : (delimiters s : Str) → length (skip_delimiters delimiters s) ≤ length s
unfolding skip_delimiters
skip-shorter delimiters [] = omega arith
skip-shorter delimiters (c ∷ s) = ground (arith, skip-shorter delimiters s)

token-shorter : (delimiters s : Str) → length (token delimiters s).1 ≤ length s
unfolding token
token-shorter delimiters [] = omega arith
token-shorter delimiters (c ∷ s) = ground (arith, token-shorter delimiters s)

token-takes : (delimiters : Str) (c : ℕ) (s : Str) → length (token delimiters (c ∷ s)).1 ≤ length s
unfolding token
token-takes delimiters c s = ground (arith, token-shorter delimiters s)

first_token-takes :
    (delimiters s r : Str)
    → (first_token delimiters s).0 ≡ some r
    → suc (length (first_token delimiters s).1) ≤ length s
unfolding first_token
first_token-takes delimiters [] r e = cc e
first_token-takes delimiters (c ∷ s) r e = let taken = token-takes delimiters c s in omega arith

strtok-takes :
    (delimiters s r : Str)
    → (strtok delimiters s).0 ≡ some r
    → suc (length (strtok delimiters s).1) ≤ length s
unfolding strtok
strtok-takes delimiters s r e =
    let skipped = skip-shorter delimiters s in
    let taken = first_token-takes delimiters (skip_delimiters delimiters s) r e in omega arith

-- A round with enough fuel is the same round with less.
tokens-same :
    (rest rest' : Str → List Str) (p : Pointer × Str)
    → ((r : Str) → p.0 ≡ some r → rest p.1 ≡ rest' p.1)
    → elim p.0 [ none ↦ [] | some r ↦ r ∷ rest p.1 ]
      ≡ elim p.0 [ none ↦ [] | some r ↦ r ∷ rest' p.1 ]
tokens-same rest rest' (none, t) h = refl
tokens-same rest rest' (some r, t) h = ap (λ ts. r ∷ ts) (h r refl)

-- With more fuel than the text has bytes, one more round finds no more tokens.
tokens-enough :
    (k : ℕ) (delimiters s : Str)
    → suc (length s) ≤ k
    → tokens (suc k) delimiters s ≡ tokens k delimiters s
unfolding tokens
tokens-enough zero delimiters s h = absurd (omega arith)
tokens-enough (suc k) delimiters s h =
    tokens-same (tokens (suc k) delimiters) (tokens k delimiters) (strtok delimiters s) (λ r e.
      let taken = strtok-takes delimiters s r e in
      tokens-enough k delimiters (strtok delimiters s).1 (omega arith))

-- The fuel of `split` is enough: any more of it gives the same tokens.
split-enough : (n : ℕ) (s : Str) → tokens (n + suc (length s)) (codes ";") s ≡ split s
unfolding split
split-enough zero s = ap (λ k. tokens k (codes ";") s) (omega arith)
split-enough (suc n) s =
    ap (λ k. tokens k (codes ";") s) (omega arith)
    ∙ tokens-enough (n + suc (length s)) (codes ";") s (omega arith)
    ∙ split-enough n s
