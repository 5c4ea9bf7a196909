-- ===== src/Libc/Tokens/Separated.antt =====
-- Texts that a single byte separates, as `strtok` reads them.
use re203_projet_reseau.Prelude.{ℕ, ◌≡◌, ◌≢◌, refl, [], ◌∷◌, ◌++◌, some, Str, arith}
use re203_projet_reseau.Libc.Tokens.{is_delimiter, skip_delimiters, token, first_token, strtok}

-- A text without the byte.
abbrev pub Without : ℕ → Str → Type 0
Without d [] = Unit
Without d (c ∷ s) = (c ≢ d) × Without d s

-- A text that is not empty and without the byte.
abbrev pub IsField : ℕ → Str → Type 0
IsField d [] = ⊥
IsField d (c ∷ s) = (c ≢ d) × Without d s

token-field : (d : ℕ) (w rest : Str) → Without d w → token (d ∷ []) (w ++ d ∷ rest) ≡ (w, rest)
unfolding token is_delimiter
token-field d [] rest h = ground arith
token-field d (c ∷ w) rest h = ground (arith, token-field d w rest h.1)

token-last : (d : ℕ) (w : Str) → Without d w → token (d ∷ []) w ≡ (w, [])
unfolding token is_delimiter
token-last d [] h = refl
token-last d (c ∷ w) h = ground (arith, token-last d w h.1)

skip-field : (d c : ℕ) (s : Str) → c ≢ d → skip_delimiters (d ∷ []) (c ∷ s) ≡ c ∷ s
unfolding skip_delimiters is_delimiter
skip-field d c s h = ground arith

-- A field in front of the byte is one token, and the text behind the byte is left.
pub strtok-field :
    (d : ℕ) (w rest : Str) → IsField d w → strtok (d ∷ []) (w ++ d ∷ rest) ≡ (some w, rest)
unfolding strtok first_token
strtok-field d [] rest h = absurd h
strtok-field d (c ∷ w) rest h =
    rw (skip-field d c (w ++ d ∷ rest) h.0, token-field d (c ∷ w) rest h)

-- A field that ends the text is its last token.
pub strtok-last : (d : ℕ) (w : Str) → IsField d w → strtok (d ∷ []) w ≡ (some w, [])
unfolding strtok first_token
strtok-last d [] h = absurd h
strtok-last d (c ∷ w) h = rw (skip-field d c w h.0, token-last d (c ∷ w) h)

pub Without-append : (d : ℕ) (a b : Str) → Without d a → Without d b → Without d (a ++ b)
Without-append d [] b h k = k
Without-append d (c ∷ a) b h k = (h.0, Without-append d a b h.1 k)

pub IsField-append : (d : ℕ) (a b : Str) → IsField d a → Without d b → IsField d (a ++ b)
IsField-append d [] b h k = absurd h
IsField-append d (c ∷ a) b h k = (h.0, Without-append d a b h.1 k)

pub IsField-Without : (d : ℕ) (a : Str) → IsField d a → Without d a
IsField-Without d [] h = absurd h
IsField-Without d (c ∷ a) h = h
