-- ===== src/Libc/Tokens.antt =====
-- `strtok` and `strstr` of the C library, as common/messages.c and common/config.c call them.
-- The static pointer of `strtok` is the text that is still to be read.
pub mod Separated
use re203_projet_reseau.Prelude.{
  ℕ, suc, ◌≡◌, ◌≢◌, refl, Bool, false, ◌||◌, [], ◌∷◌, ◌++◌, Option, none, some, Str, Pointer, arith,
  ◌==◌, if◌then◌else◌, starts_with,
}

unfoldable pub is_delimiter : Str → ℕ → Bool
is_delimiter [] c = false
is_delimiter (d ∷ delims) c = d == c || is_delimiter delims c

unfoldable pub skip_delimiters : Str → Str → Str
skip_delimiters delims [] = []
skip_delimiters delims (c ∷ s) =
    let rest = skip_delimiters delims s in if is_delimiter delims c then rest else c ∷ s

-- The token at the start of a text, and what follows the delimiter that ends it.
unfoldable pub token : Str → Str → Str × Str
token delims [] = ([], [])
token delims (c ∷ s) =
    let rest = token delims s in if is_delimiter delims c then ([], s) else (c ∷ rest.0, rest.1)

-- `strtok` behind the leading delimiters: NULL when nothing is left.
unfoldable pub first_token : Str → Str → Pointer × Str
first_token delims [] = (none, [])
first_token delims (c ∷ s) = (some (token delims (c ∷ s)).0, (token delims (c ∷ s)).1)

unfoldable pub strtok : Str → Str → Pointer × Str
strtok delims s = first_token delims (skip_delimiters delims s)

-- `strstr`: the place of the first occurrence, NULL if there is none.
unfoldable pub strstr : Str → Str → Option ℕ
strstr [] needle = if starts_with needle [] then some 0 else none
strstr (c ∷ s) needle =
    let rest = strstr s needle in
    if starts_with needle (c ∷ s) then some 0 else elim rest [ none ↦ none | some i ↦ some (suc i) ]

abbrev pub space : Str
space = b' ' ∷ []

-- A text with no space in it.
abbrev pub NoSpace : Str → Type 0
NoSpace [] = Unit
NoSpace (c ∷ s) = (c ≢ b' ') × NoSpace s

-- A word: not empty, and with no space.
abbrev pub IsWord : Str → Type 0
IsWord [] = ⊥
IsWord (c ∷ s) = (c ≢ b' ') × NoSpace s

token-word : (w rest : Str) → NoSpace w → token space (w ++ b' ' ∷ rest) ≡ (w, rest)
unfolding token is_delimiter
token-word [] rest h = refl
token-word (c ∷ w) rest h = ground (arith, token-word w rest h.1)

token-end : (w : Str) → NoSpace w → token space w ≡ (w, [])
unfolding token is_delimiter
token-end [] h = refl
token-end (c ∷ w) h = ground (arith, token-end w h.1)

skip-word : (c : ℕ) (s : Str) → c ≢ b' ' → skip_delimiters space (c ∷ s) ≡ c ∷ s
unfolding skip_delimiters is_delimiter
skip-word c s h = ground arith

-- A word in front of a space is one token, and the text behind the space is left.
pub strtok-word : (w rest : Str) → IsWord w → strtok space (w ++ b' ' ∷ rest) ≡ (some w, rest)
unfolding strtok first_token
strtok-word [] rest h = absurd h
strtok-word (c ∷ w) rest h = rw (skip-word c (w ++ b' ' ∷ rest) h.0, token-word (c ∷ w) rest h)

-- A word that ends the text is its last token.
pub strtok-end : (w : Str) → IsWord w → strtok space w ≡ (some w, [])
unfolding strtok first_token
strtok-end [] h = absurd h
strtok-end (c ∷ w) h = rw (skip-word c w h.0, token-end (c ∷ w) h)

-- Nothing is left of the empty text.
pub strtok-nil : strtok space [] ≡ (none, [])
unfolding strtok first_token skip_delimiters
strtok-nil = refl

skip-none : (s : Str) → skip_delimiters [] s ≡ s
unfolding skip_delimiters is_delimiter
skip-none [] = refl
skip-none (c ∷ s) = refl

token-none : (s : Str) → token [] s ≡ (s, [])
unfolding token is_delimiter
token-none [] = refl
token-none (c ∷ s) = ground (arith, token-none s)

-- With no delimiter the token is all that is left.
pub strtok-all : (c : ℕ) (s : Str) → strtok [] (c ∷ s) ≡ (some (c ∷ s), [])
unfolding strtok first_token
strtok-all c s = rw (skip-none (c ∷ s), token-none (c ∷ s))
