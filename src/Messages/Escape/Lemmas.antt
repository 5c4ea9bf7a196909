-- ===== src/Messages/Escape/Lemmas.antt =====
-- The loops of `mess__escape` and `mess__treatInput` (common/messages.c) without their indices.
use re203_projet_reseau.Prelude.{
  ℕ, ◌+◌, ◌-◌, ◌≡◌, ◌≢◌, refl, true, [], ◌∷◌, ◌++◌, Str, length, arith, get_or, if◌then◌else◌, ok,
  length-append, take-length-append,
}
use re203_projet_reseau.Messages.Escape.{
  is_special, escape_from, escape_bytes, unescape_bytes, strip_star,
}

-- Every special byte but the last gets a backslash in front.
unfoldable pub escape_list : Str → Str
escape_list [] = []
escape_list (c ∷ []) = c ∷ []
escape_list (c ∷ d ∷ s) =
    let rest = escape_list (d ∷ s) in if is_special c then b'\\' ∷ c ∷ rest else c ∷ rest

escape_from-eq-list : (n i : ℕ) (s : Str) → i + length s ≡ n → escape_from n i s ≡ escape_list s
unfolding escape_from escape_list
escape_from-eq-list n i [] h = refl
escape_from-eq-list n i (c ∷ []) h = ground arith
escape_from-eq-list n i (c ∷ d ∷ s) h = ground (arith, escape_from-eq-list n (i + 1) (d ∷ s))

pub escape_bytes-eq-list : (s : Str) → escape_bytes s ≡ escape_list s
unfolding escape_bytes
escape_bytes-eq-list s = escape_from-eq-list (length s) 0 s (omega arith)

pub escape_list-snoc :
    (c d : ℕ) (t : Str)
    → escape_list (c ∷ (t ++ d ∷ [])) ≡ (
        if is_special c
        then b'\\' ∷ c ∷ escape_list (t ++ d ∷ [])
        else c ∷ escape_list (t ++ d ∷ []))
unfolding escape_list
escape_list-snoc c d [] = refl
escape_list-snoc c d (x ∷ t) = refl

pub unescape_bytes-plain :
    (c : ℕ) (r : Str) → c ≢ b'\\' → unescape_bytes (c ∷ r) ≡ c ∷ unescape_bytes r
unfolding unescape_bytes
unescape_bytes-plain c [] h = refl
unescape_bytes-plain c (d ∷ r) h = ground arith

pub unescape_bytes-escaped :
    (c : ℕ) (r : Str) → is_special c ≡ true → unescape_bytes (b'\\' ∷ c ∷ r) ≡ c ∷ unescape_bytes r
unfolding unescape_bytes
unescape_bytes-escaped c r h = ground arith

get_or-append : (s : Str) (c d : ℕ) → get_or (s ++ c ∷ []) (length s) d ≡ c
get_or-append [] c d = refl
get_or-append (x ∷ s) c d = get_or-append s c d

last_index : (x c : ℕ) (s : Str) → length (x ∷ (s ++ c ∷ [])) - 1 ≡ length (x ∷ s)
last_index x c s = omega (arith, length-append s (c ∷ []))

pub strip_star-append : (s : Str) → strip_star (s ++ b'*' ∷ []) ≡ ok s
unfolding strip_star
strip_star-append [] = refl
strip_star-append (x ∷ s) =
    rw (last_index x b'*' s, get_or-append (x ∷ s) b'*' 0, take-length-append (x ∷ s) (b'*' ∷ []))
