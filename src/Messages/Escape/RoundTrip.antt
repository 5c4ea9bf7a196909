-- ===== src/Messages/Escape/RoundTrip.antt =====
-- `mess__treatInput` after `mess__treatOutput` (common/messages.c), and the empty input.
use re203_projet_reseau.Prelude.{
  ℕ, ◌≡◌, ◌≢◌, ◌↔◌, refl, ap, inl, inr, [], ◌∷◌, ◌++◌, Option, some, none, Str, arith, ok, fault,
  out_of_bounds, Fault, Pointer, Bool-cases, get_or, take, length, ◌-◌, ◌&&◌, ◌==◌,
}
use re203_projet_reseau.Messages.Escape.{
  is_special, unescape_bytes, strip_star, treat_input_bytes, treat_output_bytes, treat_input,
  treat_output,
}
use re203_projet_reseau.Messages.Escape.Lemmas.{
  escape_list, escape_bytes-eq-list, escape_list-snoc, unescape_bytes-plain, unescape_bytes-escaped,
  strip_star-append,
}

abbrev pub last? : Str → Option ℕ
last? [] = none
last? (c ∷ []) = some c
last? (c ∷ d ∷ s) = last? (d ∷ s)

unescape-escape_list :
    (s : Str) → last? s ≢ some b'\\' → unescape_bytes (escape_list s ++ b'*' ∷ []) ≡ s ++ b'*' ∷ []
unfolding escape_list
unescape-escape_list [] h = unfold unescape_bytes in refl
unescape-escape_list (c ∷ []) h =
    rw (unescape_bytes-plain c (b'*' ∷ []) (λ e. h (ap some e))) (unfold unescape_bytes in refl)
unescape-escape_list (c ∷ d ∷ s) h = elim (Bool-cases (is_special c)) [
  | inl e ↦
      rw (e, unescape_bytes-escaped c (escape_list (d ∷ s) ++ b'*' ∷ []) e)
        (λ i. c ∷ unescape-escape_list (d ∷ s) h i)
  | inr e ↦
      rw (e, unescape_bytes-plain c (escape_list (d ∷ s) ++ b'*' ∷ []) (ground arith))
        (λ i. c ∷ unescape-escape_list (d ∷ s) h i)
]

unescape-escape_list_backslash :
    (t : Str) → unescape_bytes (escape_list (t ++ b'\\' ∷ []) ++ b'*' ∷ []) ≡ t ++ b'*' ∷ []
unescape-escape_list_backslash [] = unfold unescape_bytes escape_list in refl
unescape-escape_list_backslash (c ∷ t) = elim (Bool-cases (is_special c)) [
  | inl e ↦
      rw
        (
          escape_list-snoc c b'\\' t,
          e,
          unescape_bytes-escaped c (escape_list (t ++ b'\\' ∷ []) ++ b'*' ∷ []) e,
        )
        (λ i. c ∷ unescape-escape_list_backslash t i)
  | inr e ↦
      rw
        (
          escape_list-snoc c b'\\' t,
          e,
          unescape_bytes-plain c (escape_list (t ++ b'\\' ∷ []) ++ b'*' ∷ []) (ground arith),
        )
        (λ i. c ∷ unescape-escape_list_backslash t i)
]

bytes_round_trip :
    (s : Str) → last? s ≢ some b'\\' → treat_input_bytes (treat_output_bytes s) ≡ ok s
unfolding treat_input_bytes treat_output_bytes
bytes_round_trip s h = rw (escape_bytes-eq-list s, unescape-escape_list s h, strip_star-append s)

bytes_round_trip_backslash :
    (t : Str) → treat_input_bytes (treat_output_bytes (t ++ b'\\' ∷ [])) ≡ ok t
unfolding treat_input_bytes treat_output_bytes
bytes_round_trip_backslash t =
    rw (
      escape_bytes-eq-list (t ++ b'\\' ∷ []),
      unescape-escape_list_backslash t,
      strip_star-append t,
    )

-- What `mess__treatOutput` makes of a text, `mess__treatInput` turns back into the text, if the
-- text does not end in a backslash. (The text may be empty, and may hold any other byte anywhere.)
pub treat_input-treat_output :
    (s : Str) → last? s ≢ some b'\\' → treat_input (treat_output (some s)) ≡ ok (some s)
unfolding treat_input treat_output
treat_input-treat_output s h = rw (bytes_round_trip s h, treat_input)

-- A text that ends in a backslash loses exactly that backslash on its way through
-- `mess__treatOutput` and `mess__treatInput`.
pub treat_input-treat_output_backslash :
    (t : Str) → treat_input (treat_output (some (t ++ b'\\' ∷ []))) ≡ ok (some t)
unfolding treat_input treat_output
treat_input-treat_output_backslash t = rw (bytes_round_trip_backslash t, treat_input)

unescape_bytes_cons : (c : ℕ) (s : Str) → (d : ℕ) × (t : Str) × (unescape_bytes (c ∷ s) ≡ d ∷ t)
unfolding unescape_bytes
unescape_bytes_cons c [] = (c, [], refl)
unescape_bytes_cons c (d ∷ s) = elim (Bool-cases (c == b'\\' && is_special d)) [
  | inl e ↦ (d, unescape_bytes s, rw (e, unescape_bytes))
  | inr e ↦ (c, unescape_bytes (d ∷ s), rw (e, unescape_bytes))
]

strip_star_cons : (c : ℕ) (s : Str) → (t : Str) × (strip_star (c ∷ s) ≡ ok t)
unfolding strip_star
strip_star_cons c s = elim (Bool-cases (get_or (c ∷ s) (length (c ∷ s) - 1) 0 == b'*')) [
  | inl e ↦ (take (length (c ∷ s) - 1) (c ∷ s), rw e)
  | inr e ↦ (c ∷ s, rw e)
]

-- `mess__treatInput` returns a text for every text that is not empty.
pub treat_input_bytes_cons : (c : ℕ) (s : Str) → (t : Str) × (treat_input_bytes (c ∷ s) ≡ ok t)
unfolding treat_input_bytes
treat_input_bytes_cons c s =
    let (d, r, e) = unescape_bytes_cons c s in let (t, f) = strip_star_cons d r in (t, rw e f)

pub treat_input_cons : (c : ℕ) (s : Str) → (t : Str) × (treat_input (some (c ∷ s)) ≡ ok (some t))
unfolding treat_input
treat_input_cons c s = let (t, f) = treat_input_bytes_cons c s in (t, rw (f, treat_input))

treat_input_empty : treat_input (some []) ≡ fault out_of_bounds
unfolding treat_input treat_input_bytes
treat_input_empty = refl

-- `mess__treatInput` reads outside its buffer for the empty text. It does so for no other text and
-- not for NULL, of which it returns a value.
pub treat_input_fault :
    (p : Pointer) (e : Fault) → (treat_input p ≡ fault e) ↔ ((p ≡ some []) × (e ≡ out_of_bounds))
treat_input_fault none e = (λ h. unfold treat_input in cc h, λ h. cc h.0)
treat_input_fault (some []) e =
    (λ h. (refl, cc (h, treat_input_empty)), λ h. cc (h.1, treat_input_empty))
treat_input_fault (some (c ∷ s)) e =
    let (t, f) = treat_input_cons c s in (λ h. cc (h, f), λ h. cc h.0)
