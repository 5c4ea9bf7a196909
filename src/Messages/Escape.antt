-- ===== src/Messages/Escape.antt =====
-- common/messages.c: `mess__escape`, `mess__unescape`, `mess__treatInput`, `mess__treatOutput`.
-- A result that C allocates is the text in it, without its terminator.
pub mod Lemmas
pub mod Buffers
pub mod RoundTrip
use re203_projet_reseau.Prelude.{
  ℕ, suc, ◌+◌, ◌-◌, Bool, true, false, not, ◌&&◌, ◌||◌, List, [], ◌∷◌, ◌++◌, some, none, Str,
  Pointer, length, get_or, take, ◌==◌, if◌then◌else◌, Outcome, ok, fault, out_of_bounds,
}

-- `c == '*' || c == '\\'`
abbrev pub is_special : ℕ → Bool
is_special c = c == b'*' || c == b'\\'

-- The first loop of `mess__escape`: the number of bytes to escape.
unfoldable pub count_special : Str → ℕ
count_special [] = 0
count_special (c ∷ s) = if is_special c then suc (count_special s) else count_special s

-- The second loop, at index `i` of a text of `n` bytes. The last byte is copied as it is.
unfoldable pub escape_from : ℕ → ℕ → Str → Str
escape_from n i [] = []
escape_from n i (c ∷ s) =
    let rest = escape_from n (i + 1) s in
    if is_special c && not (i + 1 == n) then b'\\' ∷ c ∷ rest else c ∷ rest

unfoldable pub escape_bytes : Str → Str
unfolding escape_from
escape_bytes s = escape_from (length s) 0 s

-- The loop of `mess__unescape`.
unfoldable pub unescape_bytes : Str → Str
unescape_bytes [] = []
unescape_bytes (c ∷ []) = c ∷ []
unescape_bytes (c ∷ d ∷ s) = elim (c == b'\\' && is_special d) [
  | true ↦ d ∷ unescape_bytes s
  | false ↦ c ∷ unescape_bytes (d ∷ s)
]

unfoldable pub escape : Pointer → Pointer
escape none = none
escape (some s) = some (escape_bytes s)

unfoldable pub unescape : Pointer → Pointer
unescape none = none
unescape (some s) = some (unescape_bytes s)

-- `if (src[strlen (src) - 1] == '*') src[strlen (src) - 1] = 0;`, which for the empty text
-- reads in front of the buffer
unfoldable pub strip_star : Str → Outcome Str
strip_star [] = fault out_of_bounds
strip_star (c ∷ s) =
    let last = length (c ∷ s) - 1 in
    if get_or (c ∷ s) last 0 == b'*' then ok (take last (c ∷ s)) else ok (c ∷ s)

unfoldable pub treat_input_bytes : Str → Outcome Str
unfolding strip_star unescape_bytes
treat_input_bytes s = strip_star (unescape_bytes s)

unfoldable pub treat_output_bytes : Str → Str
unfolding escape_bytes
treat_output_bytes s = escape_bytes s ++ b'*' ∷ []

unfoldable pub treat_input : Pointer → Outcome Pointer
treat_input none = ok none
treat_input (some s) = elim (treat_input_bytes s) [ ok t ↦ ok (some t) | fault e ↦ fault e ]

unfoldable pub treat_output : Pointer → Pointer
treat_output none = none
treat_output (some s) = some (treat_output_bytes s)
