-- ===== src/Messages/Escape/Buffers.antt =====
-- The sizes that common/messages.c gives `malloc` in `mess__escape` and `mess__unescape`.
use re203_projet_reseau.Prelude.{ℕ, ◌+◌, ◌≤◌, [], ◌∷◌, Str, length, arith}
use re203_projet_reseau.Messages.Escape.{count_special, escape_from, escape_bytes, unescape_bytes}

length-escape_from : (n i : ℕ) (s : Str) → length (escape_from n i s) ≤ length s + count_special s
unfolding escape_from count_special
length-escape_from n i [] = omega arith
length-escape_from n i (c ∷ s) = ground (arith, length-escape_from n (i + 1) s)

length-unescape_bytes : (s : Str) → length (unescape_bytes s) ≤ length s
unfolding unescape_bytes
length-unescape_bytes [] = omega arith
length-unescape_bytes (c ∷ []) = omega arith
length-unescape_bytes (c ∷ d ∷ s) =
    ground (arith, length-unescape_bytes s, length-unescape_bytes (d ∷ s))

-- With its terminator, the text that `mess__escape` writes fits the `n + 1 + count` bytes of its
-- buffer, and the one that `mess__unescape` writes the `n + 1` bytes of its own.
pub escape_buffers :
    (s : Str)
    → (length (escape_bytes s) + 1 ≤ length s + 1 + count_special s)
      × (length (unescape_bytes s) + 1 ≤ length s + 1)
unfolding escape_bytes
escape_buffers s = omega (arith, length-escape_from (length s) 0 s, length-unescape_bytes s)
