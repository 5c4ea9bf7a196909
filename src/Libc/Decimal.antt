-- ===== src/Libc/Decimal.antt =====
-- The conversion `%d` of `sprintf` and the function `atoi`, for a 32-bit `int`.
pub mod RoundTrip
use re203_projet_reseau.Prelude.{
  ℕ, zero, suc, ◌+◌, ◌-◌, ◌*◌, ◌/◌, ◌%◌, ◌^◌, ◌≤◌, Bool, ◌&&◌, ◌||◌, [], ◌∷◌, ◌++◌, Str, leb, ltb,
  ◌==◌, if◌then◌else◌, ℤ, pos, negsuc, pos_part, neg_part, Outcome, ok, fault, overflow,
}

-- The range of `int`.
abbrev pub int_max : ℕ
int_max = 2 ^ 31 - 1

abbrev pub IsInt : ℤ → Type 0
IsInt z = (pos_part z ≤ int_max) × (neg_part z ≤ int_max + 1)

abbrev pub is_int : ℤ → Bool
is_int z = leb (pos_part z) int_max && leb (neg_part z) (int_max + 1)

-- The digits of `n`, the last one first taken off. The first argument bounds their number: ten are
-- enough for an `int`.
unfoldable pub digits : ℕ → ℕ → Str
digits zero n = []
digits (suc k) n =
    let rest = digits k (n / 10) in
    if ltb n 10 then (b'0' + n) ∷ [] else rest ++ (b'0' + n % 10) ∷ []

-- `%d`
unfoldable pub show_int : ℤ → Str
show_int (pos n) = digits 10 n
show_int (negsuc n) = b'-' ∷ digits 10 (suc n)

abbrev pub is_digit : ℕ → Bool
is_digit c = leb b'0' c && leb c b'9'

-- `isspace`
abbrev pub is_blank : ℕ → Bool
is_blank c = c == b' ' || (leb 9 c && leb c 13)

-- The value of the digits at the start of a text, behind the digits that spell `n`.
unfoldable pub scan : ℕ → Str → ℕ
scan n [] = n
scan n (c ∷ s) = let rest = scan (n * 10 + (c - b'0')) s in if is_digit c then rest else n

unfoldable pub negative : ℕ → ℤ
negative zero = pos 0
negative (suc n) = negsuc n

unfoldable pub signed : Str → ℤ
signed [] = pos 0
signed (c ∷ s) =
    if c == b'-'
    then negative (scan 0 s)
    else if c == b'+'
    then pos (scan 0 s)
    else pos (scan 0 (c ∷ s))

unfoldable pub skip_blanks : Str → Str
skip_blanks [] = []
skip_blanks (c ∷ s) = let rest = skip_blanks s in if is_blank c then rest else c ∷ s

-- `atoi`, whose behaviour is undefined for a value that is no `int`
unfoldable pub atoi : Str → Outcome ℤ
atoi s = let z = signed (skip_blanks s) in if is_int z then ok z else fault overflow
