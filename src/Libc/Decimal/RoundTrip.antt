-- ===== src/Libc/Decimal/RoundTrip.antt =====
-- `atoi` of what `%d` prints.
use re203_projet_reseau.Prelude.{
  ℕ, zero, suc, ◌+◌, ◌-◌, ◌*◌, ◌/◌, ◌%◌, ◌^◌, ◌≤◌, ◌<◌, ◌≡◌, ◌≢◌, refl, sym, true, false, ◌++◌, [],
  ◌∷◌, Str, arith, length, ltb, length-append, ℤ, pos, negsuc, ok, Bool-cases, inl, inr,
}
use re203_projet_reseau.Libc.Tokens.{NoSpace, IsWord}
use re203_projet_reseau.Libc.Tokens.Separated.{Without, IsField}
use re203_projet_reseau.Libc.Decimal.{
  IsInt, is_int, digits, show_int, is_digit, scan, negative, signed, skip_blanks, atoi,
}

-- Only digits.
abbrev pub AllDigits : Str → Type 0
AllDigits [] = Unit
AllDigits (c ∷ s) = (is_digit c ≡ true) × AllDigits s

AllDigits-snoc : (s : Str) (c : ℕ) → AllDigits s → is_digit c ≡ true → AllDigits (s ++ c ∷ [])
AllDigits-snoc [] c h e = (e, tt)
AllDigits-snoc (x ∷ s) c h e = (h.0, AllDigits-snoc s c h.1 e)

scan-snoc :
    (s : Str) (n c : ℕ)
    → AllDigits s
    → is_digit c ≡ true
    → scan n (s ++ c ∷ []) ≡ scan n s * 10 + (c - b'0')
unfolding scan
scan-snoc [] n c h e = ground arith
scan-snoc (x ∷ s) n c h e = ground (arith, scan-snoc s (n * 10 + (x - b'0')) c h.1 e)

pub digits-AllDigits : (k n : ℕ) → AllDigits (digits k n)
unfolding digits
digits-AllDigits zero n = tt
digits-AllDigits (suc k) n = elim (Bool-cases (ltb n 10)) [
  | inl e ↦ rw e (ground arith, tt)
  | inr e ↦ rw e (
      AllDigits-snoc (digits k (n / 10)) (b'0' + n % 10) (digits-AllDigits k (n / 10))
        (ground arith))
]

scan-digits : (k n : ℕ) → n < 10 ^ k → scan 0 (digits k n) ≡ n
unfolding digits
scan-digits zero n h = unfold scan in omega arith
scan-digits (suc k) n h = elim (Bool-cases (ltb n 10)) [
  | inl e ↦ rw e (unfold scan in ground arith)
  | inr e ↦
      rw
        (
          e,
          scan-snoc (digits k (n / 10)) 0 (b'0' + n % 10) (digits-AllDigits k (n / 10))
              (ground arith),
        )
        (grind (arith, scan-digits k (n / 10)))
]

skip_blanks-digits : (s : Str) → AllDigits s → skip_blanks s ≡ s
unfolding skip_blanks
skip_blanks-digits [] h = refl
skip_blanks-digits (c ∷ s) h = ground arith

signed-digits : (s : Str) → AllDigits s → signed s ≡ pos (scan 0 s)
unfolding signed
signed-digits [] h = unfold scan in refl
signed-digits (c ∷ s) h = ground arith

signed-minus : (s : Str) → signed (skip_blanks (b'-' ∷ s)) ≡ negative (scan 0 s)
unfolding signed skip_blanks
signed-minus s = refl

-- An `int` is the value of its print.
signed-show_int : (z : ℤ) → IsInt z → signed (skip_blanks (show_int z)) ≡ z
unfolding show_int
signed-show_int (pos n) h =
    let all = digits-AllDigits 10 n in
    rw (
      skip_blanks-digits (digits 10 n) all,
      signed-digits (digits 10 n) all,
      scan-digits 10 n (omega arith),
    )
signed-show_int (negsuc n) h =
    rw (signed-minus (digits 10 (suc n)), scan-digits 10 (suc n) (omega arith))
      (unfold negative in refl)

is_int_of : (z : ℤ) → IsInt z → is_int z ≡ true
is_int_of z h = ground arith

-- `atoi` reads back what `%d` prints, for every `int`.
pub atoi-show_int : (z : ℤ) → IsInt z → atoi (show_int z) ≡ ok z
unfolding atoi
atoi-show_int z h = rw (signed-show_int z h, is_int_of z h)

NoSpace-digits : (s : Str) → AllDigits s → NoSpace s
NoSpace-digits [] h = tt
NoSpace-digits (c ∷ s) h = (ground arith, NoSpace-digits s h.1)

IsWord-digits : (s : Str) → AllDigits s → s ≢ [] → IsWord s
IsWord-digits [] h e = e refl
IsWord-digits (c ∷ s) h e = NoSpace-digits (c ∷ s) h

snoc-ne-nil : (s : Str) (c : ℕ) → s ++ c ∷ [] ≢ []
snoc-ne-nil [] c = ground arith
snoc-ne-nil (x ∷ s) c = ground arith

digits-ne-nil : (k n : ℕ) → digits (suc k) n ≢ []
unfolding digits
digits-ne-nil k n = ground (arith, snoc-ne-nil (digits k (n / 10)) (b'0' + n % 10))

-- The print of an `int` is one token.
pub show_int-IsWord : (z : ℤ) → IsWord (show_int z)
unfolding show_int
show_int-IsWord (pos n) = IsWord-digits (digits 10 n) (digits-AllDigits 10 n) (digits-ne-nil 9 n)
show_int-IsWord (negsuc n) =
    (ground arith, NoSpace-digits (digits 10 (suc n)) (digits-AllDigits 10 (suc n)))

length-digits : (k n : ℕ) → length (digits k n) ≤ k
unfolding digits
length-digits zero n = omega arith
length-digits (suc k) n =
    ground
      (arith, length-digits k (n / 10), length-append (digits k (n / 10)) ((b'0' + n % 10) ∷ []))

-- The print of an `int` has at most eleven bytes.
pub length-show_int : (z : ℤ) → length (show_int z) ≤ 11
unfolding show_int
length-show_int (pos n) = omega (arith, length-digits 10 n)
length-show_int (negsuc n) = omega (arith, length-digits 10 (suc n))

Without-digits : (d : ℕ) (s : Str) → is_digit d ≡ false → AllDigits s → Without d s
Without-digits d [] e h = tt
Without-digits d (c ∷ s) e h = (ground arith, Without-digits d s e h.1)

IsField-digits : (d : ℕ) (s : Str) → is_digit d ≡ false → AllDigits s → s ≢ [] → IsField d s
IsField-digits d [] e h ne = ne refl
IsField-digits d (c ∷ s) e h ne = Without-digits d (c ∷ s) e h

-- The print of an `int` is a field between bytes that are no digit and no sign.
pub show_int-IsField : (d : ℕ) (z : ℤ) → is_digit d ≡ false → d ≢ b'-' → IsField d (show_int z)
unfolding show_int
show_int-IsField d (pos n) e m =
    IsField-digits d (digits 10 n) e (digits-AllDigits 10 n) (digits-ne-nil 9 n)
show_int-IsField d (negsuc n) e m =
    (λ q. m (sym q), Without-digits d (digits 10 (suc n)) e (digits-AllDigits 10 (suc n)))
