-- ===== src/Messages/Regexes/First.antt =====
-- Which pattern of the table in common/messages.c is the first to match a text.
use native.Mathlib.Numerals.{add-one}
use re203_projet_reseau.Prelude.{
  refl, Bool, ◌∙◌, ◌∷◌, ap, some, length, arith, ◌≤◌, ◌<◌, drop, ◌+◌, Option, List, ℕ, zero, suc,
  Bool, true, false, not, ◌&&◌, ◌≡◌, [], Str, starts_with, get_or, Bool-cases, inl, inr,
}
use re203_projet_reseau.Messages.Regexes.{
  first_match, regex_strtable, literal_prefix, IsPrefixSound,
}

-- None of the first `n` patterns behind the first `i` begins with bytes that `s` begins with.
abbrev pub all_differ : ℕ → ℕ → Str → Bool
all_differ zero i s = true
all_differ (suc n) i s =
    not (starts_with (literal_prefix (get_or regex_strtable i [])) s) && all_differ n (suc i) s

not-and : (a b : Bool) → not a && b ≡ true → (a ≡ false) × (b ≡ true)
not-and a b h = ground arith

drop-step {ℓ} :
    {A : Type ℓ} (xs : List A) (i : ℕ) (d : A)
    → i < length xs
    → drop i xs ≡ get_or xs i d ∷ drop (suc i) xs
drop-step [] i d h = absurd (omega arith)
drop-step (x ∷ xs) zero d h = refl
drop-step (x ∷ xs) (suc i) d h = drop-step xs i d (omega arith)

module _ (trex_match : Str → Str → Bool) (sound : IsPrefixSound trex_match) where
  pub differ-no_match :
      (i : ℕ) (s : Str)
      → starts_with (literal_prefix (get_or regex_strtable i [])) s ≡ false
      → trex_match (get_or regex_strtable i []) s ≡ false
  differ-no_match i s h = elim (Bool-cases (trex_match (get_or regex_strtable i []) s)) [
    | inl e ↦ cc (h, sound i s e)
    | inr e ↦ e
  ]

  -- The loop at index `i`.
  abbrev pub first_from : ℕ → Str → Option ℕ
  first_from i s = first_match trex_match i (drop i regex_strtable) s

  pub first_from-hit :
      (i : ℕ) (s : Str)
      → i < 33
      → trex_match (get_or regex_strtable i []) s ≡ true
      → first_from i s ≡ some i
  unfolding first_match
  first_from-hit i s lt e = rw (drop-step regex_strtable i [] lt, e)

  pub first_from-miss :
      (i : ℕ) (s : Str)
      → i < 33
      → trex_match (get_or regex_strtable i []) s ≡ false
      → first_from i s ≡ first_from (suc i) s
  unfolding first_match
  first_from-miss i s lt e = rw (drop-step regex_strtable i [] lt, e, add-one)

  -- Patterns that begin with other bytes are passed over.
  pub first_from-skip :
      (n i j : ℕ) (s : Str)
      → n + i ≡ j
      → j ≤ 33
      → all_differ n i s ≡ true
      → first_from i s ≡ first_from j s
  first_from-skip zero i j s e le h = let e' : i ≡ j = omega arith in ap (λ k. first_from k s) e'
  first_from-skip (suc n) i j s e le h =
      let both =
        not-and (starts_with (literal_prefix (get_or regex_strtable i [])) s)
          (all_differ n (suc i) s) h in
      first_from-miss i s (omega arith) (differ-no_match i s both.0)
      ∙ first_from-skip n (suc i) j s (omega arith) le both.1
