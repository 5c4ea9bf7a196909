-- ===== src/Controller/Events/Stars.antt =====
-- How the event functions (controller/net_functions.c) cut what they are given.
use re203_projet_reseau.Prelude.{
  if◌then◌else◌, ℕ, some, ◌≡◌, ◌≢◌, refl, [], ◌∷◌, ◌++◌, Str, arith, ap, ◌⊎◌, inl, inr, ◌==◌,
  Bool-cases,
}
use re203_projet_reseau.Messages.Escape.RoundTrip.{last?}
use re203_projet_reseau.Controller.Events.{up_to_last_star}

abbrev pub HasNoStar : Str → Type 0
HasNoStar [] = Unit
HasNoStar (c ∷ s) = (c ≢ b'*') × HasNoStar s

-- A text, what is kept of it, and what is cut off.
abbrev IsCut : Str → Str → Type 0
IsCut s u = (t : Str) × (u ++ t ≡ s) × HasNoStar t × ((u ≡ []) ⊎ (last? u ≡ some b'*'))

IsCut-cons :
    (c : ℕ) (s u : Str)
    → IsCut s u
    → IsCut (c ∷ s) (elim u [ [] ↦ if c == b'*' then c ∷ [] else [] | d ∷ rest ↦ c ∷ d ∷ rest ])
IsCut-cons c s [] (t, e, h, k) = elim (Bool-cases (c == b'*')) [
  | inl star ↦
      let same : c ≡ b'*' = ground arith in rw star (t, ap (λ x. c ∷ x) e, h, inr (ap some same))
  | inr other ↦
      let differs : c ≢ b'*' = ground arith in
      rw other (c ∷ t, ap (λ x. c ∷ x) e, (differs, h), inl refl)
]
IsCut-cons c s (d ∷ rest) (t, e, h, inl k) = cc
IsCut-cons c s (d ∷ rest) (t, e, h, inr k) = (t, ap (λ x. c ∷ x) e, h, inr k)

-- What is left of a text is cut behind its last star: the rest holds no star, and what is kept is
-- empty or ends in one.
pub up_to_last_star-split :
    (s : Str)
    → (t : Str) × (up_to_last_star s ++ t ≡ s)
      × HasNoStar t
      × ((up_to_last_star s ≡ []) ⊎ (last? (up_to_last_star s) ≡ some b'*'))
unfolding up_to_last_star
up_to_last_star-split [] = ([], refl, tt, inl refl)
up_to_last_star-split (c ∷ s) = IsCut-cons c s (up_to_last_star s) (up_to_last_star-split s)
