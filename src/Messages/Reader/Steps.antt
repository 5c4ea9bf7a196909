-- ===== src/Messages/Reader/Steps.antt =====
-- The steps of a run of `strtok` (common/messages.c) over words with single spaces between.
use re203_projet_reseau.Prelude.{
  ℕ, ◌≡◌, some, [], ◌∷◌, ◌++◌, Str, Pointer, ℤ, Outcome, ok, fault, null_pointer,
}
use re203_projet_reseau.Libc.Decimal.{IsInt, show_int}
use re203_projet_reseau.Libc.Decimal.RoundTrip.{atoi-show_int, show_int-IsWord}
use re203_projet_reseau.Libc.Tokens.{IsWord, strtok-word, strtok-end, strtok-all, strtok-nil}
use re203_projet_reseau.Messages.Reader.{
  Reader, ◌>>=◌, next, next_by, next_copy, next_int, lift, atoi_pointer, run,
}

module _ {A : Type 0} where
  pub next-word :
      (f : Pointer → Reader A) (w rest : Str)
      → IsWord w
      → (next >>= f) (w ++ b' ' ∷ rest) ≡ f (some w) rest
  unfolding ◌>>=◌ next
  next-word f w rest h = rw (strtok-word w rest h)

  pub copy-word :
      (f : Pointer → Reader A) (w rest : Str)
      → IsWord w
      → (next_copy >>= f) (w ++ b' ' ∷ rest) ≡ f (some w) rest
  unfolding ◌>>=◌ next_copy
  copy-word f w rest h = rw (strtok-word w rest h)

  pub copy-end : (f : Pointer → Reader A) (w : Str) → IsWord w → (next_copy >>= f) w ≡ f (some w) []
  unfolding ◌>>=◌ next_copy
  copy-end f w h = rw (strtok-end w h)

  pub int-word :
      (f : ℤ → Reader A) (z : ℤ) (rest : Str)
      → IsInt z
      → (next_int >>= f) (show_int z ++ b' ' ∷ rest) ≡ f z rest
  unfolding ◌>>=◌ next_int
  int-word f z rest h =
      rw (strtok-word (show_int z) rest (show_int-IsWord z), atoi-show_int z h, ◌>>=◌, next_int)

  pub int-end : (f : ℤ → Reader A) (z : ℤ) → IsInt z → (next_int >>= f) (show_int z) ≡ f z []
  unfolding ◌>>=◌ next_int
  int-end f z h =
      rw (strtok-end (show_int z) (show_int-IsWord z), atoi-show_int z h, ◌>>=◌, next_int)

  pub rest-end :
      (f : Pointer → Reader A) (c : ℕ) (s : Str) → (next_by [] >>= f) (c ∷ s) ≡ f (some (c ∷ s)) []
  unfolding ◌>>=◌ next_by
  rest-end f c s = rw (strtok-all c s)

  pub lift-ok :
      {B : Type 0} (m : Outcome B) (f : B → Reader A) (s : Str) {b : B}
      → m ≡ ok b
      → (lift m >>= f) s ≡ f b s
  unfolding ◌>>=◌ lift
  lift-ok m f s e = rw (e, ◌>>=◌, lift)

  pub int-missing : (f : ℤ → Reader A) → (next_int >>= f) [] ≡ fault null_pointer
  unfolding ◌>>=◌ next_int atoi_pointer lift
  int-missing f = rw (strtok-nil, ◌>>=◌, next_int)

  pub run-ok : (m : Reader A) (s : Str) {a : A} {t : Str} → m s ≡ ok (a, t) → run m s ≡ ok a
  unfolding run
  run-ok m s e = rw (e, run)
